-- ===== src/Resolver/Recovery/Committed.antt =====
-- api/app/api/resolver.py: `_database_resolver_target` around `resolve_torbox_target`, once the key
-- of TorBox is known. The session is committed when there is a target and when there is no entry;
-- any other exception, and one of the commit, leaves it to be closed, which rolls it back.
use strmline.Prelude.{
  ℕ, ◌≡◌, ◌⊎◌, String, Bool, true, false, List, [], ◌∷◌, ◌++◌, Option, Result, ok, raise,
}
use strmline.Prelude.Text.{Unicode}
use strmline.Resolver.FailureGuard.{record_failure, record_success}
use strmline.Resolver.Play.{
  HttpException, not_found, unavailable, server_error, Resolver, Upstream, record_upstream,
  finish_play,
}
use strmline.Resolver.Recovery.{ClientError, RecoveryFailure, TorBoxPlaybackClient}
use strmline.Resolver.Recovery.Target.{
  PlaybackAttempt, State, SessionError, Session, TargetFailure, resolve_torbox_target,
}

-- An exception of the client that nothing has caught before.
abbrev pub upstream_of_client : ClientError → Upstream
upstream_of_client (ClientError.api_error error) = Upstream.torbox_error error.message
upstream_of_client ClientError.http_error = Upstream.http_error
upstream_of_client ClientError.other_error = Upstream.other_error

-- The exception of a recovery, with `str(error)`.
abbrev pub upstream_of_recovery : RecoveryFailure → Upstream
upstream_of_recovery (RecoveryFailure.recovery_error message) = Upstream.recovery_error message
upstream_of_recovery (RecoveryFailure.client_error error) = upstream_of_client error

abbrev pub upstream_of_session : SessionError → Upstream
upstream_of_session SessionError.sql_error = Upstream.sql_error
upstream_of_session SessionError.os_error = Upstream.os_error

unfoldable pub upstream_of : Result TargetFailure String → Upstream
upstream_of (ok target_url) = Upstream.target target_url
upstream_of (raise (TargetFailure.lookup_error _)) = Upstream.lookup_error
upstream_of (raise (TargetFailure.recovery_failed failure)) = upstream_of_recovery failure
upstream_of (raise (TargetFailure.client_failed error)) = upstream_of_client error
upstream_of (raise (TargetFailure.session_failed error)) = upstream_of_session error

-- Whether the outcome is followed by a commit.
abbrev pub commits : Result TargetFailure String → Bool
commits (ok _) = true
commits (raise (TargetFailure.lookup_error _)) = true
commits (raise (TargetFailure.recovery_failed _)) = false
commits (raise (TargetFailure.client_failed _)) = false
commits (raise (TargetFailure.session_failed _)) = false

module _ (u : Unicode) (urlencode : List (String × String) → String) where
  -- The request of a target that is not cached, to the answer of the endpoint. A success has been
  -- told to the guard when its commit fails.
  unfoldable pub database_resolver_target :
      ℕ
      → ℕ
      → Session
      → String
      → String
      → String
      → Option TorBoxPlaybackClient
      → List PlaybackAttempt
      → Resolver
      → List PlaybackAttempt × (Resolver × Result HttpException String)
  unfolding resolve_torbox_target upstream_of record_upstream finish_play
  database_resolver_target now stored_at session entry_id api_key base client attempts r =
      let (s, outcome) =
        resolve_torbox_target u urlencode session entry_id api_key base client
          (record { attempts = attempts; metrics = r.metrics }) in
      let counted : Resolver = record r { metrics = s.metrics } in
      let answered = finish_play now stored_at entry_id (upstream_of outcome) counted in
      elim (commits outcome) [
        | false ↦ (attempts, answered)
        | true ↦ elim session.can_commit [
          | true ↦ (s.attempts, answered)
          | false ↦ (
            attempts,
            (record_upstream now entry_id (upstream_of outcome) counted, raise server_error),
          )
        ]
      ]

  -- How a request ends, with the attempts before it.
  pub data Answered (now : ℕ) (session : Session) (entry_id : String)
      (before : List PlaybackAttempt) (r : Resolver)
      : List PlaybackAttempt × (Resolver × Result HttpException String) → Type 0 where
    redirected :
        (a : PlaybackAttempt) {after : Resolver} {url : String}
        → a.status ≡ "redirect"
        → after.guard ≡ record_success entry_id r.guard
        → Answered now session entry_id before r (before ++ (a ∷ []), (after, ok url))
    unknown :
        (a : PlaybackAttempt) {after : Resolver}
        → (a.status ≡ "not_found") ⊎ (a.status ≡ "failed")
        → after.guard ≡ r.guard
        → Answered now session entry_id before r (before ++ (a ∷ []), (after, raise not_found))
    unanswered :
        {after : Resolver} {message : String}
        → after.guard ≡ record_failure now entry_id r.guard
        → Answered now session entry_id before r (before, (after, raise (unavailable message)))
    sql_failed :
        {after : Resolver}
        → after.guard ≡ r.guard
        → (session.library_entry ≡ raise SessionError.sql_error)
          ⊎ (session.flushed ≡ raise SessionError.sql_error)
        → Answered now session entry_id before r
            (before, (after, raise (unavailable "Resolver is not available.")))
    uncaught :
        {after : Resolver}
        → after.guard ≡ r.guard
        → Answered now session entry_id before r (before, (after, raise server_error))
    uncommitted :
        {after : Resolver}
        → session.can_commit ≡ false
        → (after.guard ≡ r.guard) ⊎ (after.guard ≡ record_success entry_id r.guard)
        → Answered now session entry_id before r (before, (after, raise server_error))

  -- What the endpoint makes of each way in which a request is recorded.
  abbrev answer_of :
      ℕ
      → ℕ
      → Session
      → String
      → List PlaybackAttempt
      → Resolver
      → State × Result TargetFailure String
      → List PlaybackAttempt × (Resolver × Result HttpException String)
  answer_of now stored_at session entry_id attempts r (s, outcome) =
      let counted : Resolver = record r { metrics = s.metrics } in
      let answered = finish_play now stored_at entry_id (upstream_of outcome) counted in
      elim (commits outcome) [
        | false ↦ (attempts, answered)
        | true ↦ elim session.can_commit [
          | true ↦ (s.attempts, answered)
          | false ↦ (
            attempts,
            (record_upstream now entry_id (upstream_of outcome) counted, raise server_error),
          )
        ]
      ]
