-- ===== src/Resolver/Recovery/Target/Recorded.antt =====
-- api/app/db/repositories/resolver.py: the attempt and the metrics that a request of
-- `resolve_torbox_target` leaves behind.
use strmline.Prelude.{
  ◌+◌, ◌≤◌, ◌≡◌, refl, ap, sym, subst, ◌⊎◌, inl, inr, String, List, [], ◌∷◌, ◌++◌, Option, none,
  some, string_eq, Result, ok, raise, Result-cases, Bool-cases, Option-cases, arith,
}
use strmline.Prelude.Text.{Unicode}
use strmline.Operations.Metrics.{
  OperationalMetrics, resolver_recovery_started, resolver_recovery_finished,
}
use strmline.Torbox.Files.{TorBoxFile}
use strmline.Resolver.Recovery.{ClientError, RecoveryFailure, TorBoxPlaybackClient}
use strmline.Resolver.Recovery.Target.{
  SavedEntry, PlaybackAttempt, State, SessionError, Session, entry_id_of, TargetFailure,
  record_attempt, recovered_link, end_recovery, recover_target, linked_target, is_torrent,
  playback_target, saved_torbox_file, attempted, resolve_saved, resolve_entry,
  resolve_torbox_target,
}

-- What an attempt says of the outcome.
abbrev pub Tells : PlaybackAttempt → Result TargetFailure String → Type 0
Tells a (ok _) = (a.status ≡ "redirect") × (a.failure_reason ≡ none)
Tells a (raise (TargetFailure.recovery_failed _)) =
    (a.status ≡ "failed") × (a.failure_reason ≡ some "torbox_recovery_failed")
Tells a (raise (TargetFailure.lookup_error _)) =
    ((a.status ≡ "not_found") × (a.failure_reason ≡ some "library_entry_not_found"))
    ⊎ ((a.status ≡ "failed") × (a.failure_reason ≡ some "unsupported_provider"))
Tells a (raise (TargetFailure.client_failed _)) = ⊥
Tells a (raise (TargetFailure.session_failed _)) = ⊥

-- The recoveries that were begun are those that ended, and at most one was begun.
abbrev pub Balanced : OperationalMetrics → OperationalMetrics → Type 0
Balanced before after =
    (after.resolver_recovery_attempts
        + (before.resolver_recovery_succeeded + before.resolver_recovery_failed)
      ≡ before.resolver_recovery_attempts
        + (after.resolver_recovery_succeeded + after.resolver_recovery_failed))
    × (after.resolver_recovery_attempts ≤ before.resolver_recovery_attempts + 1)

-- At most one recovery was begun, and none has ended.
abbrev pub LeftOpen : OperationalMetrics → OperationalMetrics → Type 0
LeftOpen before after =
    (after.resolver_recovery_succeeded ≡ before.resolver_recovery_succeeded)
    × (after.resolver_recovery_failed ≡ before.resolver_recovery_failed)
    × (before.resolver_recovery_attempts ≤ after.resolver_recovery_attempts)
    × (after.resolver_recovery_attempts ≤ before.resolver_recovery_attempts + 1)

-- By how the search of a target ends.
abbrev Metered : OperationalMetrics → OperationalMetrics × Result RecoveryFailure String → Type 0
Metered before (after, ok _) = Balanced before after
Metered before (after, raise (RecoveryFailure.recovery_error _)) = Balanced before after
Metered before (after, raise (RecoveryFailure.client_error (ClientError.api_error _))) =
    Balanced before after
Metered before (after, raise (RecoveryFailure.client_error ClientError.http_error)) =
    LeftOpen before after
Metered before (after, raise (RecoveryFailure.client_error ClientError.other_error)) =
    LeftOpen before after

end_recovery-Metered :
    (failure : RecoveryFailure) (m : OperationalMetrics)
    → Metered m (end_recovery failure (resolver_recovery_started m))
unfolding end_recovery resolver_recovery_started resolver_recovery_finished
end_recovery-Metered (RecoveryFailure.recovery_error _) m = (omega arith, omega arith)
end_recovery-Metered (RecoveryFailure.client_error (ClientError.api_error _)) m =
    (omega arith, omega arith)
end_recovery-Metered (RecoveryFailure.client_error ClientError.http_error) m =
    (refl, refl, omega arith, omega arith)
end_recovery-Metered (RecoveryFailure.client_error ClientError.other_error) m =
    (refl, refl, omega arith, omega arith)

module _ (u : Unicode) (urlencode : List (String × String) → String) where
  recover_target-Metered :
      (client : TorBoxPlaybackClient) (info_hash : String) (f : TorBoxFile) (m : OperationalMetrics)
      → Metered m (recover_target u urlencode client info_hash f m)
  unfolding recover_target resolver_recovery_started resolver_recovery_finished
  recover_target-Metered client info_hash f m =
      elim (Result-cases (recovered_link u urlencode client info_hash f)) [
        | inl (e, p) ↦ rw (recover_target, p) (end_recovery-Metered e m)
        | inr (url, p) ↦ rw (recover_target, p) (omega arith, omega arith)
      ]

  linked_target-Metered :
      (client : TorBoxPlaybackClient) (info_hash : String) (f : TorBoxFile) (m : OperationalMetrics)
      → Metered m (linked_target u urlencode client info_hash f m)
  unfolding linked_target
  linked_target-Metered client info_hash f m =
      elim (Result-cases (client.request_download_link 0 f)) [
        | inl (ClientError.api_error e, p) ↦
            rw (linked_target, p) (recover_target-Metered client info_hash f m)
        | inl (ClientError.http_error, p) ↦
            rw (linked_target, p) (refl, refl, omega arith, omega arith)
        | inl (ClientError.other_error, p) ↦
            rw (linked_target, p) (refl, refl, omega arith, omega arith)
        | inr (url, p) ↦ rw (linked_target, p) (omega arith, omega arith)
      ]

  playback_target-Metered :
      (f : TorBoxFile) (info_hash : Option String) (api_key base : String)
      → (client : Option TorBoxPlaybackClient) (m : OperationalMetrics)
      → Metered m (playback_target u urlencode f info_hash api_key base client m)
  unfolding playback_target
  playback_target-Metered f info_hash api_key base none m = (omega arith, omega arith)
  playback_target-Metered f none api_key base (some client) m =
      elim (Bool-cases (is_torrent u urlencode f.kind)) [
        | inl e ↦ rw (playback_target, e) (omega arith, omega arith)
        | inr e ↦ rw (playback_target, e) (omega arith, omega arith)
      ]
  playback_target-Metered f (some hash) api_key base (some client) m =
      elim (Bool-cases (is_torrent u urlencode f.kind)) [
        | inl e ↦ rw (playback_target, e) (linked_target-Metered client hash f m)
        | inr e ↦ rw (playback_target, e) (omega arith, omega arith)
      ]

  -- How a request is recorded: by one more attempt, which tells the outcome, or not at all, when an
  -- exception of the client is not caught or the session fails.
  pub data RecordsOnce (session : Session) (entry_id : String) (s : State)
      : State × Result TargetFailure String → Type 0 where
    recorded :
        {after : State} {outcome : Result TargetFailure String} (a : PlaybackAttempt)
        → Balanced s.metrics after.metrics
        → after.attempts ≡ s.attempts ++ (a ∷ [])
        → a.entry_opaque_id ≡ entry_id
        → Tells a outcome
        → RecordsOnce session entry_id s (after, outcome)
    escaped :
        {after : State} {e : ClientError}
        → (e ≡ ClientError.http_error) ⊎ (e ≡ ClientError.other_error)
        → LeftOpen s.metrics after.metrics
        → after.attempts ≡ s.attempts
        → RecordsOnce session entry_id s (after, raise (TargetFailure.client_failed e))
    unrecorded :
        {after : State} {e : SessionError}
        → (session.library_entry ≡ raise e) ⊎ (session.flushed ≡ raise e)
        → Balanced s.metrics after.metrics
        → after.attempts ≡ s.attempts
        → RecordsOnce session entry_id s (after, raise (TargetFailure.session_failed e))

  module _ (session : Session) (entry_id : String) where
    attempted-RecordsOnce :
        (entry : Option SavedEntry) (status : String) (reason : Option String)
        → (outcome : Result TargetFailure String) (s after : State)
        → Balanced s.metrics after.metrics
        → after.attempts ≡ s.attempts
        → Tells
            (record {
              library_entry_id = entry_id_of entry;
              entry_opaque_id = entry_id;
              status = status;
              failure_reason = reason;
            })
            outcome
        → RecordsOnce session entry_id s
            (attempted u urlencode session entry_id entry status reason outcome after)
    unfolding attempted record_attempt
    attempted-RecordsOnce entry status reason outcome s after b same t =
        let a : PlaybackAttempt = record {
          library_entry_id = entry_id_of entry;
          entry_opaque_id = entry_id;
          status = status;
          failure_reason = reason;
        } in
        elim (Result-cases session.flushed) [
          | inl (e, p) ↦ rw (attempted, p) (RecordsOnce.unrecorded (inr refl) b same)
          | inr (_, p) ↦
              rw (attempted, p) (RecordsOnce.recorded a b (ap (λ xs. xs ++ (a ∷ [])) same) refl t)
        ]

    resolve_saved-RecordsOnce :
        (entry : SavedEntry) (f : TorBoxFile) (api_key base : String)
        → (client : Option TorBoxPlaybackClient) (s : State)
        → RecordsOnce session entry_id s
            (resolve_saved u urlencode session entry_id entry f api_key base client s)
    unfolding resolve_saved
    resolve_saved-RecordsOnce entry f api_key base client s =
        let found = playback_target u urlencode f entry.info_hash api_key base client s.metrics in
        let metered : (r : Result RecoveryFailure String)
            → found.1 ≡ r
            → Metered s.metrics (found.0, r) =
          λ r p.
            subst (λ z. Metered s.metrics (found.0, z)) p
              (playback_target-Metered f entry.info_hash api_key base client s.metrics) in
        elim (Result-cases found.1) [
          | inl (RecoveryFailure.recovery_error _, p) ↦
              rw (resolve_saved, p)
                (attempted-RecordsOnce (some entry) _ _ _ s _ (metered _ p) refl (refl, refl))
          | inl (RecoveryFailure.client_error (ClientError.api_error _), p) ↦
              rw (resolve_saved, p)
                (attempted-RecordsOnce (some entry) _ _ _ s _ (metered _ p) refl (refl, refl))
          | inl (RecoveryFailure.client_error ClientError.http_error, p) ↦
              rw (resolve_saved, p) (RecordsOnce.escaped (inl refl) (metered _ p) refl)
          | inl (RecoveryFailure.client_error ClientError.other_error, p) ↦
              rw (resolve_saved, p) (RecordsOnce.escaped (inr refl) (metered _ p) refl)
          | inr (url, p) ↦
              rw (resolve_saved, p)
                (attempted-RecordsOnce (some entry) _ _ _ s _ (metered _ p) refl (refl, refl))
        ]

    resolve_entry-RecordsOnce :
        (entry : Option SavedEntry) (api_key base : String)
        → (client : Option TorBoxPlaybackClient) (s : State)
        → RecordsOnce session entry_id s
            (resolve_entry u urlencode session entry_id entry api_key base client s)
    unfolding resolve_entry
    resolve_entry-RecordsOnce none api_key base client s =
        attempted-RecordsOnce none _ _ _ s s (omega arith, omega arith) refl (inl (refl, refl))
    resolve_entry-RecordsOnce (some entry) api_key base client s =
        elim (Option-cases (saved_torbox_file entry)) [
          | inl e ↦
              rw (resolve_entry, e)
                (attempted-RecordsOnce (some entry) _ _ _ s s (omega arith, omega arith) refl
                  (inr (refl, refl)))
          | inr (f, e) ↦
              rw (resolve_entry, e) (resolve_saved-RecordsOnce entry f api_key base client s)
        ]

    resolve_found :
        (entry : Option SavedEntry) (api_key base : String)
        → (client : Option TorBoxPlaybackClient) (s : State) → session.library_entry ≡ ok entry
        → resolve_torbox_target u urlencode session entry_id api_key base client s
          ≡ resolve_entry u urlencode session entry_id entry api_key base client s
    unfolding resolve_torbox_target
    resolve_found entry api_key base client s p = rw (resolve_torbox_target, p) refl

    -- A request records exactly one attempt, under its entry, which tells the outcome: a redirect,
    -- a recovery that failed, an unknown entry or an entry without a file of TorBox; and of the
    -- recoveries that the metrics count as begun, as many have succeeded or failed as before, and
    -- at most one more. Otherwise it records none: either the client raised another exception than
    -- an error of TorBox, which leaves at most one recovery open in the metrics, or the session
    -- failed to find the entry or to flush the attempt, and the metrics stay balanced.
    pub resolve-RecordsOnce :
        (api_key base : String) (client : Option TorBoxPlaybackClient) (s : State)
        → RecordsOnce session entry_id s
            (resolve_torbox_target u urlencode session entry_id api_key base client s)
    unfolding resolve_torbox_target
    resolve-RecordsOnce api_key base client s = elim (Result-cases session.library_entry) [
      | inl (e, p) ↦
          rw (resolve_torbox_target, p)
            (RecordsOnce.unrecorded (inl refl) (omega arith, omega arith) refl)
      | inr (entry, p) ↦
          subst (RecordsOnce session entry_id s) (sym (resolve_found entry api_key base client s p))
            (resolve_entry-RecordsOnce entry api_key base client s)
    ]
