-- ===== src/Resolver/Play/Guarded.antt =====
-- What the playback endpoint lets through.
use strmline.Prelude.{
  ℕ, ◌≡◌, ◌≢◌, ◌↔◌, refl, subst, ◌⊎◌, String, Bool, true, false, none, some, string_eq, Result, ok,
  raise, arith,
}
use strmline.Operations.Metrics.{resolver_cache_miss}
use strmline.Resolver.TargetCache.{get_target}
use strmline.Resolver.FailureGuard.{check}
use strmline.Resolver.Play.{
  HttpException, Resolver, Upstream, target, no_api_key, lookup_error, recovery_error, torbox_error,
  os_error, http_error, sql_error, other_error, Request, respond, ask_upstream, token_matches,
  resolver_token_is_valid, check_resolver_guard, look_up, begin_play, forbidden,
}

-- Whether the request may have an answer.
abbrev pub Authorised : Request → Type 0
Authorised q =
    (token_matches q.token q.resolver_token ≡ ok true)
    ⊎ ((q.session ≡ true) × (q.database_token ≡ some true))

invalid-response :
    (now checked_at : ℕ) (q : Request) (r : Resolver) (v : Result HttpException Bool)
    → resolver_token_is_valid q ≡ v
    → v ≢ ok true
    → ((begin_play now checked_at q r).0 ≡ r)
      × ((e : HttpException) × ((begin_play now checked_at q r).1 ≡ respond (raise e)))
unfolding begin_play
invalid-response now checked_at q r (ok true) e h = absurd (h refl)
invalid-response now checked_at q r (ok false) e h = rw (begin_play, e) (refl, (forbidden, refl))
invalid-response now checked_at q r (raise x) e h = rw (begin_play, e) (refl, (x, refl))

valid-Authorised : (q : Request) → resolver_token_is_valid q ≡ ok true → Authorised q
unfolding resolver_token_is_valid
valid-Authorised q h = ground arith

-- A request whose token is neither the configured one nor one that the database accepts changes
-- nothing, does not reach the upstream, and gets an error.
pub unauthorised_refused :
    (now checked_at : ℕ) (q : Request) (r : Resolver)
    → ¬ Authorised q
    → ((begin_play now checked_at q r).0 ≡ r)
      × ((e : HttpException) × ((begin_play now checked_at q r).1 ≡ respond (raise e)))
unauthorised_refused now checked_at q r h =
    invalid-response now checked_at q r (resolver_token_is_valid q) refl
      (λ v. h (valid-Authorised q v))

-- An authorised request with a session looks the entry up.
begin_play-look_up :
    (now checked_at : ℕ) (q : Request) (r : Resolver)
    → resolver_token_is_valid q ≡ ok true
    → q.session ≡ true
    → begin_play now checked_at q r ≡ look_up now checked_at q.entry_id r
unfolding begin_play
begin_play-look_up now checked_at q r v h = rw (begin_play, v, h) refl

-- Where the upstream is not asked, whoever calls.
asks-look_up :
    (now checked_at : ℕ) (q : Request) (r : Resolver)
    → (begin_play now checked_at q r).1 ≡ ask_upstream
    → (resolver_token_is_valid q ≡ ok true) × (q.session ≡ true)
unfolding begin_play
asks-look_up now checked_at q r h = ground arith

look_up-asks :
    (now checked_at : ℕ) (k : String) (r : Resolver)
    → ((look_up now checked_at k r).1 ≡ ask_upstream) ↔ (
        ((get_target now k r.cache).1 ≡ none)
        × ((check checked_at k (resolver_cache_miss r.metrics) r.guard).outcome ≡ ok tt))
unfolding look_up check_resolver_guard
look_up-asks now checked_at k r = ground arith

-- A request reaches the upstream if and only if its token is valid, there is a database session,
-- the cache has no target for the entry, and the failure guard lets it pass.
pub asks_upstream_exact :
    (now checked_at : ℕ) (q : Request) (r : Resolver)
    → ((begin_play now checked_at q r).1 ≡ ask_upstream) ↔ (
        (resolver_token_is_valid q ≡ ok true)
        × (q.session ≡ true)
        × ((get_target now q.entry_id r.cache).1 ≡ none)
        × ((check checked_at q.entry_id (resolver_cache_miss r.metrics) r.guard).outcome ≡ ok tt))
asks_upstream_exact now checked_at q r = (
  λ h.
      let p = asks-look_up now checked_at q r h in
      let e = begin_play-look_up now checked_at q r p.0 p.1 in
      let l = (look_up-asks now checked_at q.entry_id r).0 (subst (λ z. z.1 ≡ ask_upstream) e h) in
      (p.0, p.1, l.0, l.1),
  λ p.
      rw (begin_play-look_up now checked_at q r p.0 p.1)
        ((look_up-asks now checked_at q.entry_id r).1 (p.2, p.3)),
)

-- The answers that the guard counts.
abbrev pub is_failure : Upstream → Bool
is_failure (target _) = false
is_failure no_api_key = false
is_failure lookup_error = false
is_failure (recovery_error _) = true
is_failure (torbox_error _) = true
is_failure os_error = true
is_failure http_error = true
is_failure sql_error = false
is_failure other_error = false
