-- ===== src/Resolver/FailureGuard/Refusals.antt =====
-- What a failure or a success does to the checks that follow it.
use strmline.Prelude.{
  ℕ, ◌+◌, ◌≤◌, ◌≡◌, ◌≢◌, refl, String, List, [], ◌∷◌, Option, none, some, length, Result, ok, raise,
  ltb, leb, arith, Bool, false, length-append, string_eq, ◌==◌, if◌then◌else◌, eq_iff, inl, inr,
  ◌⊎◌,
}
use strmline.Prelude.Dict.{lookup, lookup-erase}
use strmline.Prelude.Window.{in_window, pop_stale-eq-history}
use strmline.Operations.Metrics.{OperationalMetrics}
use strmline.Resolver.FailureGuard.{
  FailureState, Config, ResolverFailureGuard, Unavailable, temporarily_unavailable, check,
  record_failure, record_success, add_failure, state_or_new, until_or_zero,
}
use strmline.Resolver.FailureGuard.Bounded.{
  IsBounded, lookup-negative_until-record_failure, lookup-record_failure_self,
  lookup-record_failure_other,
}
use strmline.Resolver.FailureGuard.Circuit.{
  History, Reach, Reach-IsBounded, Remembers, Reach-Follows,
}

-- What `check` says, by the instants to which the entry is blocked.
abbrev pub verdict : ℕ → ℕ → ℕ → Result Unavailable (Unit {0})
verdict now circuit_until negative_until =
    if ltb now circuit_until
    then raise (
        temporarily_unavailable
          "Playback recovery is temporarily paused after repeated upstream failures.")
    else if ltb now negative_until
    then raise (temporarily_unavailable "Playback recovery recently failed; retry shortly.")
    else ok tt

abbrev pub open_until : Option FailureState → ℕ
open_until none = 0
open_until (some s) = s.circuit_open_until

pub outcome-check :
    (now : ℕ) (k : String) (m : OperationalMetrics) (g : ResolverFailureGuard)
    → (check now k m g).outcome
      ≡ verdict now
          (open_until (lookup k g.failure_states))
          (until_or_zero (lookup k g.negative_until))
unfolding check
outcome-check now k m g = ground arith

add_failure-open_until :
    (config : Config) (top now : ℕ) (history : List ℕ) (o : Option FailureState)
    → top ≤ now
    → Remembers config.circuit_window top history o
    → (add_failure config now (state_or_new o)).circuit_open_until ≡ (
        if leb config.circuit_failures (length (in_window config.circuit_window now history) + 1)
        then now + config.circuit_cooldown
        else if leb (open_until o) now
        then 0
        else open_until o)
unfolding add_failure state_or_new
add_failure-open_until config top now history none h r = rw r (ground arith)
add_failure-open_until config top now history (some s) h r = ground (
  arith,
  pop_stale-eq-history config.circuit_window top history s.failures r now h,
  length-append (in_window config.circuit_window now history) (now ∷ []),
)

pub negative_until_failed :
    (now : ℕ) (k : String) (g : ResolverFailureGuard)
    → IsBounded g
    → until_or_zero (lookup k (record_failure now k g).negative_until)
      ≡ now + g.config.negative_cache
unfolding until_or_zero
negative_until_failed now k g b = ground (
  arith,
  lookup-record_failure_self now k g b,
  lookup-negative_until-record_failure now k g k b,
  (eq_iff k k).1 refl,
)

-- A circuit that was open until an instant that has passed does not matter any more.
verdict-later :
    (quota : Bool) (opened until_then now later negative : ℕ)
    → now ≤ later
    → verdict later
        (if quota then opened else if leb until_then now then 0 else until_then)
        negative
      ≡ verdict later (if quota then opened else until_then) negative
verdict-later quota opened until_then now later negative h = ground arith

-- After a failure at `now`, a later check of the entry is refused exactly as follows. The circuit is open
-- until `now + cooldown` if the failures of the window that ends at `now`, this one included,
-- reach the configured number, and until the instant that was set before if not. Otherwise the
-- negative cache refuses until `now + negative_cache`.
pub check_after_failure :
    {g : ResolverFailureGuard} {history : History} {top : ℕ} (now later : ℕ) (k : String)
    (m : OperationalMetrics)
    → Reach g history top
    → top ≤ now
    → now ≤ later
    → (check later k m (record_failure now k g)).outcome
      ≡ verdict later
          (if leb g.config.circuit_failures
              (length (in_window g.config.circuit_window now (history k)) + 1)
            then now + g.config.circuit_cooldown
            else open_until (lookup k g.failure_states))
          (now + g.config.negative_cache)
check_after_failure {g} {history} {top} now later k m r h h' =
    rw
      (
        outcome-check later k m (record_failure now k g),
        lookup-record_failure_self now k g b,
        add_failure-open_until g.config top now (history k) (lookup k g.failure_states) h
            (Reach-Follows r k),
        negative_until_failed now k g b,
      )
      (verdict-later
        (leb g.config.circuit_failures
          (length (in_window g.config.circuit_window now (history k)) + 1))
        (now + g.config.circuit_cooldown) (open_until (lookup k g.failure_states)) now later
        (now + g.config.negative_cache) h')
  where
    b : IsBounded g
    b = Reach-IsBounded r

verdict-zero : (now : ℕ) → verdict now 0 0 ≡ ok tt
verdict-zero now = ground arith

lookup-negative_until-kept :
    (now : ℕ) (j k : String) (g : ResolverFailureGuard)
    → IsBounded g
    → (j == k) ≡ false
    → lookup j (record_failure now k g).failure_states ≡ lookup j g.failure_states
    → lookup j (record_failure now k g).negative_until ≡ lookup j g.negative_until
lookup-negative_until-kept now j k g b other kept =
    ground (arith, lookup-negative_until-record_failure now k g j b, b.covered j)

-- A failure of one entry leaves what is said of another as it was, unless it evicts the other,
-- which then passes.
pub check_other_after_failure :
    {g : ResolverFailureGuard} {history : History} {top : ℕ} (now later : ℕ) (j k : String)
    (m : OperationalMetrics)
    → Reach g history top
    → j ≢ k
    → ((check later j m (record_failure now k g)).outcome ≡ (check later j m g).outcome)
      ⊎ ((lookup j (record_failure now k g).failure_states ≡ none)
          × ((check later j m (record_failure now k g)).outcome ≡ ok tt))
check_other_after_failure {g} now later j k m r differ =
    elim (lookup-record_failure_other now k g j b other) [
      | inl evicted ↦ inr (
        evicted,
        rw
            (
              outcome-check later j m (record_failure now k g),
              evicted,
              lookup-negative_until-record_failure now k g j b,
              evicted,
            )
            (unfold until_or_zero in verdict-zero later),
      )
      | inr kept ↦ inl (
          rw (
            outcome-check later j m (record_failure now k g),
            outcome-check later j m g,
            kept,
            lookup-negative_until-kept now j k g b other kept,
          ))
    ]
  where
    b : IsBounded g
    b = Reach-IsBounded r

    other : (j == k) ≡ false
    other = ground (arith, eq_iff j k)

-- After a success nothing is held against the entry, at any time.
pub check_after_success :
    (now : ℕ) (k : String) (m : OperationalMetrics) (g : ResolverFailureGuard)
    → (check now k m (record_success k g)).outcome ≡ ok tt
unfolding record_success until_or_zero
check_after_success now k m g = ground (
  arith,
  outcome-check now k m (record_success k g),
  lookup-erase k k g.failure_states,
  lookup-erase k k g.negative_until,
  (eq_iff k k).1 refl,
)
