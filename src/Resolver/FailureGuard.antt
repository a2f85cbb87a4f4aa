-- ===== src/Resolver/FailureGuard.antt =====
-- api/app/resolver/failure_guard.py: `ResolverFailureGuard`, a negative cache and a circuit breaker
-- for each entry. Every method holds the lock, so it is one step; the clock's reading, in
-- nanoseconds, is an argument. The metrics that the object refers to are passed along.
pub mod Bounded
pub mod Circuit
pub mod Refusals
use strmline.Prelude.{
  ℕ, zero, suc, ◌+◌, ◌*◌, String, List, [], ◌∷◌, ◌++◌, Option, none, some, ltb, leb, nat_beq,
  length, if◌then◌else◌, ◌||◌, Bool, string_eq, Result, ok, raise, ValueError, value_error,
}
use strmline.Prelude.Dict.{Dict, lookup, insert, erase}
use strmline.Prelude.Window.{ticks_per_second, pop_stale}
use strmline.Operations.Metrics.{
  OperationalMetrics, resolver_negative_cache_hit, resolver_circuit_open_rejection,
}

-- `ResolverTemporarilyUnavailableError` with its message.
pub data Unavailable : Type 0 where
  temporarily_unavailable : String → Unavailable

-- A circuit that is closed is open until 0, which no reading of the clock comes before.
pub record FailureState : Type 0 where
  pub failures : List ℕ
  pub circuit_open_until : ℕ

abbrev pub no_failures : FailureState
no_failures = record { failures = []; circuit_open_until = 0 }

pub record Config : Type 0 where
  pub negative_cache : ℕ
  pub circuit_failures : ℕ
  pub circuit_window : ℕ
  pub circuit_cooldown : ℕ
  pub max_entries : ℕ

-- api/app/operations/defaults.py
abbrev pub default_config : Config
default_config = record {
  negative_cache = 30 * ticks_per_second;
  circuit_failures = 3;
  circuit_window = 120 * ticks_per_second;
  circuit_cooldown = 60 * ticks_per_second;
  max_entries = 2_048;
}

pub record ResolverFailureGuard : Type 0 where
  pub config : Config
  pub negative_until : Dict String ℕ
  pub failure_states : Dict String FailureState

unfoldable pub validate_config : Config → Result ValueError (Unit {0})
validate_config config =
    if nat_beq config.negative_cache 0 || nat_beq config.circuit_window 0
    then raise (value_error "Resolver failure guard durations must be positive.")
    else if nat_beq config.circuit_failures 0
        || nat_beq config.circuit_cooldown 0
        || nat_beq config.max_entries 0
    then raise (value_error "Resolver failure guard limits must be positive.")
    else ok tt

-- `__init__`, and `reconfigure`, which has the same effect on a guard that exists.
unfoldable pub new_guard : Config → Result ValueError ResolverFailureGuard
unfolding validate_config
new_guard config = elim (validate_config config) [
  | ok _ ↦ ok (record { config = config; negative_until = []; failure_states = [] })
  | raise e ↦ raise e
]

unfoldable pub reconfigure : Config → ResolverFailureGuard → Result ValueError ResolverFailureGuard
unfolding validate_config
reconfigure config g = elim (validate_config config) [
  | ok _ ↦ ok (record g { config = config; negative_until = []; failure_states = [] })
  | raise e ↦ raise e
]

unfoldable pub clear : ResolverFailureGuard → ResolverFailureGuard
clear g = record g { negative_until = []; failure_states = [] }

-- The cutoff test `t <= now - window` reads `t + window <= now`.
unfoldable pub prune_failures : Config → ℕ → FailureState → FailureState
unfolding pop_stale
prune_failures config now s = record {
  failures = pop_stale config.circuit_window now s.failures;
  circuit_open_until = if leb s.circuit_open_until now then 0 else s.circuit_open_until;
}

-- `state is not None and state.circuit_open_until > now`
unfoldable pub circuit_is_open : ℕ → Option FailureState → Bool
circuit_is_open now none = Bool.false
circuit_is_open now (some s) = ltb now s.circuit_open_until

-- `self._negative_until.get(entry_id, 0.0)`
unfoldable pub until_or_zero : Option ℕ → ℕ
until_or_zero none = 0
until_or_zero (some t) = t

-- The state object in the dict is pruned in place.
unfoldable pub prune_entry : ℕ → String → ResolverFailureGuard → ResolverFailureGuard
unfolding prune_failures lookup insert
prune_entry now entry_id g = elim (lookup entry_id g.failure_states) [
  | none ↦ g
  | some s ↦ record g {
    failure_states = insert entry_id (prune_failures g.config now s) g.failure_states;
  }
]

pub record Checked : Type 0 where
  pub guard : ResolverFailureGuard
  pub metrics : OperationalMetrics
  pub outcome : Result Unavailable (Unit {0})

unfoldable pub check : ℕ → String → OperationalMetrics → ResolverFailureGuard → Checked
unfolding circuit_is_open until_or_zero prune_entry erase
check now entry_id m g =
    if circuit_is_open now (lookup entry_id g.failure_states)
    then record {
      guard = g;
      metrics = resolver_circuit_open_rejection m;
      outcome = raise (
          temporarily_unavailable
            "Playback recovery is temporarily paused after repeated upstream failures.");
    }
    else if ltb now (until_or_zero (lookup entry_id g.negative_until))
    then record {
      guard = g;
      metrics = resolver_negative_cache_hit m;
      outcome = raise (temporarily_unavailable "Playback recovery recently failed; retry shortly.");
    }
    else record {
      guard =
          prune_entry now entry_id (record g { negative_until = erase entry_id g.negative_until });
      metrics = m;
      outcome = ok tt;
    }

-- `self._failure_states.setdefault(entry_id, _FailureState(deque()))`
unfoldable pub state_or_new : Option FailureState → FailureState
state_or_new none = no_failures
state_or_new (some s) = s

-- The failure is appended to the pruned state, and opens the circuit if it fills the quota.
unfoldable pub add_failure : Config → ℕ → FailureState → FailureState
unfolding prune_failures
add_failure config now s =
    let pruned = prune_failures config now s in
    let failures = pruned.failures ++ (now ∷ []) in
    record {
      failures = failures;
      circuit_open_until =
          if leb config.circuit_failures (length failures)
          then now + config.circuit_cooldown
          else pruned.circuit_open_until;
    }

-- `_evict_if_needed`: the oldest entries go, from both dicts.
unfoldable pub evict_if_needed :
    ℕ → Dict String FailureState → Dict String ℕ → Dict String FailureState × Dict String ℕ
unfolding erase
evict_if_needed bound [] negative = ([], negative)
evict_if_needed bound ((oldest, s) ∷ states) negative =
    if ltb bound (suc (length states))
    then evict_if_needed bound states (erase oldest negative)
    else ((oldest, s) ∷ states, negative)

unfoldable pub record_failure : ℕ → String → ResolverFailureGuard → ResolverFailureGuard
unfolding add_failure state_or_new evict_if_needed lookup insert
record_failure now entry_id g =
    let state = add_failure g.config now (state_or_new (lookup entry_id g.failure_states)) in
    let (states, negative) =
      evict_if_needed g.config.max_entries (insert entry_id state g.failure_states)
        (insert entry_id (now + g.config.negative_cache) g.negative_until) in
    record g { negative_until = negative; failure_states = states }

unfoldable pub record_success : String → ResolverFailureGuard → ResolverFailureGuard
unfolding erase
record_success entry_id g = record g {
  negative_until = erase entry_id g.negative_until;
  failure_states = erase entry_id g.failure_states;
}
