-- ===== src/Resolver/FailureGuard/Bounded.antt =====
-- api/app/resolver/failure_guard.py: the sizes of the two dicts and `max_entries`.
use strmline.Prelude.{
  ℕ, suc, ◌+◌, ◌≤◌, ◌<◌, ◌≡◌, String, [], ◌∷◌, Option-cases, none, some, length, ok, ltb, arith,
  string_eq, ◌==◌, if◌then◌else◌, eq_iff, Bool-cases, inl, inr, refl, false, ◌⊎◌,
}
use strmline.Prelude.Dict.{
  Dict, lookup, insert, erase, trim, NodupKeys, lookup-insert, lookup-erase, length-insert,
  length-trim-le, trim-NodupKeys, insert-NodupKeys, erase-NodupKeys, lookup-trim-none,
  length-le_of_subset, length-erase-le, lookup-trim-insert_self, lookup-trim-cases,
}
use strmline.Operations.Metrics.{OperationalMetrics}
use strmline.Resolver.FailureGuard.{
  FailureState, Config, ResolverFailureGuard, evict_if_needed, check, record_failure,
  record_success, clear, reconfigure, new_guard, prune_entry, add_failure, state_or_new,
  circuit_is_open, until_or_zero,
}

evict_if_needed-eq-trim :
    (bound : ℕ) (states : Dict String FailureState) (negative : Dict String ℕ)
    → (evict_if_needed bound states negative).0 ≡ trim bound states
unfolding evict_if_needed trim
evict_if_needed-eq-trim bound [] negative = ground arith
evict_if_needed-eq-trim bound ((k, s) ∷ d) negative =
    ground (arith, evict_if_needed-eq-trim bound d (erase k negative))

-- What is left of the other dict: the keys that were evicted are gone, the rest is as before.
pub lookup-evict_if_needed :
    (j : String) (bound : ℕ) (states : Dict String FailureState) (negative : Dict String ℕ)
    → NodupKeys states
    → lookup j (evict_if_needed bound states negative).1 ≡ elim (lookup j states) [
      | none ↦ lookup j negative
      | some _ ↦ elim (lookup j (trim bound states)) [ none ↦ none | some _ ↦ lookup j negative ]
    ]
unfolding evict_if_needed trim lookup
lookup-evict_if_needed j bound [] negative u = refl
lookup-evict_if_needed j bound ((k, s) ∷ d) negative (fresh, u) = ground (
  arith,
  lookup-evict_if_needed j bound d (erase k negative) u,
  lookup-erase j k negative,
  lookup-trim-none bound k d,
  eq_iff j k,
)

evict_if_needed-NodupKeys :
    (bound : ℕ) (states : Dict String FailureState) (negative : Dict String ℕ)
    → NodupKeys negative
    → NodupKeys (evict_if_needed bound states negative).1
unfolding evict_if_needed
evict_if_needed-NodupKeys bound [] negative u = u
evict_if_needed-NodupKeys bound ((k, s) ∷ d) negative u =
    elim (Bool-cases (ltb bound (suc (length d)))) [
      | inl over ↦
          rw over
            (evict_if_needed-NodupKeys bound d (erase k negative) (erase-NodupKeys k negative u))
      | inr fits ↦ rw fits u
    ]

-- Each key stands once in each dict, a key of the negative cache has a failure state, and the
-- failure states are within the limit.
pub record IsBounded (g : ResolverFailureGuard) : Type 0 where
  pub positive : 0 < g.config.max_entries
  pub states_once : NodupKeys g.failure_states
  pub negative_once : NodupKeys g.negative_until
  pub covered : (k : String) → lookup k g.failure_states ≡ none → lookup k g.negative_until ≡ none
  pub limited : length g.failure_states ≤ g.config.max_entries

-- The negative cache is within the limit too.
pub negative_until_limited :
    (g : ResolverFailureGuard) → IsBounded g → length g.negative_until ≤ g.config.max_entries
negative_until_limited g b = omega (
  arith,
  b.limited,
  length-le_of_subset g.negative_until g.failure_states b.negative_once b.covered,
)

emptied-IsBounded :
    (config : Config)
    → 0 < config.max_entries
    → IsBounded (record { config = config; negative_until = []; failure_states = [] })
unfolding lookup
emptied-IsBounded config h = record {
  positive = h;
  states_once = tt;
  negative_once = tt;
  covered = λ k e. refl;
  limited = omega arith;
}

pub new_guard-eq-ok :
    (config : Config) (g : ResolverFailureGuard)
    → new_guard config ≡ ok g
    → (0 < config.max_entries)
      × (0 < config.negative_cache)
      × (0 < config.circuit_failures)
      × (g ≡ record { config = config; negative_until = []; failure_states = [] })
unfolding new_guard
new_guard-eq-ok config g e = ground arith

pub new_guard-IsBounded :
    (config : Config) (g : ResolverFailureGuard) → new_guard config ≡ ok g → IsBounded g
new_guard-IsBounded config g e =
    let (positive, _, _, p) = new_guard-eq-ok config g e in rw p (emptied-IsBounded config positive)

pub reconfigure-IsBounded :
    (config : Config) (g h : ResolverFailureGuard) → reconfigure config g ≡ ok h → IsBounded h
unfolding reconfigure
reconfigure-IsBounded config g h e = new_guard-IsBounded config h (unfold new_guard in e)

pub clear-IsBounded : (g : ResolverFailureGuard) → IsBounded g → IsBounded (clear g)
unfolding clear
clear-IsBounded g b = emptied-IsBounded g.config b.positive

pub record_success-IsBounded :
    (k : String) (g : ResolverFailureGuard) → IsBounded g → IsBounded (record_success k g)
unfolding record_success
record_success-IsBounded k g b = record {
  positive = b.positive;
  states_once = erase-NodupKeys k g.failure_states b.states_once;
  negative_once = erase-NodupKeys k g.negative_until b.negative_once;
  covered = λ j. simp lookup-erase (ground (arith, b.covered j));
  limited = omega (arith, b.limited, length-erase-le k g.failure_states);
}

prune_entry-IsBounded :
    (now : ℕ) (k : String) (g : ResolverFailureGuard)
    → IsBounded g
    → IsBounded (prune_entry now k g)
unfolding prune_entry
prune_entry-IsBounded now k g b = elim (Option-cases (lookup k g.failure_states)) [
  | inl e ↦ rw (e, prune_entry) b
  | inr (s, e) ↦
      rw (e, prune_entry)
        (record {
          positive = b.positive;
          states_once = insert-NodupKeys k _ g.failure_states b.states_once;
          negative_once = b.negative_once;
          covered = λ j. rw lookup-insert (ground (arith, b.covered j));
          limited = rw (length-insert, e) b.limited;
        })
]

forget_negative-IsBounded :
    (k : String) (g : ResolverFailureGuard)
    → IsBounded g
    → IsBounded (record g { negative_until = erase k g.negative_until })
forget_negative-IsBounded k g b = record {
  positive = b.positive;
  states_once = b.states_once;
  negative_once = erase-NodupKeys k g.negative_until b.negative_once;
  covered = λ j. rw lookup-erase (ground (arith, b.covered j));
  limited = b.limited;
}

pub check-IsBounded :
    (now : ℕ) (k : String) (m : OperationalMetrics) (g : ResolverFailureGuard)
    → IsBounded g
    → IsBounded (check now k m g).guard
unfolding check
check-IsBounded now k m g b = elim (Bool-cases (circuit_is_open now (lookup k g.failure_states))) [
  | inl open_circuit ↦ rw open_circuit b
  | inr closed ↦ elim (Bool-cases (ltb now (until_or_zero (lookup k g.negative_until)))) [
    | inl negative ↦ rw (closed, negative) b
    | inr passed ↦
        rw (closed, passed) (prune_entry-IsBounded now k _ (forget_negative-IsBounded k g b))
  ]
]

module _ (now : ℕ) (k : String) (g : ResolverFailureGuard) where
  -- The state that a failure leaves for its entry, before the eviction.
  abbrev pub failed_state : FailureState
  failed_state = add_failure g.config now (state_or_new (lookup k g.failure_states))

  abbrev failed_states : Dict String FailureState
  failed_states = insert k failed_state g.failure_states

  abbrev failed_negative : Dict String ℕ
  failed_negative = insert k (now + g.config.negative_cache) g.negative_until

  pub config-record_failure : (record_failure now k g).config ≡ g.config
  unfolding record_failure
  config-record_failure = refl

  pub failure_states-record_failure :
      (record_failure now k g).failure_states ≡ trim g.config.max_entries failed_states
  unfolding record_failure
  failure_states-record_failure = evict_if_needed-eq-trim _ _ _

  negative_until-NodupKeys : IsBounded g → NodupKeys (record_failure now k g).negative_until
  unfolding record_failure
  negative_until-NodupKeys b =
      evict_if_needed-NodupKeys g.config.max_entries failed_states failed_negative
        (insert-NodupKeys k _ g.negative_until b.negative_once)

  pub lookup-negative_until-record_failure :
      (j : String)
      → IsBounded g
      → lookup j (record_failure now k g).negative_until
        ≡ elim (lookup j (record_failure now k g).failure_states) [
          | none ↦ none
          | some _ ↦
              if j == k then some (now + g.config.negative_cache) else lookup j g.negative_until
        ]
  unfolding record_failure
  lookup-negative_until-record_failure j b = ground (
    arith,
    lookup-evict_if_needed j g.config.max_entries failed_states failed_negative
        (insert-NodupKeys k failed_state g.failure_states b.states_once),
    evict_if_needed-eq-trim g.config.max_entries failed_states failed_negative,
    lookup-insert j k failed_state g.failure_states,
    lookup-insert j k (now + g.config.negative_cache) g.negative_until,
    lookup-trim-none g.config.max_entries j failed_states,
    b.covered j,
  )

  pub record_failure-IsBounded : IsBounded g → IsBounded (record_failure now k g)
  record_failure-IsBounded b = record {
    positive = rw config-record_failure b.positive;
    states_once =
        rw failure_states-record_failure
          (trim-NodupKeys _ _ (insert-NodupKeys k _ g.failure_states b.states_once));
    negative_once = negative_until-NodupKeys b;
    covered = λ j e. rw (lookup-negative_until-record_failure j b, e);
    limited =
        rw (failure_states-record_failure, config-record_failure)
          (length-trim-le g.config.max_entries failed_states);
  }

  -- The entry that fails is never the one that is evicted.
  pub lookup-record_failure_self :
      IsBounded g → lookup k (record_failure now k g).failure_states ≡ some failed_state
  lookup-record_failure_self b = rw failure_states-record_failure (
      lookup-trim-insert_self g.config.max_entries k failed_state g.failure_states b.positive
        b.limited)

  -- Another entry keeps its state, or is evicted.
  pub lookup-record_failure_other :
      (j : String)
      → IsBounded g
      → (j == k) ≡ false
      → (lookup j (record_failure now k g).failure_states ≡ none)
        ⊎ (lookup j (record_failure now k g).failure_states ≡ lookup j g.failure_states)
  lookup-record_failure_other j b other = rw failure_states-record_failure (
      ground (
        arith,
        lookup-insert j k failed_state g.failure_states,
        lookup-trim-cases g.config.max_entries j failed_states
            (insert-NodupKeys k failed_state g.failure_states b.states_once),
      ))
