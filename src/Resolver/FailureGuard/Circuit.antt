-- ===== src/Resolver/FailureGuard/Circuit.antt =====
-- The history of failures of each entry, and that the guard's states stand for it.
use mathlib.Core.Option
use strmline.Prelude.{
  ℕ, ◌≤◌, ◌≡◌, refl, sym, subst, String, List, [], ◌∷◌, ◌++◌, Option, Option-cases, none, some, ok,
  arith, Bool, false, string_eq, ◌==◌, if◌then◌else◌, eq_iff, Bool-cases, inl, inr, ◌⊎◌,
}
use strmline.Prelude.Dict.{lookup, erase, lookup-insert, lookup-erase}
use strmline.Prelude.Window.{Tracks, Tracks-nil, pop_stale-Tracks, snoc-Tracks, Tracks-later}
use strmline.Operations.Metrics.{OperationalMetrics}
use strmline.Resolver.FailureGuard.{
  FailureState, Config, ResolverFailureGuard, check, record_failure, record_success, clear,
  reconfigure, new_guard, prune_entry, add_failure, prune_failures, state_or_new,
}
use strmline.Resolver.FailureGuard.Bounded.{
  IsBounded, config-record_failure, new_guard-eq-ok, lookup-record_failure_self,
  lookup-record_failure_other, new_guard-IsBounded, reconfigure-IsBounded, clear-IsBounded,
  record_success-IsBounded, check-IsBounded, record_failure-IsBounded,
}

-- The failures of each entry since it was last forgotten: by a success, by a clear or a change of
-- the configuration, or by its eviction.
abbrev pub History : Type 0
History = String → List ℕ

abbrev pub failed : ℕ → String → ResolverFailureGuard → History → History
failed now k after history j = elim (lookup j after.failure_states) [
  | none ↦ []
  | some _ ↦ if j == k then history j ++ (now ∷ []) else history j
]

abbrev pub forgotten : String → History → History
forgotten k history j = if j == k then [] else history j

-- The guard after some calls of its methods, on a clock that never goes back.
pub data Reach : ResolverFailureGuard → History → ℕ → Type 0 where
  start :
      {g : ResolverFailureGuard} (config : Config) → new_guard config ≡ ok g → Reach g (λ _. []) 0
  checked :
      {g : ResolverFailureGuard} {history : History} {top : ℕ} (now : ℕ) (k : String)
      (m : OperationalMetrics)
      → top ≤ now
      → Reach g history top
      → Reach (check now k m g).guard history now
  failure :
      {g : ResolverFailureGuard} {history : History} {top : ℕ} (now : ℕ) (k : String)
      → top ≤ now
      → Reach g history top
      → Reach (record_failure now k g) (failed now k (record_failure now k g) history) now
  success :
      {g : ResolverFailureGuard} {history : History} {top : ℕ} (k : String)
      → Reach g history top
      → Reach (record_success k g) (forgotten k history) top
  cleared :
      {g : ResolverFailureGuard} {history : History} {top : ℕ}
      → Reach g history top
      → Reach (clear g) (λ _. []) top
  reconfigured :
      {g h : ResolverFailureGuard} {history : History} {top : ℕ} (config : Config)
      → reconfigure config g ≡ ok h
      → Reach g history top
      → Reach h (λ _. []) top

-- Whatever its methods were called with, the guard is bounded.
pub Reach-IsBounded :
    {g : ResolverFailureGuard} {history : History} {top : ℕ} → Reach g history top → IsBounded g
Reach-IsBounded (start {g} config e) = new_guard-IsBounded config g e
Reach-IsBounded (checked now k m h r) = check-IsBounded now k m _ (Reach-IsBounded r)
Reach-IsBounded (failure now k h r) = record_failure-IsBounded now k _ (Reach-IsBounded r)
Reach-IsBounded (success k r) = record_success-IsBounded k _ (Reach-IsBounded r)
Reach-IsBounded (cleared r) = clear-IsBounded _ (Reach-IsBounded r)
Reach-IsBounded (reconfigured config e r) = reconfigure-IsBounded config _ _ e

-- The state of an entry stands for its failures.
abbrev pub Remembers : ℕ → ℕ → List ℕ → Option FailureState → Type 0
Remembers w top history none = history ≡ []
Remembers w top history (some s) = Tracks w top history s.failures

abbrev pub Follows : ResolverFailureGuard → History → ℕ → Type 0
Follows g history top =
    (k : String) → Remembers g.config.circuit_window top (history k) (lookup k g.failure_states)

Remembers-later :
    (w top now : ℕ) (history : List ℕ) (o : Option FailureState)
    → top ≤ now
    → Remembers w top history o
    → Remembers w now history o
Remembers-later w top now history none h r = r
Remembers-later w top now history (some s) h r = Tracks-later w top history s.failures r now h

Remembers-prune :
    (config : Config) (top now : ℕ) (history : List ℕ) (o : Option FailureState)
    → top ≤ now
    → Remembers config.circuit_window top history o
    → Remembers config.circuit_window now history (Option.map (prune_failures config now) o)
unfolding prune_failures
Remembers-prune config top now history none h r = r
Remembers-prune config top now history (some s) h r =
    pop_stale-Tracks _ top history s.failures r now h

Remembers-add :
    (config : Config) (top now : ℕ) (history : List ℕ) (o : Option FailureState)
    → top ≤ now
    → Remembers config.circuit_window top history o
    → Tracks config.circuit_window now
        (history ++ (now ∷ []))
        (add_failure config now (state_or_new o)).failures
unfolding add_failure state_or_new
Remembers-add config top now history none h r =
    rw r (snoc-Tracks _ now [] [] (Tracks-nil _ now) now (omega arith))
Remembers-add config top now history (some s) h r =
    snoc-Tracks _ now history _ (pop_stale-Tracks _ top history s.failures r now h) now
      (omega arith)

config-prune_entry :
    (now : ℕ) (k : String) (g : ResolverFailureGuard) → (prune_entry now k g).config ≡ g.config
unfolding prune_entry
config-prune_entry now k g = ground arith

lookup-prune_entry :
    (now : ℕ) (k : String) (g : ResolverFailureGuard) (j : String)
    → (lookup j (prune_entry now k g).failure_states ≡ lookup j g.failure_states)
      ⊎ (lookup j (prune_entry now k g).failure_states
          ≡ Option.map (prune_failures g.config now) (lookup j g.failure_states))
unfolding prune_entry lookup
lookup-prune_entry now k g j = elim (Option-cases (lookup k g.failure_states)) [
  | inl e ↦ rw (e, prune_entry) (inl refl)
  | inr (s, e) ↦ rw (e, prune_entry) (simp lookup-insert (ground (arith, eq_iff j k)))
]

module _ (now : ℕ) (k : String) (m : OperationalMetrics) (g : ResolverFailureGuard) where
  config-check : (check now k m g).guard.config ≡ g.config
  unfolding check
  config-check =
      ground
        (arith, config-prune_entry now k (record g { negative_until = erase k g.negative_until }))

  -- A check prunes the state of its entry, or leaves it alone.
  lookup-check :
      (j : String)
      → (lookup j (check now k m g).guard.failure_states ≡ lookup j g.failure_states)
        ⊎ (lookup j (check now k m g).guard.failure_states
            ≡ Option.map (prune_failures g.config now) (lookup j g.failure_states))
  unfolding check
  lookup-check j = ground (
    arith,
    eq_iff j k,
    lookup-prune_entry now k (record g { negative_until = erase k g.negative_until }) j,
  )

emptied-Follows :
    (config : Config) (top : ℕ)
    → Follows (record { config = config; negative_until = []; failure_states = [] }) (λ _. []) top
unfolding lookup
emptied-Follows config top j = refl

check-Follows :
    (now : ℕ) (k : String) (m : OperationalMetrics) (g : ResolverFailureGuard) (history : History)
    (top : ℕ)
    → top ≤ now
    → Follows g history top
    → Follows (check now k m g).guard history now
check-Follows now k m g history top h f j =
    rw (config-check now k m g) (elim (lookup-check now k m g j) [
      | inl same ↦ rw same (Remembers-later _ top now (history j) _ h (f j))
      | inr pruned ↦ rw pruned (Remembers-prune g.config top now (history j) _ h (f j))
    ])

Remembers-kept :
    (w top : ℕ) (b : Bool) (history longer : List ℕ) (o : Option FailureState)
    → b ≡ false
    → Remembers w top history o
    → Remembers w top (elim o [ none ↦ [] | some _ ↦ if b then longer else history ]) o
Remembers-kept w top b history longer none e r = refl
Remembers-kept w top b history longer (some s) e r = rw e r

record_success-Follows :
    (k : String) (g : ResolverFailureGuard) (history : History) (top : ℕ)
    → Follows g history top
    → Follows (record_success k g) (forgotten k history) top
unfolding record_success
record_success-Follows k g history top f j = elim (Bool-cases (j == k)) [
  | inl self ↦ rw (lookup-erase j k g.failure_states, self)
  | inr other ↦ rw (lookup-erase j k g.failure_states, other) (f j)
]

record_failure-Follows :
    (now : ℕ) (k : String) (g : ResolverFailureGuard) (history : History) (top : ℕ)
    → IsBounded g
    → top ≤ now
    → Follows g history top
    → Follows (record_failure now k g) (failed now k (record_failure now k g) history) now
record_failure-Follows now k g history top b h f j =
    simp (config-record_failure now k g) (elim (Bool-cases (j == k)) [
      | inl self ↦
          let p = (eq_iff j k).0 self in
          subst
            (λ i.
              Remembers g.config.circuit_window now
                (failed now k (record_failure now k g) history i)
                (lookup i (record_failure now k g).failure_states))
            (sym p)
            (rw (lookup-record_failure_self now k g b, failed, (eq_iff k k).1 refl)
              (Remembers-add g.config top now (history k) _ h (f k)))
      | inr other ↦ elim (lookup-record_failure_other now k g j b other) [
        | inl evicted ↦ rw (evicted, failed) refl
        | inr kept ↦
            rw (kept, failed)
              (Remembers-kept _ now (j == k) (history j) _ _ other
                (Remembers-later _ top now _ _ h (f j)))
      ]
    ])

pub Reach-Follows :
    {g : ResolverFailureGuard} {history : History} {top : ℕ}
    → Reach g history top
    → Follows g history top
Reach-Follows (start {g} config e) =
    let (_, _, _, p) = new_guard-eq-ok config g e in rw p (emptied-Follows config 0)
Reach-Follows (checked now k m h r) = check-Follows now k m _ _ _ h (Reach-Follows r)
Reach-Follows (failure now k h r) =
    record_failure-Follows now k _ _ _ (Reach-IsBounded r) h (Reach-Follows r)
Reach-Follows (success k r) = record_success-Follows k _ _ _ (Reach-Follows r)
Reach-Follows (cleared {g} r) = unfold clear in emptied-Follows g.config _
Reach-Follows (reconfigured {h} config e r) =
    let (_, _, _, p) = new_guard-eq-ok config h (unfold new_guard reconfigure in e) in
    rw p (emptied-Follows config _)
