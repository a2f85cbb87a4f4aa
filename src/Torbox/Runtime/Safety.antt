-- ===== src/Torbox/Runtime/Safety.antt =====
-- api/app/providers/torbox/runtime.py: the calls that `_reserve_or_wait` admits, in any order in
-- which tasks ask, wait and change the budget.
use strmline.Prelude.{
  ℕ, ◌+◌, ◌≤◌, ◌<◌, ◌≡◌, ◌↔◌, ◌∙◌, ltb→lt, ◌&&◌, List, [], ◌∷◌, ◌++◌, Option, none, some, ok, leb,
  ltb, length, length-append, keep, keep-append, Bool-cases, inl, inr, arith,
}
use strmline.Prelude.Window.{
  Tracks, Tracks-nil, in_window, pop_stale, pop_stale-eq-history, pop_stale-Tracks, snoc-Tracks,
}
use strmline.Operations.Metrics.{OperationalMetrics}
use strmline.Torbox.Runtime.{
  TorBoxRequestCoordinator, rate_window, new_coordinator, reconfigure, reserve_or_wait,
}

-- The history of admissions after a round at `now`.
abbrev pub admission : ℕ → Option ℕ → List ℕ → List ℕ
admission now none history = history ++ (now ∷ [])
admission now (some wait) history = history

-- The coordinator after some rounds of its callers, on a clock that never goes back, and after
-- some changes of a budget that stays within `bound`; the times of all admissions; the last
-- reading of the clock.
pub data Reach (bound : ℕ) : TorBoxRequestCoordinator → List ℕ → ℕ → Type 0 where
  start :
      {c : TorBoxRequestCoordinator} (budget : ℕ) (metrics : OperationalMetrics)
      → budget ≤ bound
      → new_coordinator budget metrics ≡ ok c
      → Reach bound c [] 0
  round :
      {c : TorBoxRequestCoordinator} {history : List ℕ} {top : ℕ} (now : ℕ)
      → top ≤ now
      → Reach bound c history top
      → Reach bound (reserve_or_wait now c).0 (admission now (reserve_or_wait now c).1 history) now
  change :
      {c d : TorBoxRequestCoordinator} {history : List ℕ} {top : ℕ} (budget : ℕ)
      → budget ≤ bound
      → reconfigure budget c ≡ ok d
      → Reach bound c history top
      → Reach bound d history top

-- The calls admitted in the minute that ends at an instant.
abbrev pub admitted_in_minute : ℕ → List ℕ → ℕ
admitted_in_minute instant history =
    length (keep (λ t. leb t instant && ltb instant (t + rate_window)) history)

record Inv (bound : ℕ) (c : TorBoxRequestCoordinator) (history : List ℕ) (top : ℕ) : Type 0 where
  within : c.requests_per_minute ≤ bound
  positive : 0 < c.requests_per_minute
  tracks : Tracks rate_window top history c.admitted_calls
  limited : (instant : ℕ) → admitted_in_minute instant history ≤ bound

-- What is counted at an instant that is not before `now` lies in the window at `now`.
admitted_in_minute-le :
    (instant now : ℕ) (history : List ℕ)
    → now ≤ instant
    → admitted_in_minute instant history ≤ length (in_window rate_window now history)
admitted_in_minute-le instant now [] h = omega arith
admitted_in_minute-le instant now (t ∷ ts) h =
    ground (arith, admitted_in_minute-le instant now ts h)

-- What is admitted later is not counted.
admitted_in_minute-snoc :
    (instant now : ℕ) (history : List ℕ)
    → instant < now
    → admitted_in_minute instant (history ++ (now ∷ [])) ≡ admitted_in_minute instant history
admitted_in_minute-snoc instant now [] h = ground arith
admitted_in_minute-snoc instant now (t ∷ ts) h =
    ground (arith, admitted_in_minute-snoc instant now ts h)

length-in_window-snoc :
    (now : ℕ) (history : List ℕ)
    → length (in_window rate_window now (history ++ (now ∷ [])))
      ≡ length (in_window rate_window now history) + 1
length-in_window-snoc now history =
    rw (keep-append (λ t. ltb now (t + rate_window)) history (now ∷ []))
      (length-append (in_window rate_window now history) _ ∙ ground arith)

limited-admitted :
    (bound now : ℕ) (history : List ℕ)
    → length (in_window rate_window now history) < bound
    → ((instant : ℕ) → admitted_in_minute instant history ≤ bound)
    → (instant : ℕ) → admitted_in_minute instant (history ++ (now ∷ [])) ≤ bound
limited-admitted bound now history room old instant = elim (Bool-cases (ltb instant now)) [
  | inl before ↦ rw (admitted_in_minute-snoc instant now history (ltb→lt _ _ before)) (old instant)
  | inr after ↦ omega (
    arith,
    admitted_in_minute-le instant now (history ++ (now ∷ [])) (ground arith),
    length-in_window-snoc now history,
  )
]

round-Inv :
    {bound : ℕ} {c : TorBoxRequestCoordinator} {history : List ℕ} {top : ℕ} (now : ℕ)
    → top ≤ now
    → Inv bound c history top
    → Inv bound (reserve_or_wait now c).0 (admission now (reserve_or_wait now c).1 history) now
unfolding reserve_or_wait
round-Inv {bound} {c} {history} {top} now h inv =
    let seen = pop_stale-eq-history rate_window top history c.admitted_calls inv.tracks now h in
    elim (Bool-cases
      (ltb (length (pop_stale rate_window now c.admitted_calls)) c.requests_per_minute)) [
        | inl room ↦ rw room (record {
          within = inv.within;
          positive = inv.positive;
          tracks =
              snoc-Tracks _ _ _ _ (pop_stale-Tracks _ _ _ _ inv.tracks now h) now (omega arith);
          limited = limited-admitted bound now history (ground (arith, seen)) inv.limited;
        })
        | inr full ↦ rw full (record {
          within = inv.within;
          positive = inv.positive;
          tracks = pop_stale-Tracks _ _ _ _ inv.tracks now h;
          limited = inv.limited;
        })
      ]

new_coordinator-eq-ok :
    (budget : ℕ) (metrics : OperationalMetrics) (c : TorBoxRequestCoordinator)
    → new_coordinator budget metrics ≡ ok c
    → (c.requests_per_minute ≡ budget) × (0 < budget) × (c.admitted_calls ≡ [])
unfolding new_coordinator
new_coordinator-eq-ok budget metrics c e = ground arith

reconfigure-eq-ok :
    (budget : ℕ) (c d : TorBoxRequestCoordinator)
    → reconfigure budget c ≡ ok d
    → (d.requests_per_minute ≡ budget) × (0 < budget) × (d.admitted_calls ≡ c.admitted_calls)
unfolding reconfigure
reconfigure-eq-ok budget c d e = ground arith

Reach-Inv :
    {bound : ℕ} {c : TorBoxRequestCoordinator} {history : List ℕ} {top : ℕ}
    → Reach bound c history top
    → Inv bound c history top
Reach-Inv (start {c} budget metrics h e) =
    let (size, pos, none_yet) = new_coordinator-eq-ok budget metrics c e in
    record {
      within = omega arith;
      positive = omega arith;
      tracks = rw none_yet (Tracks-nil rate_window 0);
      limited = λ instant. omega arith;
    }
Reach-Inv (round now h r) = round-Inv now h (Reach-Inv r)
Reach-Inv (change {c} {d} budget h e r) =
    let (size, pos, kept) = reconfigure-eq-ok budget c d e in
    record {
      within = omega arith;
      positive = omega arith;
      tracks = rw kept (Reach-Inv r).tracks;
      limited = (Reach-Inv r).limited;
    }

-- At every instant, at most `bound` calls were admitted in the 60 seconds that end there, where
-- every budget that was ever configured is at most `bound`.
pub rate_limit :
    {bound : ℕ} {c : TorBoxRequestCoordinator} {history : List ℕ} {top : ℕ}
    → Reach bound c history top
    → (instant : ℕ) → admitted_in_minute instant history ≤ bound
rate_limit r = (Reach-Inv r).limited

-- A round admits the call exactly if fewer calls than the budget were admitted in the window.
pub reserve_or_wait_exact :
    {bound : ℕ} {c : TorBoxRequestCoordinator} {history : List ℕ} {top : ℕ} (now : ℕ)
    → Reach bound c history top
    → top ≤ now
    → ((reserve_or_wait now c).1 ≡ none)
      ↔ (length (in_window rate_window now history) < c.requests_per_minute)
unfolding reserve_or_wait
reserve_or_wait_exact {c} {history} {top} now r h = ground (
  arith,
  pop_stale-eq-history rate_window top history c.admitted_calls (Reach-Inv r).tracks now h,
)
