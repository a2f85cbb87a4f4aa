-- ===== src/Torbox/Runtime/Progress.antt =====
-- api/app/providers/torbox/runtime.py: the loop of `acquire` for one caller, when no other asks.
use strmline.Prelude.{
  ℕ, zero, suc, ◌+◌, ◌-◌, ◌≤◌, ◌<◌, ◌≡◌, ◌∙◌, sym, ap, Option-cases, none, some, List, [], ◌∷◌,
  ◌++◌, length, length-append, inl, inr, arith,
}
use strmline.Prelude.Window.{Ascending, pop_stale-Ascending, pop_stale, length-pop_stale-le}
use strmline.Operations.Metrics.{torbox_queue_entered}
use strmline.Operations.Metrics.Calls.{queue_balanced}
use strmline.Torbox.Runtime.{
  TorBoxRequestCoordinator, rate_window, reserve_or_wait, left_queue, wait_for, acquire_loop,
  acquire,
}

-- What stands first after the pops has not left the window.
pop_stale-fresh :
    (w now : ℕ) (ts : List ℕ) (t : ℕ) (rest : List ℕ) → pop_stale w now ts ≡ t ∷ rest → now < t + w
unfolding pop_stale
pop_stale-fresh w now [] t rest e = cc
pop_stale-fresh w now (s ∷ ts) t rest e = ground (arith, pop_stale-fresh w now ts t rest)

wait_for-bounds :
    (now : ℕ) (calls ts : List ℕ)
    → Ascending now calls
    → pop_stale rate_window now calls ≡ ts
    → 0 < length ts
    → (0 < wait_for now ts) × (wait_for now ts ≤ rate_window)
unfolding wait_for
wait_for-bounds now calls [] asc e h = absurd (omega arith)
wait_for-bounds now calls (t ∷ ts) asc e h =
    let below : Ascending now (t ∷ ts) =
      rw e at (pop_stale-Ascending rate_window now now calls asc) in
    let fresh = pop_stale-fresh rate_window now calls t ts e in omega arith

length-waited :
    (now late : ℕ) (ts : List ℕ)
    → 0 < length ts
    → length (pop_stale rate_window (now + wait_for now ts + late) ts) < length ts
unfolding wait_for pop_stale
length-waited now late [] h = absurd (omega arith)
length-waited now late (t ∷ ts) h =
    ground (arith, length-pop_stale-le rate_window (now + (t + rate_window - now) + late) ts)

-- What a round that asks for a wait leaves behind.
record Waits (now wait : ℕ) (c d : TorBoxRequestCoordinator) : Type 0 where
  calls : d.admitted_calls ≡ pop_stale rate_window now c.admitted_calls
  budget : d.requests_per_minute ≡ c.requests_per_minute
  metrics : d.metrics ≡ c.metrics
  full : c.requests_per_minute ≤ length d.admitted_calls
  asked : wait ≡ wait_for now d.admitted_calls

reserve_or_wait-Waits :
    (now wait : ℕ) (c : TorBoxRequestCoordinator)
    → (reserve_or_wait now c).1 ≡ some wait
    → Waits now wait c (reserve_or_wait now c).0
unfolding reserve_or_wait
reserve_or_wait-Waits now wait c h = ground arith

-- A call that is told to wait at `now` waits a positive time, and no longer than a minute.
pub wait_bounds :
    (now : ℕ) (c : TorBoxRequestCoordinator) {wait : ℕ}
    → Ascending now c.admitted_calls
    → 0 < c.requests_per_minute
    → (reserve_or_wait now c).1 ≡ some wait
    → (0 < wait) × (wait ≤ rate_window)
wait_bounds now c {wait} asc pos h =
    let w = reserve_or_wait-Waits now wait c h in
    let b = wait_for-bounds now c.admitted_calls _ asc (sym w.calls) (omega (arith, w.full)) in
    rw (w.asked) b

-- What an admission leaves behind.
pub record Admitted (time : ℕ) (c d : TorBoxRequestCoordinator) : Type 0 where
  pub calls : List ℕ
  pub last : d.admitted_calls ≡ calls ++ (time ∷ [])
  pub within : length d.admitted_calls ≤ d.requests_per_minute
  pub budget : d.requests_per_minute ≡ c.requests_per_minute
  pub metrics : d.metrics ≡ c.metrics

reserve_or_wait-Admitted :
    (now : ℕ) (c : TorBoxRequestCoordinator)
    → (reserve_or_wait now c).1 ≡ none
    → Admitted now c (reserve_or_wait now c).0
unfolding reserve_or_wait
reserve_or_wait-Admitted now c h = record {
  calls = pop_stale rate_window now c.admitted_calls;
  last = ground arith;
  within = ground (arith, length-append (pop_stale rate_window now c.admitted_calls) (now ∷ []));
  budget = ground arith;
  metrics = ground arith;
}

acquire_loop_total :
    (fuel : ℕ) (late : ℕ → ℕ) (now : ℕ) (c : TorBoxRequestCoordinator)
    → 0 < c.requests_per_minute
    → length (pop_stale rate_window now c.admitted_calls) < fuel
    → (time : ℕ) × (d : TorBoxRequestCoordinator) × (acquire_loop fuel late now c ≡ some (time, d))
      × (now ≤ time)
      × Admitted time c d
unfolding acquire_loop
acquire_loop_total zero late now c pos h = absurd (omega arith)
acquire_loop_total (suc fuel) late now c pos h = elim (Option-cases (reserve_or_wait now c).1) [
  | inl e ↦ (
    now,
    (reserve_or_wait now c).0,
    rw (e, acquire_loop),
    omega arith,
    reserve_or_wait-Admitted now c e,
  )
  | inr (wait, e) ↦
      let d = (reserve_or_wait now c).0 in
      let w = reserve_or_wait-Waits now wait c e in
      let later = now + wait + late fuel in
      let gone = length-waited now (late fuel) d.admitted_calls (omega (arith, w.full)) in
      let shorter : length (pop_stale rate_window later d.admitted_calls)
          < length d.admitted_calls =
        rw (w.asked) gone in
      let (time, final, runs, after, a) =
        acquire_loop_total fuel late later d (omega (arith, w.budget))
          (omega (arith, ap length w.calls)) in
      (
        time,
        final,
        rw (e, acquire_loop) runs,
        omega arith,
        record {
          calls = a.calls;
          last = a.last;
          within = a.within;
          budget = a.budget ∙ w.budget;
          metrics = a.metrics ∙ w.metrics;
        },
      )
]

-- With a budget of at least one call, and with no other task that asks in between, `acquire`
-- returns, however late the sleeps end: one round more than the calls in the deque is enough. The
-- call is recorded last, at a time that is not before `now`, the deque is within the budget, and
-- the metrics, with their queue depth, are what they were.
pub acquire_total :
    (fuel : ℕ) (late : ℕ → ℕ) (now : ℕ) (c : TorBoxRequestCoordinator)
    → 0 < c.requests_per_minute
    → length c.admitted_calls < fuel
    → (time : ℕ) × (d : TorBoxRequestCoordinator) × (acquire fuel late now c ≡ some (time, d))
      × (now ≤ time)
      × Admitted time c d
unfolding acquire
acquire_total fuel late now c pos h =
    let entered = record c { metrics = torbox_queue_entered c.metrics } in
    let (time, d, runs, after, a) =
      acquire_loop_total fuel late now entered pos
        (omega (arith, length-pop_stale-le rate_window now c.admitted_calls)) in
    (
      time,
      (left_queue (time, d)).1,
      rw runs,
      after,
      record {
        calls = a.calls;
        last = a.last;
        within = a.within;
        budget = a.budget;
        metrics = rw (a.metrics) ((queue_balanced c.metrics).1);
      },
    )
