-- ===== src/Torbox/Runtime.antt =====
-- api/app/providers/torbox/runtime.py: `TorBoxRequestCoordinator`, the process-wide budget of
-- TorBox requests. A method that holds the lock is one step; the clock's reading, in nanoseconds,
-- is an argument, and so is what `sleep` adds to the time that it was asked for.
pub mod Safety
pub mod Progress
use mathlib.Core.Option
use strmline.Prelude.{
  ℕ, Bool, zero, suc, ◌+◌, ◌-◌, ◌*◌, List, [], ◌∷◌, ◌++◌, Option, none, some, ltb, nat_beq, length,
  if◌then◌else◌, Result, ok, raise, ValueError, value_error,
}
use strmline.Prelude.Window.{ticks_per_second, pop_stale}
use strmline.Operations.Metrics.{
  OperationalMetrics, configure_torbox_budget, torbox_queue_entered, torbox_queue_left,
  torbox_request_started, torbox_request_finished,
}

abbrev pub rate_window : ℕ
rate_window = 60 * ticks_per_second

-- The budget is a positive integer, and the deque holds the times of the admitted calls. The
-- metrics that the object refers to are kept beside its own fields.
pub record TorBoxRequestCoordinator : Type 0 where
  pub requests_per_minute : ℕ
  pub admitted_calls : List ℕ
  pub metrics : OperationalMetrics

abbrev budget_error : ValueError
budget_error = value_error "TorBox requests per minute must be positive."

-- `__init__`
unfoldable pub new_coordinator : ℕ → OperationalMetrics → Result ValueError TorBoxRequestCoordinator
unfolding configure_torbox_budget
new_coordinator requests_per_minute metrics =
    if nat_beq requests_per_minute 0
    then raise budget_error
    else ok (record {
      requests_per_minute = requests_per_minute;
      admitted_calls = [];
      metrics = configure_torbox_budget requests_per_minute metrics;
    })

unfoldable pub reconfigure :
    ℕ → TorBoxRequestCoordinator → Result ValueError TorBoxRequestCoordinator
unfolding configure_torbox_budget
reconfigure requests_per_minute c =
    if nat_beq requests_per_minute 0
    then raise budget_error
    else ok (record c {
      requests_per_minute = requests_per_minute;
      metrics = configure_torbox_budget requests_per_minute c.metrics;
    })

-- `none` admits the call; `some wait` asks for a wait, to the oldest call's leaving the window.
-- The last branch of the source reads the oldest call of a deque that is as long as the budget.
wait_for : ℕ → List ℕ → ℕ
wait_for now [] = 0
wait_for now (oldest ∷ _) = oldest + rate_window - now

admit_or_wait : ℕ → List ℕ → TorBoxRequestCoordinator → TorBoxRequestCoordinator × Option ℕ
unfolding wait_for
admit_or_wait now calls c =
    if ltb (length calls) c.requests_per_minute
    then (record c { admitted_calls = calls ++ (now ∷ []) }, none)
    else (record c { admitted_calls = calls }, some (wait_for now calls))

unfoldable pub reserve_or_wait : ℕ → TorBoxRequestCoordinator → TorBoxRequestCoordinator × Option ℕ
unfolding pop_stale admit_or_wait
reserve_or_wait now c = admit_or_wait now (pop_stale rate_window now c.admitted_calls) c

-- The loop of `acquire` when no other task runs between its rounds: each sleep lasts at least as
-- long as was asked, and `late k` more. The result is the time of the admission.
acquire_loop : ℕ → (ℕ → ℕ) → ℕ → TorBoxRequestCoordinator → Option (ℕ × TorBoxRequestCoordinator)
acquire_loop zero late now c = none
acquire_loop (suc fuel) late now c =
    let round = reserve_or_wait now c in
    elim round.1 [
      | none ↦ some (now, round.0)
      | some wait ↦ acquire_loop fuel late (now + wait + late fuel) round.0
    ]

left_queue : ℕ × TorBoxRequestCoordinator → ℕ × TorBoxRequestCoordinator
unfolding torbox_queue_left
left_queue (time, c) = (time, record c { metrics = torbox_queue_left c.metrics })

unfoldable pub acquire :
    ℕ → (ℕ → ℕ) → ℕ → TorBoxRequestCoordinator → Option (ℕ × TorBoxRequestCoordinator)
unfolding torbox_queue_entered acquire_loop left_queue
acquire fuel late now c =
    Option.map left_queue
      (acquire_loop fuel late now (record c { metrics = torbox_queue_entered c.metrics }))

-- `record_request_started` and `record_request_finished`
unfoldable pub record_request_started : ℕ → TorBoxRequestCoordinator → TorBoxRequestCoordinator
unfolding torbox_request_started
record_request_started now c = record c { metrics = torbox_request_started now c.metrics }

unfoldable pub record_request_finished :
    Option ℕ → Bool → TorBoxRequestCoordinator → TorBoxRequestCoordinator
unfolding torbox_request_finished
record_request_finished status_code succeeded c = record c {
  metrics = torbox_request_finished status_code succeeded c.metrics;
}
