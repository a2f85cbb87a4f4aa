-- ===== src/Tests/Coordinator.antt =====
-- Two calls on a budget of one a minute, and the metrics that are kept of them.
use strmline.Prelude.{ℕ, ◌≤◌, ◌<◌, ◌≡◌, ◌↔◌, refl, List, [], ◌∷◌, none, some, length, arith}
use strmline.Prelude.Window.{in_window}
use strmline.Operations.Metrics.{
  new_metrics, recent_call_window, snapshot, torbox_request_started, torbox_queue_entered,
}
use strmline.Operations.Metrics.Calls.{Logged, fresh, call, enter, calls_last_minute_exact}
use strmline.Torbox.Runtime.{
  TorBoxRequestCoordinator, rate_window, new_coordinator, reserve_or_wait, acquire,
}
use strmline.Torbox.Runtime.Safety.{
  Reach, start, round, admitted_in_minute, rate_limit, reserve_or_wait_exact,
}
use strmline.Torbox.Runtime.Progress.{Admitted, wait_bounds, acquire_total}

abbrev coordinator : List ℕ → TorBoxRequestCoordinator
coordinator calls = record {
  requests_per_minute = 1;
  admitted_calls = calls;
  metrics = record new_metrics { request_budget = 1 };
}

one_call : Reach 1 (coordinator (5 ∷ [])) (5 ∷ []) 5
unfolding reserve_or_wait new_coordinator
one_call = round 5 (omega arith) (start {c = coordinator []} 1 new_metrics (omega arith) refl)

refused_call : Reach 1 (coordinator (5 ∷ [])) (5 ∷ []) 7
unfolding reserve_or_wait
refused_call = round 7 (omega arith) one_call

rate_limit_example : admitted_in_minute 7 (5 ∷ []) ≤ 1
rate_limit_example = rate_limit refused_call 7

reserve_or_wait_exact_example :
    ((reserve_or_wait 7 (coordinator (5 ∷ []))).1 ≡ none)
    ↔ (length (in_window rate_window 7 (5 ∷ [])) < 1)
reserve_or_wait_exact_example = reserve_or_wait_exact 7 one_call (omega arith)

told_to_wait : (reserve_or_wait 7 (coordinator (5 ∷ []))).1 ≡ some 59_999_999_998
unfolding reserve_or_wait
told_to_wait = refl

wait_bounds_example : (0 < 59_999_999_998) × (59_999_999_998 ≤ rate_window)
wait_bounds_example =
    wait_bounds 7 (coordinator (5 ∷ [])) (omega arith, tt, tt) (omega arith) told_to_wait

acquire_total_example :
    (time : ℕ) × (d : TorBoxRequestCoordinator) × (acquire 2 (λ k. 3) 7 (coordinator (5 ∷ []))
      ≡ some (time, d))
    × (7 ≤ time)
    × Admitted time (coordinator (5 ∷ [])) d
acquire_total_example =
    acquire_total 2 (λ k. 3) 7 (coordinator (5 ∷ [])) (omega arith) (omega arith)

one_started : Logged (torbox_request_started 5 (torbox_queue_entered new_metrics)) (5 ∷ []) 5
one_started = call 5 (omega arith) (enter fresh)

calls_last_minute_exact_example :
    (snapshot 9
      (torbox_request_started 5 (torbox_queue_entered new_metrics))).1.torbox_calls_last_minute
    ≡ length (in_window recent_call_window 9 (5 ∷ []))
calls_last_minute_exact_example = calls_last_minute_exact 9 one_started (omega arith)
