-- ===== src/Operations/Metrics/Calls.antt =====
-- api/app/operations/metrics.py: `torbox_calls_last_minute` and the history of calls.
use strmline.Prelude.{ℕ, ◌+◌, ◌≤◌, ◌≡◌, ap, List, [], ◌∷◌, ◌++◌, length, arith}
use strmline.Prelude.{Option, Bool}
use strmline.Prelude.Window.{
  Tracks, Tracks-nil, in_window, pop_stale-eq-history, pop_stale-Tracks, snoc-Tracks,
}
use strmline.Operations.Metrics.{
  OperationalMetrics, new_metrics, recent_call_window, torbox_request_started, snapshot, reset,
  configure_torbox_budget, resolver_cache_hit, resolver_cache_miss, resolver_negative_cache_hit,
  resolver_circuit_open_rejection, resolver_recovery_started, resolver_recovery_finished,
  torbox_queue_entered, torbox_queue_left, torbox_request_finished,
}

-- The metrics after some calls of their methods, the times at which calls of TorBox were started
-- since the last reset, and the last reading of the clock, which never goes back.
pub data Logged : OperationalMetrics → List ℕ → ℕ → Type 0 where
  fresh : Logged new_metrics [] 0
  call :
      {m : OperationalMetrics} {history : List ℕ} {top : ℕ} (now : ℕ)
      → top ≤ now
      → Logged m history top
      → Logged (torbox_request_started now m) (history ++ (now ∷ [])) now
  look :
      {m : OperationalMetrics} {history : List ℕ} {top : ℕ} (now : ℕ)
      → top ≤ now
      → Logged m history top
      → Logged (snapshot now m).0 history now
  finish :
      {m : OperationalMetrics} {history : List ℕ} {top : ℕ} (status : Option ℕ) (done : Bool)
      → Logged m history top
      → Logged (torbox_request_finished status done m) history top
  enter :
      {m : OperationalMetrics} {history : List ℕ} {top : ℕ}
      → Logged m history top
      → Logged (torbox_queue_entered m) history top
  leave :
      {m : OperationalMetrics} {history : List ℕ} {top : ℕ}
      → Logged m history top
      → Logged (torbox_queue_left m) history top
  configure :
      {m : OperationalMetrics} {history : List ℕ} {top : ℕ} (requests_per_minute : ℕ)
      → Logged m history top
      → Logged (configure_torbox_budget requests_per_minute m) history top
  hit :
      {m : OperationalMetrics} {history : List ℕ} {top : ℕ}
      → Logged m history top
      → Logged (resolver_cache_hit m) history top
  miss :
      {m : OperationalMetrics} {history : List ℕ} {top : ℕ}
      → Logged m history top
      → Logged (resolver_cache_miss m) history top
  negative_hit :
      {m : OperationalMetrics} {history : List ℕ} {top : ℕ}
      → Logged m history top
      → Logged (resolver_negative_cache_hit m) history top
  rejection :
      {m : OperationalMetrics} {history : List ℕ} {top : ℕ}
      → Logged m history top
      → Logged (resolver_circuit_open_rejection m) history top
  recovery :
      {m : OperationalMetrics} {history : List ℕ} {top : ℕ}
      → Logged m history top
      → Logged (resolver_recovery_started m) history top
  recovered :
      {m : OperationalMetrics} {history : List ℕ} {top : ℕ} (succeeded : Bool)
      → Logged m history top
      → Logged (resolver_recovery_finished succeeded m) history top
  forget :
      {m : OperationalMetrics} {history : List ℕ} {top : ℕ}
      → Logged m history top
      → Logged (reset m) [] top

recent_calls-finished :
    (status : Option ℕ) (done : Bool) (m : OperationalMetrics)
    → (torbox_request_finished status done m).recent_calls ≡ m.recent_calls
unfolding torbox_request_finished
recent_calls-finished status done m = ground arith

recent_calls-recovered :
    (succeeded : Bool) (m : OperationalMetrics)
    → (resolver_recovery_finished succeeded m).recent_calls ≡ m.recent_calls
unfolding resolver_recovery_finished
recent_calls-recovered succeeded m = ground arith

Logged-Tracks :
    {m : OperationalMetrics} {history : List ℕ} {top : ℕ}
    → Logged m history top
    → Tracks recent_call_window top history m.recent_calls
unfolding torbox_request_started snapshot torbox_request_finished torbox_queue_entered
    torbox_queue_left configure_torbox_budget resolver_cache_hit resolver_cache_miss
    resolver_negative_cache_hit resolver_circuit_open_rejection resolver_recovery_started reset
Logged-Tracks fresh = Tracks-nil _ _
Logged-Tracks (call {history} now h l) =
    pop_stale-Tracks _ now (history ++ (now ∷ [])) _ (snoc-Tracks _ _ _ _ (Logged-Tracks l) now h)
      now (omega arith)
Logged-Tracks (look now h l) = pop_stale-Tracks _ _ _ _ (Logged-Tracks l) now h
Logged-Tracks (finish status done l) = rw (recent_calls-finished status done _) (Logged-Tracks l)
Logged-Tracks (enter l) = Logged-Tracks l
Logged-Tracks (leave l) = Logged-Tracks l
Logged-Tracks (configure _ l) = Logged-Tracks l
Logged-Tracks (hit l) = Logged-Tracks l
Logged-Tracks (miss l) = Logged-Tracks l
Logged-Tracks (negative_hit l) = Logged-Tracks l
Logged-Tracks (rejection l) = Logged-Tracks l
Logged-Tracks (recovery l) = Logged-Tracks l
Logged-Tracks (recovered succeeded l) = rw (recent_calls-recovered succeeded _) (Logged-Tracks l)
Logged-Tracks (forget l) = Tracks-nil _ _

-- Whatever methods were called before, a snapshot reports as the calls of the last minute exactly
-- the calls that were started since the last reset and less than 60 seconds before it, on a clock
-- that never goes back.
pub calls_last_minute_exact :
    {m : OperationalMetrics} {history : List ℕ} {top : ℕ} (now : ℕ)
    → Logged m history top
    → top ≤ now
    → (snapshot now m).1.torbox_calls_last_minute
      ≡ length (in_window recent_call_window now history)
unfolding snapshot
calls_last_minute_exact now l h = ap length (pop_stale-eq-history _ _ _ _ (Logged-Tracks l) now h)

-- Between a call's entering and its leaving the queue the depth is one more, and after it the
-- depth, and all else that a snapshot shows, is what it was.
pub queue_balanced :
    (m : OperationalMetrics)
    → ((torbox_queue_entered m).queue_depth ≡ m.queue_depth + 1)
      × (torbox_queue_left (torbox_queue_entered m) ≡ m)
unfolding torbox_queue_entered torbox_queue_left
queue_balanced m = ground arith
