-- ===== src/Operations/Metrics.antt =====
-- api/app/operations/metrics.py: `OperationalMetrics`, counters that the TorBox client, the request
-- coordinator and the resolver increment. Each method runs under the object's lock, so it is one
-- step; a method that reads the clock takes the reading, in ticks, as an argument.
pub mod Calls
use strmline.Prelude.{
  ℕ, ◌+◌, ◌-◌, ◌*◌, List, [], ◌∷◌, ◌++◌, Option, none, some, Bool, if◌then◌else◌, length, nat_beq,
}
use strmline.Prelude.Window.{ticks_per_second, pop_stale}

abbrev pub recent_call_window : ℕ
recent_call_window = 60 * ticks_per_second

abbrev pub http_too_many_requests : ℕ
http_too_many_requests = 429

pub record OperationalMetrics : Type 0 where
  pub request_budget : ℕ
  pub requests_total : ℕ
  pub requests_succeeded : ℕ
  pub requests_failed : ℕ
  pub responses_429 : ℕ
  pub queue_depth : ℕ
  pub recent_calls : List ℕ
  pub resolver_cache_hits : ℕ
  pub resolver_cache_misses : ℕ
  pub resolver_negative_cache_hits : ℕ
  pub resolver_circuit_open_rejections : ℕ
  pub resolver_recovery_attempts : ℕ
  pub resolver_recovery_succeeded : ℕ
  pub resolver_recovery_failed : ℕ

pub record Snapshot : Type 0 where
  pub torbox_request_budget_per_minute : ℕ
  pub torbox_requests_total : ℕ
  pub torbox_requests_succeeded : ℕ
  pub torbox_requests_failed : ℕ
  pub torbox_responses_429 : ℕ
  pub torbox_calls_last_minute : ℕ
  pub torbox_queue_depth : ℕ
  pub resolver_cache_hits : ℕ
  pub resolver_cache_misses : ℕ
  pub resolver_negative_cache_hits : ℕ
  pub resolver_circuit_open_rejections : ℕ
  pub resolver_recovery_attempts : ℕ
  pub resolver_recovery_succeeded : ℕ
  pub resolver_recovery_failed : ℕ

abbrev pub new_metrics : OperationalMetrics
new_metrics = record {
  request_budget = 0;
  requests_total = 0;
  requests_succeeded = 0;
  requests_failed = 0;
  responses_429 = 0;
  queue_depth = 0;
  recent_calls = [];
  resolver_cache_hits = 0;
  resolver_cache_misses = 0;
  resolver_negative_cache_hits = 0;
  resolver_circuit_open_rejections = 0;
  resolver_recovery_attempts = 0;
  resolver_recovery_succeeded = 0;
  resolver_recovery_failed = 0;
}

unfoldable pub configure_torbox_budget : ℕ → OperationalMetrics → OperationalMetrics
configure_torbox_budget requests_per_minute m = record m { request_budget = requests_per_minute }

unfoldable pub torbox_queue_entered : OperationalMetrics → OperationalMetrics
torbox_queue_entered m = record m { queue_depth = m.queue_depth + 1 }

-- `max(0, depth - 1)` is the subtraction that stops at 0.
unfoldable pub torbox_queue_left : OperationalMetrics → OperationalMetrics
torbox_queue_left m = record m { queue_depth = m.queue_depth - 1 }

-- The cutoff test `t <= now - 60` reads `t + 60 <= now`.
unfoldable pub prune_recent_calls : ℕ → OperationalMetrics → OperationalMetrics
unfolding pop_stale
prune_recent_calls now m = record m {
  recent_calls = pop_stale recent_call_window now m.recent_calls;
}

unfoldable pub torbox_request_started : ℕ → OperationalMetrics → OperationalMetrics
unfolding prune_recent_calls
torbox_request_started now m = prune_recent_calls now (record m {
  requests_total = m.requests_total + 1;
  recent_calls = m.recent_calls ++ (now ∷ []);
})

-- `status_code == HTTP_TOO_MANY_REQUESTS`
is_429 : Option ℕ → Bool
is_429 none = Bool.false
is_429 (some code) = nat_beq code http_too_many_requests

unfoldable pub torbox_request_finished : Option ℕ → Bool → OperationalMetrics → OperationalMetrics
unfolding is_429
torbox_request_finished status_code succeeded m =
    let counted : OperationalMetrics =
      if succeeded
      then record m { requests_succeeded = m.requests_succeeded + 1 }
      else record m { requests_failed = m.requests_failed + 1 } in
    if is_429 status_code
    then record counted { responses_429 = counted.responses_429 + 1 }
    else counted

unfoldable pub resolver_cache_hit : OperationalMetrics → OperationalMetrics
resolver_cache_hit m = record m { resolver_cache_hits = m.resolver_cache_hits + 1 }

unfoldable pub resolver_cache_miss : OperationalMetrics → OperationalMetrics
resolver_cache_miss m = record m { resolver_cache_misses = m.resolver_cache_misses + 1 }

unfoldable pub resolver_negative_cache_hit : OperationalMetrics → OperationalMetrics
resolver_negative_cache_hit m = record m {
  resolver_negative_cache_hits = m.resolver_negative_cache_hits + 1;
}

unfoldable pub resolver_circuit_open_rejection : OperationalMetrics → OperationalMetrics
resolver_circuit_open_rejection m = record m {
  resolver_circuit_open_rejections = m.resolver_circuit_open_rejections + 1;
}

unfoldable pub resolver_recovery_started : OperationalMetrics → OperationalMetrics
resolver_recovery_started m = record m {
  resolver_recovery_attempts = m.resolver_recovery_attempts + 1;
}

unfoldable pub resolver_recovery_finished : Bool → OperationalMetrics → OperationalMetrics
resolver_recovery_finished succeeded m =
    if succeeded
    then record m { resolver_recovery_succeeded = m.resolver_recovery_succeeded + 1 }
    else record m { resolver_recovery_failed = m.resolver_recovery_failed + 1 }

-- A snapshot prunes the deque first.
unfoldable pub snapshot : ℕ → OperationalMetrics → OperationalMetrics × Snapshot
unfolding prune_recent_calls
snapshot now m =
    let p = prune_recent_calls now m in
    (
      p,
      record {
        torbox_request_budget_per_minute = p.request_budget;
        torbox_requests_total = p.requests_total;
        torbox_requests_succeeded = p.requests_succeeded;
        torbox_requests_failed = p.requests_failed;
        torbox_responses_429 = p.responses_429;
        torbox_calls_last_minute = length p.recent_calls;
        torbox_queue_depth = p.queue_depth;
        resolver_cache_hits = p.resolver_cache_hits;
        resolver_cache_misses = p.resolver_cache_misses;
        resolver_negative_cache_hits = p.resolver_negative_cache_hits;
        resolver_circuit_open_rejections = p.resolver_circuit_open_rejections;
        resolver_recovery_attempts = p.resolver_recovery_attempts;
        resolver_recovery_succeeded = p.resolver_recovery_succeeded;
        resolver_recovery_failed = p.resolver_recovery_failed;
      },
    )

-- The configured budget survives a reset.
unfoldable pub reset : OperationalMetrics → OperationalMetrics
reset m = record new_metrics { request_budget = m.request_budget }
