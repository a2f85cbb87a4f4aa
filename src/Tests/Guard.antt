-- ===== src/Tests/Guard.antt =====
-- The failure guard with its default configuration, after failures of one entry.
use strmline.Prelude.{
  ◌+◌, ◌≡◌, ◌≢◌, refl, ◌⊎◌, String, [], none, leb, length, ok, if◌then◌else◌, arith, string_eq,
  eq_iff,
}
use strmline.Prelude.Dict.{lookup}
use strmline.Prelude.Window.{in_window}
use strmline.Operations.Metrics.{new_metrics}
use strmline.Resolver.FailureGuard.{
  default_config, ResolverFailureGuard, new_guard, check, record_failure,
}
use strmline.Resolver.FailureGuard.Bounded.{IsBounded}
use strmline.Resolver.FailureGuard.Circuit.{Reach, start, failure, failed, Reach-IsBounded}
use strmline.Resolver.FailureGuard.Refusals.{
  verdict, open_until, check_after_failure, check_other_after_failure,
}

abbrev fresh_guard : ResolverFailureGuard
fresh_guard = record { config = default_config; negative_until = []; failure_states = [] }

abbrev failed_guard : ResolverFailureGuard
failed_guard = record_failure 1 "a" fresh_guard

fresh_guard-Reach : Reach fresh_guard (λ _. []) 0
unfolding new_guard
fresh_guard-Reach = start default_config refl

failed_guard-Reach : Reach failed_guard (failed 1 "a" failed_guard (λ _. [])) 1
failed_guard-Reach = failure 1 "a" (omega arith) fresh_guard-Reach

Reach-IsBounded_example : IsBounded failed_guard
Reach-IsBounded_example = Reach-IsBounded failed_guard-Reach

failed_guard-IsBounded : IsBounded failed_guard
failed_guard-IsBounded = Reach-IsBounded failed_guard-Reach

check_after_failure_example :
    (check 3 "a" new_metrics (record_failure 2 "a" failed_guard)).outcome
    ≡ verdict 3
        (if leb failed_guard.config.circuit_failures (
            length (
              in_window failed_guard.config.circuit_window 2
                (failed 1 "a" failed_guard (λ _. []) "a"))
            + 1)
          then 2 + failed_guard.config.circuit_cooldown
          else open_until (lookup "a" failed_guard.failure_states))
        (2 + failed_guard.config.negative_cache)
check_after_failure_example =
    check_after_failure 2 3 "a" new_metrics failed_guard-Reach (omega arith) (omega arith)

abbrev entry_a : String
entry_a = "a"

a-ne-b : entry_a ≢ "b"
a-ne-b e = ground (arith, (eq_iff entry_a "b").1 e)

check_other_after_failure_example :
    ((check 3 "a" new_metrics (record_failure 2 "b" failed_guard)).outcome
      ≡ (check 3 "a" new_metrics failed_guard).outcome)
    ⊎ ((lookup "a" (record_failure 2 "b" failed_guard).failure_states ≡ none)
        × ((check 3 "a" new_metrics (record_failure 2 "b" failed_guard)).outcome ≡ ok tt))
check_other_after_failure_example =
    check_other_after_failure 2 3 "a" "b" new_metrics failed_guard-Reach a-ne-b
