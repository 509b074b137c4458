-- ===== src/Tools/Resilience/Examples.antt =====
-- A tool that times out once, and one that refuses its argument.
use atlas_agent_control_plan.Prelude.{
  ℕ, zero, suc, String, true, false, ◌≡◌, refl, none, some, [], ◌∷◌, arith, string_eq,
}
use atlas_agent_control_plan.Prelude.Int.{pos}
use atlas_agent_control_plan.Prelude.Result.{Result, ok, err}
use atlas_agent_control_plan.Tools.Resilience.{
  ToolError, app_exception, argument_error, transport_error, other_error, RetryPolicy,
  ResilienceOutcome, is_retryable_error, retry_delay, max_retries_of, execute_with_resilience,
}
use atlas_agent_control_plan.Tools.Resilience.Laws.{
  Retried, nothing_yet, once_more, IsOutcome, execute_with_resilience-IsOutcome, execute_returns,
  fallback_attempts,
}

abbrev lower : String → String
lower text = text

abbrev policy : RetryPolicy
policy = record {
  enabled = true;
  max_retries = pos 2;
  base_backoff_seconds = 3;
  backoff_factor = 2;
}

abbrev flaky : ℕ → Result ToolError String
flaky zero = err (transport_error "reset")
flaky (suc zero) = err (transport_error "reset")
flaky (suc (suc n)) = ok "page"

abbrev refusing : ℕ → Result ToolError String
refusing n = err (argument_error "bad path")

abbrev flaky_outcome : ResilienceOutcome String
flaky_outcome = record {
  value = "page";
  attempts = 2;
  retry_events = record { attempt = 1; delay_seconds = 3; error = transport_error "reset" } ∷ [];
  fell_back = false;
  last_error = none;
}

retries_once :
    execute_with_resilience String (is_retryable_error lower) policy flaky none ≡ ok flaky_outcome
unfolding execute_with_resilience is_retryable_error retry_delay
retries_once = refl

reads_keywords :
    (is_retryable_error lower (other_error "read timed out") ≡ true)
    × (is_retryable_error lower (other_error "no such file") ≡ false)
    × (is_retryable_error lower (app_exception false 404 "") ≡ false)
unfolding is_retryable_error
reads_keywords = (refl, refl, refl)

execute_with_resilience-IsOutcome_example :
    IsOutcome String (is_retryable_error lower) policy flaky none flaky_outcome
execute_with_resilience-IsOutcome_example =
    execute_with_resilience-IsOutcome String (is_retryable_error lower) policy flaky none
      flaky_outcome retries_once

flaky-Retried :
    Retried String
      (is_retryable_error lower)
      policy
      flaky
      2
      (record { attempt = 1; delay_seconds = 3; error = transport_error "reset" } ∷ [])
unfolding is_retryable_error retry_delay
flaky-Retried = once_more (transport_error "reset") nothing_yet refl refl

execute_returns_example :
    execute_with_resilience String (is_retryable_error lower) policy flaky none ≡ ok flaky_outcome
unfolding max_retries_of
execute_returns_example =
    execute_returns String (is_retryable_error lower) policy flaky none 2
      (record { attempt = 1; delay_seconds = 3; error = transport_error "reset" } ∷ []) "page"
      flaky-Retried refl (omega arith)

fallback_attempts_example :
    execute_with_resilience String (is_retryable_error lower) policy refusing (some (ok "cached"))
    ≡ ok (record {
      value = "cached";
      attempts = 3;
      retry_events = [];
      fell_back = true;
      last_error = some (argument_error "bad path");
    })
unfolding is_retryable_error max_retries_of
fallback_attempts_example =
    fallback_attempts String (is_retryable_error lower) policy refusing (argument_error "bad path")
      "cached" refl refl
