-- ===== src/Tests/Controls.antt =====
-- The controls of the resilience layer at concrete times.
use cang_qiong_project.Common.{
  ℕ, ◌*◌, ◌≤◌, max, String, ◌≡◌, refl, ◌⊎◌, true, List, [], ◌∷◌, map, arith, Result, ok, err,
}
use cang_qiong_project.Resilience.Config.{ResilienceConfig}
use cang_qiong_project.Resilience.Failure.{Failure, rate_limit_exceeded, other_error}
use cang_qiong_project.Resilience.Window.Bound.{admitted, count_in, count_in-admitted-le-limit}
use cang_qiong_project.Resilience.Window.{expire}
use cang_qiong_project.Resilience.Circuit
use cang_qiong_project.Resilience.Circuit.{
  CircuitRecord, opened, closed, half_open, before_call, record_success, record_failure,
  cancel_call,
}
use cang_qiong_project.Resilience.Circuit.Events.{call, success, failure, cancel, step, run}
use cang_qiong_project.Resilience.Circuit.Invariant.{
  IsConsistent, run-IsConsistent, new-IsConsistent,
}
use cang_qiong_project.Resilience.Circuit.Trips.{failures_trip, let_through, opened-let_through}
use cang_qiong_project.Resilience.Control
use cang_qiong_project.Resilience.Control.{
  Controller, Caller, enforce_request_limits, consume_rate_limit,
}
use cang_qiong_project.Resilience.Control.Limits.{
  refused_request_is_free, principal_events, customer_events,
}
use cang_qiong_project.Resilience.Control.RetryAfter.{retry_after_exact}
use cang_qiong_project.Resilience.Retry.Delay.{retry_delay}
use cang_qiong_project.Resilience.Retry.Delay.Bounds.{retry_delay-bounded}

abbrev pub settings : ResilienceConfig
settings = record {
  enabled = true;
  max_retries = 2;
  initial_backoff_ms = 100;
  max_backoff_ms = 1000;
  jitter_ratio = 200;
  retry_budget_attempts = 10;
  retry_budget_window_seconds = 60;
  max_retry_after_seconds = 30;
  circuit_failure_threshold = 3;
  circuit_recovery_seconds = 20;
  circuit_half_open_attempts = 1;
  bulkhead_default_limit = 4;
  bulkhead_provider_limit = 2;
  principal_rate_limit = 2;
  customer_rate_limit = 1;
  provider_rate_limit = 5;
  rate_limit_window_seconds = 10;
}

abbrev pub same : String → String
same s = s

abbrev arrivals : List ℕ
arrivals = 1 ∷ 2 ∷ 3 ∷ 12 ∷ []

count_in-admitted-le-limit_example : count_in 10 0 (admitted 2 10 [] arrivals) ≤ 2
count_in-admitted-le-limit_example =
    count_in-admitted-le-limit 2 10 0 arrivals
      (omega arith, (omega arith, (omega arith, (omega arith, tt)))) 0

run-IsConsistent_example :
    IsConsistent settings (run settings Circuit.new (failure 1 ∷ call 2 ∷ success ∷ cancel ∷ []))
run-IsConsistent_example =
    run-IsConsistent settings Circuit.new (failure 1 ∷ call 2 ∷ success ∷ cancel ∷ []) (omega arith)
      (new-IsConsistent settings (omega arith))

failures_trip_example :
    let c' = run settings Circuit.new (map failure (1 ∷ 2 ∷ [])) in
    let c'' = step settings c' (failure 3) in
    (c'.state ≡ closed) × (c'.failure_count ≡ 2) × (c''.state ≡ opened) × (c''.opened_at ≡ 3)
failures_trip_example = failures_trip settings Circuit.new (1 ∷ 2 ∷ []) 3 refl (omega arith)

abbrev tripped : CircuitRecord
tripped = record {
  state = opened;
  failure_count = 3;
  opened_at = 5;
  half_open_in_flight = 0;
  recovery_attempts = 0;
}

opened-let_through_example : let_through settings tripped (25 ∷ 26 ∷ 27 ∷ []) ≤ 1
opened-let_through_example = opened-let_through settings tripped (25 ∷ 26 ∷ 27 ∷ []) refl

abbrev caller : Caller
caller = record { actor_id = "actor"; effective_customer_id = "7" }

abbrev first_request : Result Failure (Unit {0}) × Controller
first_request = enforce_request_limits same settings 1 1 caller Control.new

first_request_runs : first_request ≡ (ok tt, first_request.1)
unfolding enforce_request_limits
first_request_runs = refl

abbrev second_request : Result Failure (Unit {0}) × Controller
second_request = enforce_request_limits same settings 2 2 caller first_request.1

second_request_runs : second_request ≡ (err (rate_limit_exceeded "customer" 9), second_request.1)
unfolding enforce_request_limits
second_request_runs = refl

refused_request_is_free_example :
    (principal_events same settings 2 2 caller first_request.1 second_request.1 ≡ 1 ∷ [])
    × ((customer_events same settings 2 2 caller first_request.1 second_request.1 ≡ 1 ∷ [])
        ⊎ (customer_events same settings 2 2 caller first_request.1 second_request.1 ≡ 1 ∷ []))
unfolding expire enforce_request_limits
refused_request_is_free_example =
    refused_request_is_free same settings 2 2 caller first_request.1
      (rate_limit_exceeded "customer" 9) second_request.1 (omega arith) second_request_runs

abbrev busy : Controller
busy = record Control.new { rate_events = λ scope key. 1 ∷ [] }

abbrev refused : Result Failure (Unit {0}) × Controller
refused = consume_rate_limit same settings 4 "provider" "llm" 1 busy

refused_runs : refused ≡ (err (rate_limit_exceeded "provider" 7), refused.1)
unfolding consume_rate_limit
refused_runs = refl

retry_after_exact_example :
    (consume_rate_limit same settings 6 "provider" "llm" 1 refused.1).0
    ≡ err (rate_limit_exceeded "provider" 5)
retry_after_exact_example =
    retry_after_exact same settings "provider" "llm" 1 4 7 6 busy refused.1 (omega arith)
      refused_runs

retry_delay-bounded_example :
    retry_delay other_error 3 settings 700 0
    ≤ max (settings.max_backoff_ms * 2_000_000) settings.max_retry_after_seconds
retry_delay-bounded_example = retry_delay-bounded other_error 3 settings 700 0 (omega arith)
