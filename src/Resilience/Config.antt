-- ===== src/Resilience/Config.antt =====
-- sky-agent/app/resilience/config.py, the fields that the controls and the retry loop read.
-- Seconds are whole nanoseconds, backoffs whole milliseconds and ratios whole thousandths.
use cang_qiong_project.Common.{ℕ, Bool}

pub record ResilienceConfig : Type 0 where
  pub enabled : Bool
  pub max_retries : ℕ
  pub initial_backoff_ms : ℕ
  pub max_backoff_ms : ℕ
  pub jitter_ratio : ℕ
  pub retry_budget_attempts : ℕ
  pub retry_budget_window_seconds : ℕ
  pub max_retry_after_seconds : ℕ
  pub circuit_failure_threshold : ℕ
  pub circuit_recovery_seconds : ℕ
  pub circuit_half_open_attempts : ℕ
  pub bulkhead_default_limit : ℕ
  pub bulkhead_provider_limit : ℕ
  pub principal_rate_limit : ℕ
  pub customer_rate_limit : ℕ
  pub provider_rate_limit : ℕ
  pub rate_limit_window_seconds : ℕ
