-- ===== src/Resilience/Retry/Delay.antt =====
-- `_retry_delay` and `_retry_after_seconds` of sky-agent/app/resilience/retry.py, in nanoseconds:
-- a base in milliseconds times a factor in millionths.
pub mod Bounds
use cang_qiong_project.Common.{ℕ, zero, suc, ◌+◌, ◌-◌, ◌*◌, ◌^◌, min, max, Option, none, some}
use cang_qiong_project.Resilience.Config.{ResilienceConfig}
use cang_qiong_project.Resilience.Failure.{
  Failure, RetryAfter, absent, seconds, negative_seconds, http_date, unreadable, http_status_error,
  rate_limit_exceeded,
}

header_seconds : RetryAfter → ℕ → Option ℕ
header_seconds absent now = none
header_seconds (seconds n) now = some n
header_seconds negative_seconds now = some 0
header_seconds (http_date retry_at) now = some (retry_at - now)
header_seconds unreadable now = none

-- Of the other exceptions only `RateLimitExceededError` has `retry_after_seconds`.
unfoldable pub retry_after_seconds : Failure → ℕ → Option ℕ
unfolding header_seconds
retry_after_seconds (http_status_error header) now = header_seconds header now
retry_after_seconds (rate_limit_exceeded scope after) now = some after
retry_after_seconds _ now = none

-- The backoff of the attempt, counted from 1, in milliseconds.
unfoldable pub backoff_ms : ResilienceConfig → ℕ → ℕ
backoff_ms policy attempt =
    min (policy.initial_backoff_ms * 2 ^ (attempt - 1)) policy.max_backoff_ms

-- The sample of `random_source` is in thousandths; the difference that stops at 0 is the
-- `max` with 0.0.
unfoldable pub jittered : ResilienceConfig → ℕ → ℕ → ℕ
unfolding backoff_ms
jittered policy attempt sample =
    backoff_ms policy attempt
    * (1_000_000 + policy.jitter_ratio * (2 * min 1000 sample) - policy.jitter_ratio * 1000)

unfoldable pub retry_delay : Failure → ℕ → ResilienceConfig → ℕ → ℕ → ℕ
unfolding retry_after_seconds jittered
retry_delay error attempt policy sample now = elim (retry_after_seconds error now) [
  | none ↦ jittered policy attempt sample
  | some after ↦ max (jittered policy attempt sample) (min after policy.max_retry_after_seconds)
]

-- The sum of the backoffs before the attempts that follow the first `n`.
unfoldable pub backoff_budget_ms : ResilienceConfig → ℕ → ℕ
unfolding backoff_ms
backoff_budget_ms policy zero = 0
backoff_budget_ms policy (suc n) = backoff_budget_ms policy n + backoff_ms policy (suc n)

-- `_sequence_deadline`.
unfoldable pub sequence_deadline : ℕ → Option ℕ → ℕ → ResilienceConfig → Option ℕ
unfolding backoff_budget_ms
sequence_deadline started none attempts_allowed policy = none
sequence_deadline started (some timeout) attempts_allowed policy = some (
    started
    + timeout * attempts_allowed
    + backoff_budget_ms policy (attempts_allowed - 1) * 1_000_000)
