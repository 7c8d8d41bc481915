-- ===== src/Resilience/Retry/Delay/Bounds.antt =====
-- How long sky-agent/app/resilience/retry.py waits before an attempt.
use cang_qiong_project.Common.{ℕ, ◌+◌, ◌-◌, ◌*◌, ◌≤◌, min, max, arith}
use cang_qiong_project.Resilience.Config.{ResilienceConfig}
use cang_qiong_project.Resilience.Failure.{Failure}
use cang_qiong_project.Resilience.Retry.Delay.{backoff_ms, jittered, retry_delay}

backoff_ms-le :
    (policy : ResilienceConfig) (attempt : ℕ) → backoff_ms policy attempt ≤ policy.max_backoff_ms
unfolding backoff_ms
backoff_ms-le policy attempt = omega arith

mul_le : (a b c d : ℕ) → a ≤ b → c ≤ d → a * c ≤ b * d
mul_le a b c d p q = grind arith

-- The factor lies between 0 and 2 when the ratio is at most 1.
factor-le :
    (ratio sample : ℕ)
    → ratio ≤ 1000
    → 1_000_000 + ratio * (2 * min 1000 sample) - ratio * 1000 ≤ 2_000_000
factor-le ratio sample h =
    omega (arith, mul_le ratio ratio (2 * min 1000 sample) 2000 (omega arith) (omega arith))

jittered-le :
    (policy : ResilienceConfig) (attempt sample : ℕ)
    → policy.jitter_ratio ≤ 1000
    → jittered policy attempt sample ≤ policy.max_backoff_ms * 2_000_000
unfolding jittered
jittered-le policy attempt sample h =
    mul_le _ _ _ _ (backoff_ms-le policy attempt) (factor-le policy.jitter_ratio sample h)

-- A delay is at most twice the longest backoff, or the longest accepted `Retry-After` where that
-- is longer, whatever the exception, the attempt, the sample and the server's header. The jitter
-- ratio is at most 1.
pub retry_delay-bounded :
    (error : Failure) (attempt : ℕ) (policy : ResilienceConfig) (sample now : ℕ)
    → policy.jitter_ratio ≤ 1000
    → retry_delay error attempt policy sample now
      ≤ max (policy.max_backoff_ms * 2_000_000) policy.max_retry_after_seconds
unfolding retry_delay
retry_delay-bounded error attempt policy sample now h =
    ground (arith, jittered-le policy attempt sample h)
