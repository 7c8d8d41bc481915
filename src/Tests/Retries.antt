-- ===== src/Tests/Retries.antt =====
-- The retry loop at concrete calls.
use cang_qiong_project.Common.{ℕ, ◌≤◌, ◌≡◌, refl, false, none, some, [], arith, Result, err}
use cang_qiong_project.Resilience.Failure.{Failure, timeout_error}
use cang_qiong_project.Resilience.Control
use cang_qiong_project.Resilience.Control.{Controller}
use cang_qiong_project.Resilience.Retry.{run_with_retry}
use cang_qiong_project.Resilience.Retry.Once.{Request, World}
use cang_qiong_project.Resilience.Retry.Attempts.{run_with_retry-attempts}
use cang_qiong_project.Resilience.Retry.Writes.{Once, run_with_retry-write-Once}
use cang_qiong_project.Resilience.Retry.Balance.{IsIdle, run_with_retry-IsIdle}
use cang_qiong_project.Tests.Controls.{settings, same}

-- An operation that never answers in time.
abbrev failing : ℕ → Result Failure ℕ
failing n = err timeout_error

abbrev write_request : Request ℕ
write_request = record {
  operation = failing;
  dependency = "tool";
  operation_type = "write";
  policy = settings;
  identity = "tool:cancel_order";
  provider_rate_limit = false;
  timeout_seconds = none;
  deadline = none;
  clock = λ n. n;
  random_source = λ n. 500;
  wall_clock = λ n. n;
  digest = same;
}

abbrev read_request : Request ℕ
read_request = record write_request { operation_type = "read" }

abbrev idle : Controller
idle = record Control.new { bulkheads = λ service. some 4 }

abbrev start : World
start = record { controller = some idle; readings = 0; attempts_started = 0; slept = [] }

abbrev write_end : Result Failure ℕ × World
write_end = run_with_retry write_request start

write_runs : (write_end.0 ≡ err timeout_error) × (write_end.1.attempts_started ≡ 1)
unfolding run_with_retry
write_runs = (refl, refl)

abbrev read_end : Result Failure ℕ × World
read_end = run_with_retry read_request start

read_runs : read_end.1.attempts_started ≡ 3
unfolding run_with_retry
read_runs = refl

run_with_retry-write-Once_example : Once write_request start write_end.0 write_end.1
run_with_retry-write-Once_example = run_with_retry-write-Once write_request start refl

run_with_retry-attempts_example : read_end.1.attempts_started ≤ 3
run_with_retry-attempts_example = run_with_retry-attempts read_request start

run_with_retry-IsIdle_example : IsIdle read_request 4 read_end.1.controller
run_with_retry-IsIdle_example =
    run_with_retry-IsIdle read_request 4 start (omega arith) (refl, refl)
