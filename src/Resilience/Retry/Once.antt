-- ===== src/Resilience/Retry/Once.antt =====
-- One attempt of `run_with_retry` of sky-agent/app/resilience/retry.py: its arguments, the state
-- that it changes, and the `try` block.
use cang_qiong_project.Common.{
  ℕ, ◌+◌, String, Bool, true, false, Option, none, some, List, if◌then◌else◌, Result, ok, err,
}
use cang_qiong_project.Resilience.Config.{ResilienceConfig}
use cang_qiong_project.Resilience.Failure.{Failure, rate_limit_exceeded}
use cang_qiong_project.Resilience.Control
use cang_qiong_project.Resilience.Control.{Controller}

-- The arguments of one call. The operation gives its outcome by the number of its earlier
-- invocations, the clock by the number of its earlier readings, and the random source and the
-- wall clock by the attempt. Its policy and its clock are the controller's too.
pub record Request {ℓ} (A : Type ℓ) : Type ℓ where
  pub operation : ℕ → Result Failure A
  pub dependency : String
  pub operation_type : String
  pub policy : ResilienceConfig
  pub identity : String
  pub provider_rate_limit : Bool
  pub timeout_seconds : Option ℕ
  pub deadline : Option ℕ
  pub clock : ℕ → ℕ
  pub random_source : ℕ → ℕ
  pub wall_clock : ℕ → ℕ
  pub digest : String → String

-- What a call changes: the controller, if it has one, the readings of the clock, the variable
-- `attempts_started`, which counts the invocations, and the delays that were slept.
pub record World : Type 0 where
  pub controller : Option Controller
  pub readings : ℕ
  pub attempts_started : ℕ
  pub slept : List ℕ

-- How one attempt ended, and whether its operation had started.
pub record Attempt {ℓ} (A : Type ℓ) : Type ℓ where
  pub result : Result Failure A
  pub started : Bool
  pub world : World

abbrev pub set_controller : World → Controller → World
set_controller w s = record w { controller = some s }

unfoldable pub is_rate_limit : Failure → Bool
is_rate_limit (rate_limit_exceeded scope after) = true
is_rate_limit _ = false

abbrev pub tick : World → World
tick w = record w { readings = w.readings + 1 }

module _ {ℓ} {A : Type ℓ} (r : Request A) where
  -- The reading of the clock, by the controller or by the loop.
  abbrev pub now : World → ℕ
  now w = r.clock w.readings

  -- What follows the operation in the controlled attempt: the bulkhead gives its permit back, and
  -- a success is recorded after that.
  unfoldable pub conclude : Controller → World → Result Failure A → Attempt A
  unfolding Control.release Control.record_success
  conclude s w (ok a) = record {
    result = ok a;
    started = true;
    world = set_controller w (Control.record_success r.identity (Control.release r.identity s));
  }
  conclude s w (err e) = record {
    result = err e;
    started = true;
    world = set_controller w (Control.release r.identity s);
  }

  unfoldable pub invoke : Controller → World → Attempt A
  unfolding conclude
  invoke s w =
      conclude s (record w { attempts_started = w.attempts_started + 1 })
        (r.operation w.attempts_started)

  -- An exception before the operation starts leaves through the bulkhead.
  abbrev pub refuse : Failure → Controller → World → Attempt A
  refuse e s w = record {
    result = err e;
    started = false;
    world = set_controller w (Control.release r.identity s);
  }

  -- `enforce_provider_limit` with its `except RateLimitExceededError`.
  unfoldable pub after_limit : World → Result Failure (Unit {0}) × Controller → Attempt A
  unfolding invoke is_rate_limit Control.cancel_call Control.release
  after_limit w (ok _, s) = invoke s w
  after_limit w (err e, s) =
      refuse e (if is_rate_limit e then Control.cancel_call r.identity s else s) w

  unfoldable pub after_circuit : World → Result Failure (Unit {0}) × Controller → Attempt A
  unfolding after_limit Control.enforce_provider_limit Control.release
  after_circuit w (err e, s) = refuse e s w
  after_circuit w (ok _, s) =
      if r.provider_rate_limit
      then after_limit (tick w)
          (Control.enforce_provider_limit r.digest r.policy (now w) r.identity s)
      else invoke s w

  unfoldable pub after_bulkhead : World → Result Failure (Unit {0}) × Controller → Attempt A
  unfolding after_circuit Control.before_call
  after_bulkhead w (err e, s) = record {
    result = err e;
    started = false;
    world = set_controller w s;
  }
  after_bulkhead w (ok _, s) =
      after_circuit (tick w) (Control.before_call r.policy (now w) r.identity s)

  unfoldable pub attempt_with : Option Controller → World → Attempt A
  unfolding after_bulkhead Control.acquire
  attempt_with none w = record {
    result = r.operation w.attempts_started;
    started = true;
    world = record w { attempts_started = w.attempts_started + 1 };
  }
  attempt_with (some s) w = after_bulkhead w (Control.acquire r.policy r.identity r.dependency s)

  -- The `try` block of the loop.
  unfoldable pub attempt : World → Attempt A
  unfolding attempt_with
  attempt w = attempt_with w.controller w
