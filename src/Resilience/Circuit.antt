-- ===== src/Resilience/Circuit.antt =====
-- The circuit breaker of sky-agent/app/resilience/control.py, one record of one service.
pub mod Events
pub mod Invariant
pub mod Trips
use cang_qiong_project.Common.{ℕ, ◌+◌, ◌-◌, Bool, true, false, ltb, leb, if◌then◌else◌}
use cang_qiong_project.Resilience.Config.{ResilienceConfig}

-- `opened` is the state OPEN.
pub data CircuitState : Type 0 where
  closed opened half_open : CircuitState

pub record CircuitRecord : Type 0 where
  pub state : CircuitState
  pub failure_count : ℕ
  pub opened_at : ℕ
  pub half_open_in_flight : ℕ
  pub recovery_attempts : ℕ

abbrev pub new : CircuitRecord
new = record {
  state = closed;
  failure_count = 0;
  opened_at = 0;
  half_open_in_flight = 0;
  recovery_attempts = 0;
}

-- The second test of `before_call`: a probe is reserved, or the call is refused.
reserve_probe : ResilienceConfig → CircuitRecord → CircuitRecord × Bool
reserve_probe cfg c =
    if leb cfg.circuit_half_open_attempts c.half_open_in_flight then (c, false) else (
      record c {
        half_open_in_flight = c.half_open_in_flight + 1;
        recovery_attempts = c.recovery_attempts + 1;
      },
      true,
    )

before_call_at : CircuitState → ResilienceConfig → ℕ → CircuitRecord → CircuitRecord × Bool
unfolding reserve_probe
before_call_at closed cfg now c = (c, true)
before_call_at opened cfg now c =
    if ltb now (c.opened_at + cfg.circuit_recovery_seconds)
    then (c, false)
    else reserve_probe cfg (record c { state = half_open; half_open_in_flight = 0 })
before_call_at half_open cfg now c = reserve_probe cfg c

-- `before_call`; false where it raises `CircuitOpenError`. The test on `now - opened_at` is
-- written with a sum, so that no difference falls below 0.
unfoldable pub before_call : ResilienceConfig → ℕ → CircuitRecord → CircuitRecord × Bool
unfolding before_call_at
before_call cfg now c = before_call_at c.state cfg now c

unfoldable pub record_success : CircuitRecord → CircuitRecord
record_success c = record c { state = closed; failure_count = 0; half_open_in_flight = 0 }

cancel_call_at : CircuitState → CircuitRecord → CircuitRecord
cancel_call_at half_open c =
    if ltb 0 c.half_open_in_flight
    then record c { half_open_in_flight = c.half_open_in_flight - 1 }
    else c
cancel_call_at _ c = c

unfoldable pub cancel_call : CircuitRecord → CircuitRecord
unfolding cancel_call_at
cancel_call c = cancel_call_at c.state c

open_circuit : ℕ → CircuitRecord → CircuitRecord
open_circuit now c = record c { state = opened; opened_at = now; half_open_in_flight = 0 }

count_failure : ResilienceConfig → ℕ → CircuitRecord → CircuitRecord
unfolding open_circuit
count_failure cfg now c =
    let c' = record c { failure_count = c.failure_count + 1 } in
    if leb cfg.circuit_failure_threshold c'.failure_count then open_circuit now c' else c'

record_failure_at : CircuitState → ResilienceConfig → ℕ → CircuitRecord → CircuitRecord
unfolding open_circuit count_failure
record_failure_at half_open cfg now c = open_circuit now c
record_failure_at _ cfg now c = count_failure cfg now c

unfoldable pub record_failure : ResilienceConfig → ℕ → CircuitRecord → CircuitRecord
unfolding record_failure_at
record_failure cfg now c = record_failure_at c.state cfg now c
