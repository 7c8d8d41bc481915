-- ===== src/Resilience/Circuit/Invariant.antt =====
-- What holds of a circuit between two calls, for every interleaving of the callers' operations.
use cang_qiong_project.Common.{
  ◌≤◌, ◌<◌, ◌≡◌, Bool, true, false, List, [], ◌∷◌, arith, ltb, if◌then◌else◌,
}
use cang_qiong_project.Resilience.Config.{ResilienceConfig}
use cang_qiong_project.Resilience.Circuit.Events.{Event, call, success, failure, cancel, step, run}
use cang_qiong_project.Resilience.Circuit.{closed, half_open, CircuitState, CircuitRecord, new}

abbrev pub is_closed : CircuitState → Bool
is_closed closed = true
is_closed _ = false

abbrev pub is_half_open : CircuitState → Bool
is_half_open half_open = true
is_half_open _ = false

pub record IsConsistent (cfg : ResilienceConfig) (c : CircuitRecord) : Type 0 where
  pub below_threshold : ltb c.failure_count cfg.circuit_failure_threshold ≡ is_closed c.state
  pub probes :
      c.half_open_in_flight ≤ (if is_half_open c.state then cfg.circuit_half_open_attempts else 0)

-- Every operation of every thread keeps the circuit consistent.
pub step-IsConsistent :
    (cfg : ResilienceConfig) (c : CircuitRecord) (e : Event)
    → 0 < cfg.circuit_failure_threshold
    → IsConsistent cfg c
    → IsConsistent cfg (step cfg c e)
unfolding step
step-IsConsistent cfg c (call now) pos inv = ground arith
step-IsConsistent cfg c success pos inv = ground arith
step-IsConsistent cfg c (failure now) pos inv = ground arith
step-IsConsistent cfg c cancel pos inv = ground arith

-- Whatever the calls, successes, failures and cancellations and their order, a circuit
-- that starts consistent has fewer failures than the threshold exactly while it is closed, and at
-- most `circuit_half_open_attempts` probes in flight, none of them unless it is half open. The
-- threshold is positive.
pub run-IsConsistent :
    (cfg : ResilienceConfig) (c : CircuitRecord) (events : List Event)
    → 0 < cfg.circuit_failure_threshold
    → IsConsistent cfg c
    → IsConsistent cfg (run cfg c events)
unfolding run
run-IsConsistent cfg c [] pos inv = inv
run-IsConsistent cfg c (e ∷ es) pos inv =
    run-IsConsistent cfg (step cfg c e) es pos (step-IsConsistent cfg c e pos inv)

pub new-IsConsistent :
    (cfg : ResilienceConfig) → 0 < cfg.circuit_failure_threshold → IsConsistent cfg new
new-IsConsistent cfg pos = ground arith
