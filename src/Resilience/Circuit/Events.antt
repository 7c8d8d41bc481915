-- ===== src/Resilience/Circuit/Events.antt =====
-- The operations of several threads on one circuit of sky-agent/app/resilience/control.py, in the
-- order in which they take the controller's lock.
use cang_qiong_project.Common.{ℕ, List, [], ◌∷◌}
use cang_qiong_project.Resilience.Config.{ResilienceConfig}
use cang_qiong_project.Resilience.Circuit.{
  CircuitRecord, before_call, record_success, cancel_call, record_failure,
}

-- The operations that threads make on one circuit; each runs under the controller's lock.
pub data Event : Type 0 where
  call : ℕ → Event
  success : Event
  failure : ℕ → Event
  cancel : Event

unfoldable pub step : ResilienceConfig → CircuitRecord → Event → CircuitRecord
unfolding before_call record_success record_failure cancel_call
step cfg c (call now) = (before_call cfg now c).0
step cfg c success = record_success c
step cfg c (failure now) = record_failure cfg now c
step cfg c cancel = cancel_call c

unfoldable pub run : ResilienceConfig → CircuitRecord → List Event → CircuitRecord
run cfg c [] = c
run cfg c (e ∷ es) = run cfg (step cfg c e) es
