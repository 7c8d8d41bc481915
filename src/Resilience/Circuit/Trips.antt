-- ===== src/Resilience/Circuit/Trips.antt =====
-- When a circuit trips and when it recovers.
use cang_qiong_project.Common.{
  ℕ, suc, ◌+◌, ◌≤◌, ◌<◌, ◌≡◌, refl, true, false, List, [], ◌∷◌, arith, leb, if◌then◌else◌, length,
  All,
}
use cang_qiong_project.Resilience.Config.{ResilienceConfig}
use mathlib.Core.List.{map}
use cang_qiong_project.Resilience.Circuit.Events.{call, failure, step, run}
use cang_qiong_project.Resilience.Circuit.{
  closed, opened, half_open, CircuitRecord, before_call, record_success, cancel_call,
  record_failure,
}

-- A closed circuit counts failures, and trips at the threshold: failures that leave it below the
-- threshold keep it closed, and the next failure opens it, at its own time, exactly where the
-- number of failures reaches the threshold.
pub failures_trip :
    (cfg : ResilienceConfig) (c : CircuitRecord) (times : List ℕ) (t : ℕ)
    → c.state ≡ closed
    → c.failure_count + length times < cfg.circuit_failure_threshold
    → let c' = run cfg c (map failure times) in
      let c'' = step cfg c' (failure t) in
      let trips = leb cfg.circuit_failure_threshold (c.failure_count + length times + 1) in
      (c'.state ≡ closed)
      × (c'.failure_count ≡ c.failure_count + length times)
      × (c''.state ≡ (if trips then opened else closed))
      × (c''.opened_at ≡ (if trips then t else c.opened_at))
unfolding run step
failures_trip cfg c [] t closed_ below = ground arith
failures_trip cfg c (u ∷ us) t closed_ below =
    ground (arith, failures_trip cfg (record c { failure_count = c.failure_count + 1 }) us t)

-- An opened circuit lets no call through before its recovery time, and the calls that it refuses
-- change nothing.
opened_refuses :
    (cfg : ResilienceConfig) (c : CircuitRecord) (times : List ℕ)
    → c.state ≡ opened
    → All (λ t. t < c.opened_at + cfg.circuit_recovery_seconds) times
    → (run cfg c (map call times) ≡ c) × All (λ t. (before_call cfg t c).1 ≡ false) times
unfolding run step
opened_refuses cfg c [] opened_ early = (refl, tt)
opened_refuses cfg c (t ∷ ts) opened_ (early, later) =
    ground (arith, opened_refuses cfg c ts opened_ later)

-- Once the recovery time has passed, an opened circuit lets a first probe through, half open. Its
-- success closes the circuit with no failure counted, its failure opens it again at the time of
-- the failure, and its cancellation gives the reservation back. At least one probe is allowed.
recovery_probe :
    (cfg : ResilienceConfig) (c : CircuitRecord) (now t : ℕ)
    → c.state ≡ opened
    → c.opened_at + cfg.circuit_recovery_seconds ≤ now
    → 0 < cfg.circuit_half_open_attempts
    → let (probing, admitted) = before_call cfg now c in
      (admitted ≡ true)
      × (probing.state ≡ half_open)
      × (probing.half_open_in_flight ≡ 1)
      × ((record_success probing).state ≡ closed)
      × ((record_success probing).failure_count ≡ 0)
      × ((record_failure cfg t probing).state ≡ opened)
      × ((record_failure cfg t probing).opened_at ≡ t)
      × ((cancel_call probing).state ≡ half_open)
      × ((cancel_call probing).half_open_in_flight ≡ 0)
unfolding before_call record_success record_failure cancel_call
recovery_probe cfg c now t opened_ late pos = ground arith

-- The calls of `times` that a circuit lets through, with no result reported in between.
pub let_through : ResilienceConfig → CircuitRecord → List ℕ → ℕ
let_through cfg c [] = 0
let_through cfg c (t ∷ ts) =
    let (c', admitted) = before_call cfg t c in
    let rest = let_through cfg c' ts in if admitted then suc rest else rest

half_open-let_through :
    (cfg : ResilienceConfig) (c : CircuitRecord) (times : List ℕ)
    → c.state ≡ half_open
    → c.half_open_in_flight ≤ cfg.circuit_half_open_attempts
    → let_through cfg c times + c.half_open_in_flight ≤ cfg.circuit_half_open_attempts
unfolding let_through before_call
half_open-let_through cfg c [] h bounded = omega arith
half_open-let_through cfg c (t ∷ ts) h bounded = ground (
  arith,
  half_open-let_through cfg c ts h bounded,
  half_open-let_through cfg
      (record c {
        half_open_in_flight = c.half_open_in_flight + 1;
        recovery_attempts = c.recovery_attempts + 1;
      })
      ts h,
)

-- However many calls arrive at an opened circuit and whenever they do, it lets at most
-- `circuit_half_open_attempts` through until one of them reports its result.
pub opened-let_through :
    (cfg : ResilienceConfig) (c : CircuitRecord) (times : List ℕ)
    → c.state ≡ opened
    → let_through cfg c times ≤ cfg.circuit_half_open_attempts
unfolding let_through before_call
opened-let_through cfg c [] h = omega arith
opened-let_through cfg c (t ∷ ts) h = ground (
  arith,
  opened-let_through cfg c ts h,
  half_open-let_through cfg (record c { state = half_open; half_open_in_flight = 0 }) ts,
  half_open-let_through cfg
      (record c {
        state = half_open;
        half_open_in_flight = 1;
        recovery_attempts = c.recovery_attempts + 1;
      })
      ts,
)
