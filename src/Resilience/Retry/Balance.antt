-- ===== src/Resilience/Retry/Balance.antt =====
-- What a call under sky-agent/app/resilience/retry.py leaves of the controller's reservations.
use cang_qiong_project.Common.{
  ℕ, zero, suc, ◌+◌, ◌-◌, ◌≤◌, ◌<◌, ◌≡◌, refl, ◌⊎◌, inl, inr, Bool, true, ◌&&◌, Option, none, some,
  List, [], ◌∷◌, arith, eq_refl, ltb, leb, ◌==◌, Bool-cases, Option-cases, Result, ok, err, update,
  update_self,
}
use cang_qiong_project.Resilience.Window.{expire}
use cang_qiong_project.Resilience.Circuit.{half_open}
use cang_qiong_project.Resilience.Control
use cang_qiong_project.Resilience.Control.{Controller}
use cang_qiong_project.Resilience.Failure.{Failure, FailureCategory, classify_failure, is_retryable}
use cang_qiong_project.Resilience.Retry.Once.{
  Request, World, conclude, invoke, after_limit, after_circuit, after_bulkhead, attempt_with,
  attempt, is_rate_limit,
}
use cang_qiong_project.Resilience.Retry.Attempts.{world_of, Round-cases}
use cang_qiong_project.Resilience.Retry.{
  is_unknown_write, record_failure_with, note_failure, take_budget, take_budget_with, give_up,
  sleep_or_give_up, handle, settle, round, loop, attempts_allowed, run_with_retry, now, tick,
}

abbrev IsRateRefusal : Result Failure (Unit {0}) → Type 0
IsRateRefusal (ok _) = Unit
IsRateRefusal (err e) = is_rate_limit e ≡ true

module _ {ℓ} {A : Type ℓ} (r : Request A) (n : ℕ) where
  -- The service has `n` permits left and no probe in flight.
  abbrev pub IsIdle : Option Controller → Type 0
  IsIdle none = Unit
  IsIdle (some s) =
      (s.bulkheads r.identity ≡ some n) × ((s.circuits r.identity).half_open_in_flight ≡ 0)

  -- One permit and perhaps a probe are taken.
  abbrev IsInside : Controller → Type 0
  IsInside s =
      (s.bulkheads r.identity ≡ some (n - 1))
      × (0 < n)
      × (((s.circuits r.identity).half_open_in_flight ≡ 0)
          ⊎ ((s.circuits r.identity).state ≡ half_open))

  -- After the attempt the permit is back; a probe is still in flight only where the operation
  -- raised, half open.
  abbrev IsLeft : Result Failure A → Bool → Option Controller → Type 0
  IsLeft x started none = Unit
  IsLeft (ok a) started (some s) = IsIdle (some s)
  IsLeft (err e) started (some s) =
      (s.bulkheads r.identity ≡ some n)
      × (((s.circuits r.identity).half_open_in_flight ≡ 0)
          ⊎ (started ≡ true) × ((s.circuits r.identity).state ≡ half_open))

  IsLeft-none : (x : Result Failure A) (started : Bool) → IsLeft x started none
  IsLeft-none (ok a) started = tt
  IsLeft-none (err e) started = tt

  conclude-IsLeft :
      (s : Controller) (w : World) (o : Result Failure A)
      → IsInside s
      → let a = conclude r s w o in IsLeft a.result a.started a.world.controller
  unfolding conclude
  conclude-IsLeft s w (ok a) h = ground (arith, eq_refl r.identity)
  conclude-IsLeft s w (err e) h = ground (arith, eq_refl r.identity)

  invoke-IsLeft :
      (s : Controller) (w : World)
      → IsInside s
      → let a = invoke r s w in IsLeft a.result a.started a.world.controller
  unfolding invoke
  invoke-IsLeft s w h =
      conclude-IsLeft s (record w { attempts_started = w.attempts_started + 1 })
        (r.operation w.attempts_started) h

  -- The provider limit touches neither the circuit nor the bulkhead.
  record IsLimited (s : Controller) (x : Result Failure (Unit {0})) (s' : Controller) : Type 0 where
    circuits_eq : s'.circuits r.identity ≡ s.circuits r.identity
    bulkheads_eq : s'.bulkheads r.identity ≡ s.bulkheads r.identity
    refused : IsRateRefusal x

  limit-IsLimited :
      (reading : ℕ) (s : Controller)
      → 0 < r.policy.provider_rate_limit
      → let p = Control.enforce_provider_limit r.digest r.policy reading r.identity s in
        IsLimited s p.0 p.1
  unfolding Control.enforce_provider_limit is_rate_limit
  limit-IsLimited reading s pos =
      by_deque
        (expire r.policy.rate_limit_window_seconds reading
          (s.rate_events "provider" (r.digest r.identity)))
        refl
    where
      by_deque :
          (d : List ℕ)
          → expire r.policy.rate_limit_window_seconds reading
              (s.rate_events "provider" (r.digest r.identity))
            ≡ d
          → let p = Control.enforce_provider_limit r.digest r.policy reading r.identity s in
            IsLimited s p.0 p.1
      by_deque [] e = record {
        circuits_eq = ground arith;
        bulkheads_eq = ground arith;
        refused = ground arith;
      }
      by_deque (x ∷ xs) e = record {
        circuits_eq = ground arith;
        bulkheads_eq = ground arith;
        refused = ground arith;
      }

  -- Where the limit refuses, the reservation of the probe is given back.
  after_limit-IsLeft :
      (w : World) (s s' : Controller) (x : Result Failure (Unit {0}))
      → IsLimited s x s'
      → IsInside s
      → (s.circuits r.identity).half_open_in_flight ≤ 1
      → let a = after_limit r w (x, s') in IsLeft a.result a.started a.world.controller
  unfolding after_limit Control.cancel_call Control.release
  after_limit-IsLeft w s s' (ok _) l h one =
      invoke-IsLeft s' w (ground (arith, l.circuits_eq, l.bulkheads_eq))
  after_limit-IsLeft w s s' (err e) l h one =
      ground (arith, l.circuits_eq, l.bulkheads_eq, l.refused, eq_refl r.identity)

  passed-IsLeft :
      (w : World) (s : Controller)
      → 0 < r.policy.provider_rate_limit
      → IsInside s
      → (s.circuits r.identity).half_open_in_flight ≤ 1
      → let a = after_circuit r w (ok tt, s) in IsLeft a.result a.started a.world.controller
  unfolding after_circuit
  passed-IsLeft w s pos h one = elim (Bool-cases r.provider_rate_limit) [
    | inl limited ↦
        rw limited (after_limit-IsLeft (tick w) s _ _ (limit-IsLimited (now r w) s pos) h one)
    | inr free ↦ rw free (invoke-IsLeft s w h)
  ]

  -- What `before_call` leaves of an idle circuit, by its result.
  abbrev IsTested : Result Failure (Unit {0}) → Controller → Type 0
  IsTested (ok _) s =
      (s.bulkheads r.identity ≡ some (n - 1))
      × ((s.circuits r.identity).half_open_in_flight ≤ 1)
      × (((s.circuits r.identity).half_open_in_flight ≡ 0)
          ⊎ ((s.circuits r.identity).state ≡ half_open))
  IsTested (err e) s =
      (s.bulkheads r.identity ≡ some (n - 1)) × ((s.circuits r.identity).half_open_in_flight ≡ 0)

  before_call-IsTested :
      (reading : ℕ) (s : Controller)
      → s.bulkheads r.identity ≡ some (n - 1)
      → (s.circuits r.identity).half_open_in_flight ≡ 0
      → let p = Control.before_call r.policy reading r.identity s in IsTested p.0 p.1
  unfolding Control.before_call
  before_call-IsTested reading s permits idle = ground (arith, eq_refl r.identity)

  after_circuit-IsLeft :
      (w : World) (x : Result Failure (Unit {0})) (s : Controller)
      → 0 < r.policy.provider_rate_limit
      → 0 < n
      → IsTested x s
      → let a = after_circuit r w (x, s) in IsLeft a.result a.started a.world.controller
  after_circuit-IsLeft w (ok tt) s pos posn h = passed-IsLeft w s pos (h.0, posn, h.2) h.1
  after_circuit-IsLeft w (err e) s pos posn h =
      unfold after_circuit Control.release in ground (arith, eq_refl r.identity)

  -- An attempt from an idle service.
  attempt_with-IsLeft :
      (c : Option Controller) (w : World)
      → 0 < r.policy.provider_rate_limit
      → w.controller ≡ c
      → IsIdle c
      → let a = attempt_with r c w in IsLeft a.result a.started a.world.controller
  unfolding attempt_with after_bulkhead Control.acquire
  attempt_with-IsLeft none w pos e h = rw e (IsLeft-none (r.operation w.attempts_started) true)
  attempt_with-IsLeft (some s) w pos e (permits, idle) = elim (Bool-cases (n == 0)) [
    | inl empty ↦ rw (permits, empty) (ground (arith, eq_refl r.identity))
    | inr room ↦
        rw (permits, room)
          (after_circuit-IsLeft (tick w) _ _ pos (ground arith) (
            before_call-IsTested (now r w)
              (record s { bulkheads = update s.bulkheads r.identity (some (n - 1)) })
              (update_self s.bulkheads r.identity (some (n - 1))) idle))
  ]

  attempt-IsLeft :
      (w : World)
      → 0 < r.policy.provider_rate_limit
      → IsIdle w.controller
      → let a = attempt r w in IsLeft a.result a.started a.world.controller
  unfolding attempt
  attempt-IsLeft w pos h = attempt_with-IsLeft w.controller w pos refl h

  -- The handler records the failure of a probe, which takes it out of flight.
  note_failure-IsIdle :
      (e : Failure) (started safe : Bool) (w : World)
      → IsLeft (err e) started w.controller
      → IsIdle (note_failure r started safe w).controller
  unfolding note_failure record_failure_with Control.record_failure
  note_failure-IsIdle e started safe w h = ground (arith, eq_refl r.identity)

  take_budget-IsIdle :
      (wanted : Bool) (w : World)
      → IsIdle w.controller
      → IsIdle (take_budget r wanted w).1.controller
  unfolding take_budget take_budget_with Control.consume_retry_budget
  take_budget-IsIdle wanted w h = ground arith

  -- The reservations are those after the failure is noted and the budget asked.
  handle-controller :
      (deadline : Option ℕ) (allowed k : ℕ) (e : Failure) (started : Bool) (c : FailureCategory)
      (safe : Bool) (w : World)
      → (world_of (handle r deadline allowed k e started c safe w)).controller
        ≡ (take_budget r (ltb k allowed && safe) (note_failure r started safe w)).1.controller
  unfolding handle sleep_or_give_up give_up
  handle-controller none allowed k e started c safe w = ground arith
  handle-controller (some d) allowed k e started c safe w = ground arith

  settle-IsIdle :
      (deadline : Option ℕ) (allowed k : ℕ) (x : Result Failure A) (started : Bool) (w : World)
      → IsLeft x started w.controller
      → IsIdle (world_of (settle r deadline allowed k x started w)).controller
  unfolding settle record_failure_with Control.record_failure
  settle-IsIdle deadline allowed k (ok a) started w h = ground arith
  settle-IsIdle deadline allowed k (err e) started w h = elim (Bool-cases (is_unknown_write e)) [
    | inl u ↦ rw u (ground (arith, eq_refl r.identity))
    | inr u ↦
        let category = classify_failure e r.dependency r.operation_type in
        let safe = is_retryable category r.operation_type in
        rw (u, handle-controller deadline allowed k e started category safe w)
          (take_budget-IsIdle (ltb k allowed && safe) (note_failure r started safe w)
            (note_failure-IsIdle e started safe w h))
  ]

  round-IsIdle :
      (deadline : Option ℕ) (allowed k : ℕ) (last : Option FailureCategory) (w : World)
      → 0 < r.policy.provider_rate_limit
      → IsIdle w.controller
      → IsIdle (world_of (round r deadline allowed k last w)).controller
  unfolding round
  round-IsIdle none allowed k last w pos h =
      let a = attempt r w in
      settle-IsIdle none allowed k a.result a.started a.world (attempt-IsLeft w pos h)
  round-IsIdle (some d) allowed k last w pos h = elim (Bool-cases (leb d (now r w))) [
    | inl over ↦ rw over h
    | inr live ↦
        let a = attempt r (tick w) in
        rw live (
          settle-IsIdle (some d) allowed k a.result a.started a.world
            (attempt-IsLeft (tick w) pos h))
  ]

  loop-IsIdle :
      (deadline : Option ℕ) (allowed left k : ℕ) (last : Option FailureCategory) (w : World)
      → 0 < r.policy.provider_rate_limit
      → IsIdle w.controller
      → IsIdle (loop r deadline allowed left k last w).1.controller
  unfolding loop
  loop-IsIdle deadline allowed zero k none w pos h = h
  loop-IsIdle deadline allowed zero k (some c) w pos h = h
  loop-IsIdle deadline allowed (suc left) k last w pos h =
      let idle = round-IsIdle deadline allowed k last w pos h in
      elim (Round-cases (round r deadline allowed k last w)) [
        | inl (x, e) ↦ rw (e, loop) (rw e at idle)
        | inr (c, w', e) ↦
            rw (e, loop) (loop-IsIdle deadline allowed left (k + 1) (some c) w' pos (rw e at idle))
      ]

  -- A call gives back what it reserves. If its service has `n` permits and no probe in flight
  -- when it starts, that is so when it ends, however its attempts went: refused, limited,
  -- successful, failed or of unknown outcome. The provider limit is positive.
  pub run_with_retry-IsIdle :
      (w : World)
      → 0 < r.policy.provider_rate_limit
      → IsIdle w.controller
      → IsIdle (run_with_retry r w).1.controller
  unfolding run_with_retry
  run_with_retry-IsIdle w pos h = elim (Option-cases r.deadline) [
    | inl e ↦ rw e (loop-IsIdle _ (attempts_allowed r) (attempts_allowed r) 1 none (tick w) pos h)
    | inr (d, e) ↦
        rw e (loop-IsIdle (some d) (attempts_allowed r) (attempts_allowed r) 1 none w pos h)
  ]
