-- ===== src/Resilience/Retry/Writes.antt =====
-- Writes under sky-agent/app/resilience/retry.py: they are never replayed.
use cang_qiong_project.Common.{
  ℕ, suc, ◌+◌, ◌≡◌, refl, ◌⊎◌, inl, inr, Bool, true, false, Option, none, some, arith, ◌=ₛ◌,
  Bool-cases, Option-cases, Result, ok, err,
}
use cang_qiong_project.Resilience.Failure.{
  Failure, FailureCategory, is_retryable, classify_failure, retry_exhausted,
}
use cang_qiong_project.Resilience.Control.{Controller}
use cang_qiong_project.Resilience.Retry.Once.{
  Request, World, conclude, invoke, after_limit, after_circuit, after_bulkhead, attempt_with,
  attempt,
}
use cang_qiong_project.Resilience.Retry.Attempts.{settle-attempts, world_of, invoke-attempts}
use cang_qiong_project.Resilience.Retry.{
  done, is_unknown_write, give_up, handle, settle, round, loop, attempts_allowed, run_with_retry,
  tick_if, is_over, now, last_or_unknown, sequence_deadline, tick,
}

module _ {ℓ} {A : Type ℓ} (r : Request A) where
  -- How an attempt at a write may end: before the operation, or with what the operation gave.
  abbrev pub Once : World → Result Failure A → World → Type ℓ
  Once w x w' =
      (w'.attempts_started ≡ w.attempts_started)
      ⊎ (w'.attempts_started ≡ w.attempts_started + 1) × (x ≡ r.operation w.attempts_started)

  conclude-result :
      (s : Controller) (w : World) (o : Result Failure A) → (conclude r s w o).result ≡ o
  unfolding conclude
  conclude-result s w (ok a) = refl
  conclude-result s w (err e) = refl

  invoke-Once : (s : Controller) (w : World) → Once w (invoke r s w).result (invoke r s w).world
  unfolding invoke
  invoke-Once s w = inr (
    invoke-attempts r s w,
    conclude-result s (record w { attempts_started = w.attempts_started + 1 })
        (r.operation w.attempts_started),
  )

  attempt-Once : (w : World) → Once w (attempt r w).result (attempt r w).world
  unfolding attempt attempt_with after_bulkhead after_circuit after_limit
  attempt-Once w = grind (arith, invoke-Once)

  handle-write :
      (deadline : Option ℕ) (allowed n : ℕ) (e : Failure) (started : Bool) (c : FailureCategory)
      (w : World)
      → let h = handle r deadline allowed n e started c false w in h ≡ done (err e, world_of h)
  unfolding handle give_up
  handle-write deadline allowed n e started c w = ground arith

  -- The handler passes on what the attempt at a write gave.
  settle-write :
      (deadline : Option ℕ) (allowed n : ℕ) (x : Result Failure A) (started : Bool) (w : World)
      → (r.operation_type =ₛ "write") ≡ true
      → let s = settle r deadline allowed n x started w in s ≡ done (x, world_of s)
  unfolding settle is_retryable
  settle-write deadline allowed n (ok a) started w h = refl
  settle-write deadline allowed n (err e) started w h =
      rw h (elim (Bool-cases (is_unknown_write e)) [
        | inl u ↦ rw u refl
        | inr u ↦ rw u (
            handle-write deadline allowed n e started
              (classify_failure e r.dependency r.operation_type) w)
      ])

  tick_if-attempts :
      (deadline : Option ℕ) (w : World)
      → (tick_if r deadline w).attempts_started ≡ w.attempts_started
  tick_if-attempts none w = refl
  tick_if-attempts (some d) w = refl

  round-write :
      (deadline : Option ℕ) (allowed n : ℕ) (last : Option FailureCategory) (w : World)
      → (r.operation_type =ₛ "write") ≡ true
      → (y : Result Failure A × World) × (round r deadline allowed n last w ≡ done y)
        × Once w y.0 y.1
  unfolding round
  round-write deadline allowed n last w h =
      let w' = tick_if r deadline w in
      let a = attempt r w' in
      let s = settle r deadline allowed n a.result a.started a.world in
      elim (Bool-cases (is_over r deadline (now r w))) [
        | inl over ↦ (
          (err (retry_exhausted (last_or_unknown r last) w.attempts_started), w'),
          rw over,
          inl (tick_if-attempts deadline w),
        )
        | inr live ↦ (
          (a.result, world_of s),
          rw live (settle-write deadline allowed n a.result a.started a.world h),
          ground (
            arith,
            attempt-Once w',
            tick_if-attempts deadline w,
            settle-attempts r deadline allowed n a.result a.started a.world,
          ),
        )
      ]

  loop-write :
      (deadline : Option ℕ) (allowed left : ℕ) (w : World)
      → (r.operation_type =ₛ "write") ≡ true
      → Once w
          (loop r deadline allowed (suc left) 1 none w).0
          (loop r deadline allowed (suc left) 1 none w).1
  unfolding loop
  loop-write deadline allowed left w h =
      let (y, e, once) = round-write deadline allowed 1 none w h in rw (e, loop) once

  attempts_allowed-pos : (k : ℕ) × (attempts_allowed r ≡ suc k)
  unfolding attempts_allowed
  attempts_allowed-pos = elim (Bool-cases r.policy.enabled) [
    | inl e ↦ (r.policy.max_retries, rw e (omega arith))
    | inr e ↦ (0, rw e)
  ]

  loop_all-write :
      (deadline : Option ℕ) (w : World)
      → (r.operation_type =ₛ "write") ≡ true
      → let x = loop r deadline (attempts_allowed r) (attempts_allowed r) 1 none w in Once w x.0 x.1
  loop_all-write deadline w h =
      let (k, e) = attempts_allowed-pos in rw e (loop-write deadline (suc k) k w h)

  -- A write is never replayed. Whatever the controller, the budgets, the deadline and the
  -- configuration, a call with operation type "write" either does not invoke its operation, or
  -- invokes it once and returns, or raises, just what that one invocation returned or raised.
  pub run_with_retry-write-Once :
      (w : World)
      → (r.operation_type =ₛ "write") ≡ true
      → Once w (run_with_retry r w).0 (run_with_retry r w).1
  unfolding run_with_retry
  run_with_retry-write-Once w h = elim (Option-cases r.deadline) [
    | inl e ↦ rw e (
        loop_all-write (sequence_deadline (now r w) r.timeout_seconds (attempts_allowed r) r.policy)
          (tick w) h)
    | inr (d, e) ↦ rw e (loop_all-write (some d) w h)
  ]
