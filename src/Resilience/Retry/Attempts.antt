-- ===== src/Resilience/Retry/Attempts.antt =====
-- How often the loop of sky-agent/app/resilience/retry.py invokes its operation.
use cang_qiong_project.Common.{
  ℕ, zero, suc, ◌+◌, ◌≤◌, ◌≡◌, refl, ◌⊎◌, inl, inr, Bool, ◌&&◌, Option, none, some, arith, ltb,
  if◌then◌else◌, Result, ok, err,
}
use cang_qiong_project.Resilience.Failure.{Failure, FailureCategory}
use cang_qiong_project.Resilience.Control.{Controller}
use cang_qiong_project.Resilience.Retry.Once.{
  Request, World, conclude, invoke, after_limit, after_circuit, after_bulkhead, attempt_with,
  attempt,
}
use cang_qiong_project.Resilience.Retry.{
  Round, done, again, record_failure_with, note_failure, take_budget, take_budget_with, give_up,
  sleep_or_give_up, handle, settle, round, loop, attempts_allowed, run_with_retry,
}

abbrev pub world_of {ℓ} : {A : Type ℓ} → Round A → World
world_of (done (x, w)) = w
world_of (again c w) = w

pub Round-cases {ℓ} :
    {A : Type ℓ} (x : Round A)
    → ((y : Result Failure A × World) × (x ≡ done y))
      ⊎ ((c : FailureCategory) × (w : World) × (x ≡ again c w))
Round-cases (done y) = inl (y, refl)
Round-cases (again c w) = inr (c, w, refl)

module _ {ℓ} {A : Type ℓ} (r : Request A) where
  conclude-attempts :
      (s : Controller) (w : World) (o : Result Failure A)
      → (conclude r s w o).world.attempts_started ≡ w.attempts_started
  unfolding conclude
  conclude-attempts s w (ok a) = refl
  conclude-attempts s w (err e) = refl

  pub invoke-attempts :
      (s : Controller) (w : World) → (invoke r s w).world.attempts_started ≡ w.attempts_started + 1
  unfolding invoke
  invoke-attempts s w =
      conclude-attempts s (record w { attempts_started = w.attempts_started + 1 })
        (r.operation w.attempts_started)

  -- An attempt invokes the operation at most once.
  pub attempt-attempts : (w : World) → (attempt r w).world.attempts_started ≤ w.attempts_started + 1
  unfolding attempt attempt_with after_bulkhead after_circuit after_limit
  attempt-attempts w = grind (arith, invoke-attempts)

  note_failure-attempts :
      (started replay_safe : Bool) (w : World)
      → (note_failure r started replay_safe w).attempts_started ≡ w.attempts_started
  unfolding note_failure record_failure_with
  note_failure-attempts started replay_safe w = ground arith

  take_budget-attempts :
      (wanted : Bool) (w : World) → (take_budget r wanted w).1.attempts_started ≡ w.attempts_started
  unfolding take_budget take_budget_with
  take_budget-attempts wanted w = ground arith

  handle-attempts :
      (deadline : Option ℕ) (allowed n : ℕ) (e : Failure) (started : Bool) (c : FailureCategory)
      (safe : Bool) (w : World)
      → (world_of (handle r deadline allowed n e started c safe w)).attempts_started
        ≡ w.attempts_started
  unfolding handle sleep_or_give_up give_up
  handle-attempts deadline allowed n e started c safe w = ground (
    arith,
    note_failure-attempts started safe w,
    take_budget-attempts (ltb n allowed && safe) (note_failure r started safe w),
  )

  pub settle-attempts :
      (deadline : Option ℕ) (allowed n : ℕ) (x : Result Failure A) (started : Bool) (w : World)
      → (world_of (settle r deadline allowed n x started w)).attempts_started ≡ w.attempts_started
  unfolding settle record_failure_with
  settle-attempts deadline allowed n (ok a) started w = refl
  settle-attempts deadline allowed n (err e) started w = grind (arith, handle-attempts)

  pub round-attempts :
      (deadline : Option ℕ) (allowed n : ℕ) (last : Option FailureCategory) (w : World)
      → (world_of (round r deadline allowed n last w)).attempts_started ≤ w.attempts_started + 1
  unfolding round
  round-attempts deadline allowed n last w = grind (arith, settle-attempts, attempt-attempts)

  loop-attempts :
      (deadline : Option ℕ) (allowed left n : ℕ) (last : Option FailureCategory) (w : World)
      → (loop r deadline allowed left n last w).1.attempts_started ≤ w.attempts_started + left
  unfolding loop
  loop-attempts deadline allowed zero n none w = omega arith
  loop-attempts deadline allowed zero n (some c) w = omega arith
  loop-attempts deadline allowed (suc left) n last w =
      elim (Round-cases (round r deadline allowed n last w)) [
        | inl (x, e) ↦ ground (arith, e, round-attempts deadline allowed n last w)
        | inr (c, w', e) ↦ ground (
          arith,
          e,
          round-attempts deadline allowed n last w,
          loop-attempts deadline allowed left (n + 1) (some c) w',
        )
      ]

  -- However its operation behaves, a call invokes it at most once more than `max_retries`, and at
  -- most once where retries are disabled.
  pub run_with_retry-attempts :
      (w : World)
      → (run_with_retry r w).1.attempts_started
        ≤ w.attempts_started + (if r.policy.enabled then r.policy.max_retries + 1 else 1)
  unfolding run_with_retry attempts_allowed
  run_with_retry-attempts w = grind (arith, loop-attempts)
