-- ===== src/Resilience/Retry.antt =====
-- `run_with_retry` of sky-agent/app/resilience/retry.py: the handler and the loop. Times are whole
-- nanoseconds. Metrics and tracing spans are left out.
pub mod Delay
pub mod Once
pub mod Attempts
pub mod Writes
pub mod Balance
use cang_qiong_project.Common.{
  ℕ, zero, suc, ◌+◌, ◌-◌, min, Bool, true, false, ◌&&◌, ◌||◌, Option, none, some, [], ◌∷◌, ◌++◌,
  ltb, leb, if◌then◌else◌, Result, ok, err,
}
use cang_qiong_project.Resilience.Failure.{
  Failure, FailureCategory, retry_exhausted, retry_budget_exhausted_error, unknown_write_outcome,
  assertion_error, unknown_dependency_failure, retry_budget_exhausted, classify_failure,
  is_retryable,
}
use cang_qiong_project.Resilience.Circuit.{CircuitState, half_open}
use cang_qiong_project.Resilience.Control
use cang_qiong_project.Resilience.Control.{Controller, circuit_state}
use cang_qiong_project.Resilience.Retry.Once.{
  Request, World, set_controller, tick, Attempt, now, attempt,
}
use cang_qiong_project.Resilience.Retry.Delay.{retry_delay, sequence_deadline}

pub is_unknown_write : Failure → Bool
is_unknown_write (unknown_write_outcome tool) = true
is_unknown_write _ = false

pub is_budget_exhausted : FailureCategory → Bool
is_budget_exhausted retry_budget_exhausted = true
is_budget_exhausted _ = false

-- How a round of the loop ends: the call returns or raises, or the loop goes on.
pub data Round {ℓ} (A : Type ℓ) : Type ℓ where
  done : Result Failure A × World → Round A
  again : FailureCategory → World → Round A

module _ {ℓ} {A : Type ℓ} (r : Request A) where
  -- `controller.record_failure(identity)`, if there is a controller.
  pub record_failure_with : Option Controller → World → World
  unfolding Control.record_failure
  record_failure_with none w = w
  record_failure_with (some s) w =
      set_controller (tick w) (Control.record_failure r.policy (now r w) r.identity s)

  abbrev pub is_half_open : CircuitState → Bool
  is_half_open half_open = true
  is_half_open _ = false

  -- The guard of `record_failure` in the handler.
  abbrev pub counts_against_circuit : Bool → Bool → Option Controller → Bool
  counts_against_circuit started replay_safe none = false
  counts_against_circuit started replay_safe (some s) =
      started && (replay_safe || is_half_open (circuit_state r.identity s))

  pub note_failure : Bool → Bool → World → World
  unfolding record_failure_with
  note_failure started replay_safe w =
      if counts_against_circuit started replay_safe w.controller
      then record_failure_with w.controller w
      else w

  -- `consume_retry_budget`, which a call with no controller does not have.
  pub take_budget_with : Option Controller → World → Bool × World
  unfolding Control.consume_retry_budget
  take_budget_with none w = (true, w)
  take_budget_with (some s) w =
      let (granted, s') = Control.consume_retry_budget r.policy (now r w) r.identity s in
      (granted, set_controller (tick w) s')

  pub take_budget : Bool → World → Bool × World
  unfolding take_budget_with
  take_budget wanted w = if wanted then take_budget_with w.controller w else (true, w)

  abbrev pub next_attempt_budget : ℕ
  next_attempt_budget = elim r.timeout_seconds [ none ↦ 0 | some t ↦ t ]

  -- The delay that the deadline leaves, or `none` where it leaves no further attempt; the
  -- comparisons are written with sums.
  pub fit_delay : Option ℕ → ℕ → ℕ → Option ℕ
  fit_delay none reading delay = some delay
  fit_delay (some deadline) reading delay =
      if leb deadline (reading + next_attempt_budget)
      then none
      else some (min delay (deadline - reading - next_attempt_budget))

  abbrev pub tick_if : Option ℕ → World → World
  tick_if none w = w
  tick_if (some _) w = tick w

  -- `raise` at the end of the handler: the exception itself where it may not be tried again.
  pub give_up : Failure → Bool → FailureCategory → World → Result Failure A × World
  unfolding is_budget_exhausted
  give_up error replay_safe category w = (
    err (
        if replay_safe
        then (if is_budget_exhausted category
            then retry_budget_exhausted_error r.identity
            else retry_exhausted category w.attempts_started)
        else error),
    w,
  )

  -- The end of the handler, with the delay that the deadline leaves, if it leaves one.
  pub sleep_or_give_up : Failure → Bool → FailureCategory → World → Option ℕ → Round A
  unfolding give_up
  sleep_or_give_up error replay_safe category w none = done (give_up error replay_safe category w)
  sleep_or_give_up error replay_safe category w (some delay) =
      again category (record w { slept = w.slept ++ delay ∷ [] })

  -- `except Exception`, for the category of the exception and whether it may be tried again.
  pub handle : Option ℕ → ℕ → ℕ → Failure → Bool → FailureCategory → Bool → World → Round A
  unfolding note_failure take_budget fit_delay sleep_or_give_up give_up retry_delay
  handle deadline allowed n error started category replay_safe w =
      let wanted = ltb n allowed && replay_safe in
      let delay = retry_delay error n r.policy (r.random_source n) (r.wall_clock n) in
      let (granted, w') = take_budget wanted (note_failure started replay_safe w) in
      if wanted && granted
      then sleep_or_give_up error replay_safe category (tick_if deadline w')
          (fit_delay deadline (now r w') delay)
      else done
          (give_up error replay_safe (if granted then category else retry_budget_exhausted) w')

  -- The two `except` blocks, the one of `UnknownWriteOutcomeError` first.
  pub settle : Option ℕ → ℕ → ℕ → Result Failure A → Bool → World → Round A
  unfolding handle record_failure_with is_unknown_write classify_failure is_retryable
  settle deadline allowed n (ok a) started w = done (ok a, w)
  settle deadline allowed n (err e) started w =
      if is_unknown_write e
      then done (err e, record_failure_with w.controller w)
      else (let category = classify_failure e r.dependency r.operation_type in
          handle deadline allowed n e started category (is_retryable category r.operation_type) w)

  abbrev pub is_over : Option ℕ → ℕ → Bool
  is_over none reading = false
  is_over (some deadline) reading = leb deadline reading

  abbrev pub last_or_unknown : Option FailureCategory → FailureCategory
  last_or_unknown none = unknown_dependency_failure
  last_or_unknown (some c) = c

  -- One round of the loop, attempt `n` of `allowed`.
  pub round : Option ℕ → ℕ → ℕ → Option FailureCategory → World → Round A
  unfolding settle attempt
  round deadline allowed n last w =
      if is_over deadline (now r w)
      then done
          (err (retry_exhausted (last_or_unknown last) w.attempts_started), tick_if deadline w)
      else (let a = attempt r (tick_if deadline w) in
          settle deadline allowed n a.result a.started a.world)

  -- The loop, with the rounds that are left; after the last round the code asserts that a
  -- category was seen.
  pub loop : Option ℕ → ℕ → ℕ → ℕ → Option FailureCategory → World → Result Failure A × World
  unfolding round
  loop deadline allowed zero n none w = (err assertion_error, w)
  loop deadline allowed zero n (some c) w = (err (retry_exhausted c w.attempts_started), w)
  loop deadline allowed (suc left) n last w = elim (round deadline allowed n last w) [
    | done x ↦ x
    | again category w' ↦ loop deadline allowed left (n + 1) (some category) w'
  ]

  pub attempts_allowed : ℕ
  attempts_allowed = if r.policy.enabled then r.policy.max_retries + 1 else 1

  -- `run_with_retry`: the clock is read for the default deadline.
  unfoldable pub run_with_retry : World → Result Failure A × World
  unfolding loop attempts_allowed sequence_deadline
  run_with_retry w = elim r.deadline [
    | some d ↦ loop (some d) attempts_allowed attempts_allowed 1 none w
    | none ↦
        loop (sequence_deadline (now r w) r.timeout_seconds attempts_allowed r.policy)
          attempts_allowed attempts_allowed 1 none (tick w)
  ]
