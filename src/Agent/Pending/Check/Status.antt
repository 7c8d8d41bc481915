-- ===== src/Agent/Pending/Check/Status.antt =====
-- How the node of sky-agent/app/agent/nodes/check_pending.py moves the status of a pending action.
use cang_qiong_project.Common.{
  String, ◌≡◌, refl, sym, ◌∙◌, subst, ◌≢◌, inl, inr, true, Option, none, some, arith, Bool-cases,
  if-elim,
}
use cang_qiong_project.Policies.{PendingAction, PendingActionStatus}
use cang_qiong_project.Policies.Confirmation.{Answer, is_expired, transition}
use cang_qiong_project.Agent.Messages.{is_resume_request, is_interruption_candidate}
use cang_qiong_project.Agent.State.{AgentState}
use cang_qiong_project.Agent.Pending.Check.{
  Turn, is_owned, with_action, check_action, check_pending, answer_pending, answer_settled,
  is_pending, without_action,
}

-- The moves of the action that a conversation holds.
pub data Moves : Option PendingAction → Option PendingAction → Type 0 where
  stays : {o : Option PendingAction} → Moves o o
  leaves_pending :
      {a : PendingAction} (status : PendingActionStatus)
      → a.status ≡ PendingActionStatus.pending
      → status ≢ PendingActionStatus.executed
      → Moves (some a) (some (transition a status))
  is_dropped : {a : PendingAction} → a.status ≢ PendingActionStatus.pending → Moves (some a) none

abbrev Moved : AgentState → AgentState → Type 0
Moved s s' = Moves s.pending_action s'.pending_action

module _ (turn : Turn) (s : AgentState) where
  module _ (a : PendingAction) (held : some a ≡ s.pending_action) where
    from_held : {o : Option PendingAction} → Moves (some a) o → Moves s.pending_action o
    from_held {o} p = subst (λ x. Moves x o) held p

    answer_pending-Moves :
        (m : String) (answer : Answer)
        → a.status ≡ PendingActionStatus.pending
        → Moved s (answer_pending turn s a m answer)
    unfolding answer_pending
    answer_pending-Moves m Answer.confirms p =
        from_held (leaves_pending PendingActionStatus.confirmed p (λ e. ground arith))
    answer_pending-Moves m Answer.rejects p =
        from_held (leaves_pending PendingActionStatus.rejected p (λ e. ground arith))
    answer_pending-Moves m Answer.ambiguous p =
        if-elim (Moved s) (is_interruption_candidate turn.re m) stays stays

    answer_settled-Moves :
        (status : PendingActionStatus) (answer : Answer)
        → a.status ≡ status
        → status ≢ PendingActionStatus.pending
        → Moved s (answer_settled s status answer)
    unfolding answer_settled
    answer_settled-Moves PendingActionStatus.executed Answer.confirms e n = stays
    answer_settled-Moves _ Answer.confirms e n = stays
    answer_settled-Moves status _ e n = from_held (is_dropped (λ p. n (sym e ∙ p)))

    to_pending : is_pending a.status ≡ true → a.status ≡ PendingActionStatus.pending
    to_pending p = ground arith

    with_action-Moves : (m : String) (answer : Answer) → Moved s (with_action turn s a m answer)
    unfolding with_action
    with_action-Moves m answer = elim (Bool-cases (is_pending a.status)) [
      | inl p ↦ rw p (
          if-elim (Moved s) (is_expired a turn.now turn.ttl)
            (from_held
              (leaves_pending PendingActionStatus.expired (to_pending p) (λ e. ground arith)))
            (answer_pending-Moves m answer (to_pending p)))
      | inr p ↦ rw p (answer_settled-Moves a.status answer refl (λ e. ground arith))
    ]

  check_action-Moves :
      (m : String) (answer : Answer) (o : Option PendingAction)
      → o ≡ s.pending_action
      → Moved s (check_action turn s m answer o)
  unfolding check_action without_action
  check_action-Moves m answer none e = if-elim (Moved s) (is_resume_request turn.re m) stays stays
  check_action-Moves m answer (some a) e =
      if-elim (Moved s) (is_owned a s.execution_context) (with_action-Moves a e m answer) stays

  -- What the node may do to the action that the conversation holds: keep it as it is, move it from
  -- pending to another status than executed and change nothing else of it, or drop it when it is no
  -- longer pending. It never brings in an action.
  pub check_pending-Moves : Moves s.pending_action (check_pending turn s).pending_action
  unfolding check_pending
  check_pending-Moves = check_action-Moves _ _ s.pending_action refl
