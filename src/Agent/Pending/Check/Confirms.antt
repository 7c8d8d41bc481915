-- ===== src/Agent/Pending/Check/Confirms.antt =====
-- When the node of sky-agent/app/agent/nodes/check_pending.py takes a message for the confirmation.
use cang_qiong_project.Common.{
  ◌+◌, ◌<◌, String, ◌≡◌, refl, ◌∙◌, ◌≢◌, inl, inr, true, Option, none, some, arith, Bool-cases,
}
use cang_qiong_project.Policies.{PendingAction, PendingActionStatus}
use cang_qiong_project.Policies.Confirmation.{Answer, parse_confirmation, is_expired, transition}
use cang_qiong_project.Agent.Graph.{ConfirmationStatus}
use cang_qiong_project.Agent.State.{AgentState, latest_user_message}
use cang_qiong_project.Agent.Pending.Check.{
  Turn, is_owned, without_action, with_action, check_action, check_pending, answer_pending,
  answer_settled,
}

-- An action that the user may confirm now, with the words of this turn.
pub record IsConfirmable (turn : Turn) (s : AgentState) (action : PendingAction) : Type 0 where
  pub held : s.pending_action ≡ some action
  pub is_pending : action.status ≡ PendingActionStatus.pending
  pub owned : is_owned action s.execution_context ≡ true
  pub in_time : turn.now < action.created_at + turn.ttl
  pub agreed : parse_confirmation turn.re.normalize (latest_user_message s) ≡ Answer.confirms

module _ (turn : Turn) (s : AgentState) where
  settled-not_confirmed :
      (status : PendingActionStatus) (answer : Answer)
      → (answer_settled s status answer).confirmation_status ≢ some ConfirmationStatus.confirmed
  unfolding answer_settled
  settled-not_confirmed status answer h = ground arith

  without-not_confirmed :
      (m : String) (answer : Answer)
      → (without_action turn s m answer).confirmation_status ≢ some ConfirmationStatus.confirmed
  unfolding without_action
  without-not_confirmed m answer h = ground arith

  answer-confirmed :
      (action : PendingAction) (m : String) (answer : Answer)
      → (answer_pending turn s action m answer).confirmation_status
        ≡ some ConfirmationStatus.confirmed
      → answer ≡ Answer.confirms
  unfolding answer_pending
  answer-confirmed action m answer h = ground arith

  with-confirmed :
      (action : PendingAction) (m : String) (answer : Answer)
      → (with_action turn s action m answer).confirmation_status ≡ some ConfirmationStatus.confirmed
      → (action.status ≡ PendingActionStatus.pending)
        × (turn.now < action.created_at + turn.ttl)
        × (answer ≡ Answer.confirms)
  unfolding with_action is_expired
  with-confirmed action m answer h =
      ground (arith, settled-not_confirmed action.status answer, answer-confirmed action m answer)

  action-IsConfirmable :
      (o : Option PendingAction)
      → s.pending_action ≡ o
      → (check_action turn s
          (latest_user_message s)
          (parse_confirmation turn.re.normalize (latest_user_message s))
          o).confirmation_status
        ≡ some ConfirmationStatus.confirmed
      → (action : PendingAction) × IsConfirmable turn s action
  unfolding check_action
  action-IsConfirmable none e h = absurd (without-not_confirmed _ _ h)
  action-IsConfirmable (some action) e h = elim (Bool-cases (is_owned action s.execution_context)) [
    | inl o ↦
        let found = with-confirmed action _ _ (rw o at h) in
        (
          action,
          record { held = e; is_pending = found.0; owned = o; in_time = found.1; agreed = found.2 },
        )
    | inr o ↦ absurd (ground (arith, o))
  ]

  -- The node reports a confirmation only for an action that the user may confirm: it is pending,
  -- belongs to the context, is in time, and the message is one of the phrases of agreement.
  pub confirmed-IsConfirmable :
      (check_pending turn s).confirmation_status ≡ some ConfirmationStatus.confirmed
      → (action : PendingAction) × IsConfirmable turn s action
  unfolding check_pending
  confirmed-IsConfirmable h = action-IsConfirmable s.pending_action refl h

  with-confirmable :
      (action : PendingAction) (m : String) (answer : Answer)
      → action.status ≡ PendingActionStatus.pending
      → turn.now < action.created_at + turn.ttl
      → answer ≡ Answer.confirms
      → with_action turn s action m answer ≡ record s {
        pending_action = some (transition action PendingActionStatus.confirmed);
        confirmation_status = some ConfirmationStatus.confirmed;
      }
  unfolding with_action is_expired answer_pending
  with-confirmable action m answer p t a = ground arith

  confirmable-action :
      (o : Option PendingAction) (action : PendingAction) (answer : Answer)
      → o ≡ some action
      → is_owned action s.execution_context ≡ true
      → check_action turn s (latest_user_message s) answer o
        ≡ with_action turn s action (latest_user_message s) answer
  unfolding check_action
  confirmable-action o action answer e w = ground arith

  -- An action that the user may confirm is confirmed by the node: its status changes, the report is
  -- made, and the rest of the state stays.
  pub confirmable_is_confirmed :
      (action : PendingAction)
      → IsConfirmable turn s action
      → check_pending turn s ≡ record s {
        pending_action = some (transition action PendingActionStatus.confirmed);
        confirmation_status = some ConfirmationStatus.confirmed;
      }
  unfolding check_pending
  confirmable_is_confirmed action c =
      confirmable-action s.pending_action action _ c.held c.owned
      ∙ with-confirmable action _ _ c.is_pending c.in_time c.agreed
