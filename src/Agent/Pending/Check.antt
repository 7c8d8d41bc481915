-- ===== src/Agent/Pending/Check.antt =====
-- The node `check_pending` of sky-agent/app/agent/nodes/check_pending.py. The audit event of the
-- answer is left out.
pub mod Confirms
pub mod Status
pub mod Created
use cang_qiong_project.Common.{ℕ, String, Bool, true, false, Option, none, some, if◌then◌else◌}
use cang_qiong_project.Core.{ExecutionContext}
use cang_qiong_project.Policies.{PendingAction, PendingActionStatus}
use cang_qiong_project.Policies.Confirmation.{
  Answer, parse_confirmation, is_expired, transition, belongs_to_context,
}
use cang_qiong_project.Agent.Schemas.{ownership_violation}
use cang_qiong_project.Agent.Graph.{
  ConfirmationStatus, normal, no_pending, resume_unavailable, resume_suspended,
  inspect_interruption, ambiguous, ownership_error,
}
use cang_qiong_project.Agent.Messages.{Patterns, is_resume_request, is_interruption_candidate}
use cang_qiong_project.Agent.State.{AgentState, latest_user_message, cancelled, completed}

-- What the node is made with: the reading of messages, the clock's time and the time to live. The
-- parser of confirmations normalizes as the other readings do.
pub record Turn : Type 0 where
  pub re : Patterns
  pub now : ℕ
  pub ttl : ℕ

abbrev is_ambiguous : Answer → Bool
is_ambiguous Answer.ambiguous = true
is_ambiguous _ = false

-- No action is there.
without_action : Turn → AgentState → String → Answer → AgentState
without_action turn s message answer =
    if is_resume_request turn.re message
    then record s {
      confirmation_status = elim s.suspended_workflow [
        | none ↦ some resume_unavailable
        | some w ↦ some resume_suspended
      ];
      workflow_resume_source = some "explicit_user_resume";
    }
    else record s {
      confirmation_status = if is_ambiguous answer then some normal else some no_pending;
    }

-- The answer to an action that is pending and in time.
answer_pending : Turn → AgentState → PendingAction → String → Answer → AgentState
answer_pending turn s action message Answer.confirms = record s {
  pending_action = some (transition action PendingActionStatus.confirmed);
  confirmation_status = some ConfirmationStatus.confirmed;
}
answer_pending turn s action message Answer.rejects = record s {
  pending_action = some (transition action PendingActionStatus.rejected);
  confirmation_status = some ConfirmationStatus.rejected;
  workflow_state = some cancelled;
}
answer_pending turn s action message Answer.ambiguous =
    if is_interruption_candidate turn.re message
    then record s {
      confirmation_status = some inspect_interruption;
      workflow_interruption_pending = true;
    }
    else record s { confirmation_status = some ambiguous }

-- The answer to an action that is no longer pending.
answer_settled : AgentState → PendingActionStatus → Answer → AgentState
answer_settled s PendingActionStatus.executed Answer.confirms = record s {
  confirmation_status = some no_pending;
  replay_detected = true;
  idempotency_outcome = some "replay_prevented";
  decision_reason = some "idempotency_replay_prevented";
  workflow_state = some completed;
}
answer_settled s status Answer.confirms = record s { confirmation_status = some no_pending }
answer_settled s status answer = record s {
  confirmation_status = some normal;
  pending_action = none;
}

abbrev pub is_pending : PendingActionStatus → Bool
is_pending PendingActionStatus.pending = true
is_pending _ = false

-- The action belongs to the context.
with_action : Turn → AgentState → PendingAction → String → Answer → AgentState
unfolding answer_pending answer_settled
with_action turn s action message answer =
    if is_pending action.status
    then (if is_expired action turn.now turn.ttl
        then record s {
          pending_action = some (transition action PendingActionStatus.expired);
          confirmation_status = some ConfirmationStatus.expired;
        }
        else answer_pending turn s action message answer)
    else answer_settled s action.status answer

unfoldable pub is_owned : PendingAction → Option ExecutionContext → Bool
unfolding belongs_to_context
is_owned action none = false
is_owned action (some context) = belongs_to_context action context

check_action : Turn → AgentState → String → Answer → Option PendingAction → AgentState
unfolding without_action with_action
check_action turn s message answer none = without_action turn s message answer
check_action turn s message answer (some action) =
    if is_owned action s.execution_context
    then with_action turn s action message answer
    else record s {
      confirmation_status = some ownership_error;
      last_error = some "Pending action belongs to another execution context.";
      error_category = some ownership_violation;
    }

-- The state after the node; the source returns the fields that change.
unfoldable pub check_pending : Turn → AgentState → AgentState
unfolding check_action latest_user_message
check_pending turn s =
    let message = latest_user_message s in
    check_action turn s message (parse_confirmation turn.re.normalize message) s.pending_action
