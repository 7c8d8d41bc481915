-- ===== src/Agent/Workflow.antt =====
-- sky-agent/app/agent/nodes/workflow_lifecycle.py: the snapshot of a workflow that is interrupted.
pub mod Interrupt
pub mod Restore
pub mod Resume
pub mod RoundTrip
pub mod Fields
use cang_qiong_project.Common.{
  String, Bool, true, false, ◌&&◌, not, Option, none, some, [], ◌=ₛ◌, if◌then◌else◌, ◌++ₛ◌,
}
use cang_qiong_project.Policies.{PendingAction}
use cang_qiong_project.Agent.Schemas.{
  Intent, refund_policy, cancellation_policy, shipping_policy, support_faq, refund_eligibility,
  cancellation_explanation, capability_question, AgentRequestType, write_action, action_only,
  knowledge_and_action, escalation, SemanticDecision, parse_intent,
}
use cang_qiong_project.Agent.State.{AgentState, SuspendedWorkflow, waiting_confirmation, active}
use cang_qiong_project.Agent.Pending.Check.{is_pending}

-- `a or b` of an optional text.
abbrev pub or_text : Option String → Option String → Option String
or_text none b = b
or_text (some a) b = if a =ₛ "" then b else some a

abbrev pub run_workflow_id : AgentState → String
run_workflow_id s = "workflow:" ++ₛ s.agent_run_id

-- `_workflow_id`
unfoldable pub workflow_id_of : AgentState → String
workflow_id_of s = elim (or_text s.workflow_id none) [
  | some existing ↦ existing
  | none ↦ elim s.pending_action [ some action ↦ action.action_id | none ↦ run_workflow_id s ]
]

decided_intent : AgentState → Option Intent
decided_intent s = elim s.pending_workflow_decision [
  | some decision ↦ some decision.intent
  | none ↦ s.previous_intent
]

-- The intent of an action that is pending, if it has one.
action_intent : Option PendingAction → Option String
action_intent none = none
action_intent (some action) = if is_pending action.status then or_text action.intent none else none

-- `_workflow_intent`
unfoldable pub workflow_intent : AgentState → Option Intent
unfolding decided_intent action_intent
workflow_intent s = elim (action_intent s.pending_action) [
  | some value ↦ parse_intent value
  | none ↦ decided_intent s
]

-- `_current_intent`
unfoldable pub current_intent : AgentState → Option Intent
current_intent s = elim s.semantic_decision [
  | some decision ↦ some decision.intent
  | none ↦ s.intent
]

abbrev is_question : Intent → Bool
is_question refund_policy = true
is_question cancellation_policy = true
is_question shipping_policy = true
is_question support_faq = true
is_question refund_eligibility = true
is_question cancellation_explanation = true
is_question capability_question = true
is_question _ = false

abbrev is_action : AgentRequestType → Bool
is_action write_action = true
is_action action_only = true
is_action knowledge_and_action = true
is_action escalation = true
is_action _ = false

-- `_is_superseding_request`
unfoldable pub is_superseding_request : Option SemanticDecision → Bool
is_superseding_request none = false
is_superseding_request (some decision) =
    not (is_question decision.intent) && is_action decision.request_type

unfoldable pub capture : AgentState → Intent → Option PendingAction → SuspendedWorkflow
unfolding workflow_id_of
capture s intent (some action) = record {
  intent = intent;
  pending_action = some action;
  pending_workflow_decision = none;
  collected_entities = action.collected_entities;
  tool_arguments = action.arguments;
  missing_required_fields = [];
  validation_context = action.validation_context;
  policy_inputs = action.policy_inputs;
  source_state = waiting_confirmation;
  workflow_id = workflow_id_of s;
  superseded_by = none;
}
capture s intent none = record {
  intent = intent;
  pending_action = none;
  pending_workflow_decision = s.pending_workflow_decision;
  collected_entities = s.collected_entities;
  tool_arguments = s.workflow_tool_arguments;
  missing_required_fields = s.missing_required_fields;
  validation_context = s.workflow_validation_context;
  policy_inputs = s.workflow_policy_inputs;
  source_state = active;
  workflow_id = workflow_id_of s;
  superseded_by = none;
}

-- `_capture_workflow`
unfoldable pub capture_workflow : AgentState → Intent → SuspendedWorkflow
unfolding capture
capture_workflow s intent = capture s intent s.pending_action
