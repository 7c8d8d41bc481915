-- ===== src/Agent/Pending/Restore.antt =====
-- The node `restore_pending` of sky-agent/app/agent/nodes/restore_pending.py.
use cang_qiong_project.Common.{
  String, Bool, true, false, Option, none, some, if◌then◌else◌, Result, ok, ◌>>=◌,
}
use cang_qiong_project.Policies.{Arguments, PendingAction, PendingActionStatus}
use cang_qiong_project.Agent.Schemas.{
  SemanticDecision, AgentErrorCategory, policy_denied, invalid_tool_arguments,
}
use cang_qiong_project.Agent.State.{AgentState}
use cang_qiong_project.Agent.Catalog.{Pydantic, ValidationError}
use cang_qiong_project.Agent.Workflow.Restore.{optional_string, recorded}
use cang_qiong_project.Agent.Pending.Payload.{
  Json, restore_pending_arguments, restore_pending_decision,
}

abbrev pub is_confirmed : PendingActionStatus → Bool
is_confirmed PendingActionStatus.confirmed = true
is_confirmed _ = false

unfoldable pub not_restored : AgentState → AgentErrorCategory → String → AgentState
not_restored s category message = record s {
  pending_action_restored = false;
  compilation_resumed = false;
  error_category = some category;
  last_error = some message;
}

-- The three values of the context that are no texts are `None` there.
unfoldable pub with_decision :
    Json → AgentState → PendingAction → Arguments → Option SemanticDecision → AgentState
unfolding not_restored
with_decision json s action arguments none =
    not_restored s invalid_tool_arguments "Pending action intent is unavailable for compilation."
with_decision json s action arguments (some decision) = record s {
  semantic_decision = some decision;
  intent = some decision.intent;
  request_type = some decision.request_type;
  selected_tool = some action.tool_name;
  tool_arguments = arguments;
  collected_entities = action.collected_entities;
  decision_reason = optional_string "decision_reason" action.validation_context;
  grounding_status = recorded json.str "grounding_status" action.validation_context;
  grounding_reference_type = optional_string "grounding_reference_type" action.validation_context;
  grounding_trusted_source = optional_string "grounding_trusted_source" action.validation_context;
  target_validation_status = recorded json.str "target_validation_status" action.validation_context;
  pending_action_restored = true;
  compilation_resumed = true;
  error_category = none;
  last_error = none;
}

-- An error is the one that the construction of the decision raises.
unfoldable pub restore_action :
    Pydantic → Json → AgentState → Option PendingAction → Result ValidationError AgentState
unfolding with_decision restore_pending_decision restore_pending_arguments not_restored
restore_action py json s none =
    ok (not_restored s policy_denied "Confirmed pending action payload is unavailable.")
restore_action py json s (some action) =
    let arguments = restore_pending_arguments action in
    if is_confirmed action.status
    then (do
      decision ← restore_pending_decision py json action arguments
      ok (with_decision json s action arguments decision))
    else ok (not_restored s policy_denied "Confirmed pending action payload is unavailable.")

unfoldable pub restore_pending : Pydantic → Json → AgentState → Result ValidationError AgentState
unfolding restore_action
restore_pending py json s = restore_action py json s s.pending_action
