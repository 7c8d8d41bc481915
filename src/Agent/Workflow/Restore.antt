-- ===== src/Agent/Workflow/Restore.antt =====
-- The node `restore_suspended_workflow` of sky-agent/app/agent/nodes/workflow_lifecycle.py. `str` is
-- Python's text of a value.
use cang_qiong_project.Common.{String, true, false, Option, none, some, [], if◌then◌else◌, get}
use cang_qiong_project.Policies.{Value, text, Arguments, PendingAction}
use cang_qiong_project.Agent.Graph.{
  resumed, reset, resume_unavailable_status, resume_denied, workflow_restored, workflow_resumed,
}
use cang_qiong_project.Agent.State.{AgentState, SuspendedWorkflow, active, waiting_confirmation}
use cang_qiong_project.Agent.Pending.Check.{is_owned}
use cang_qiong_project.Agent.Workflow.{or_text}

-- `_optional_string` of `validation.get(key)`
abbrev pub optional_string : String → Arguments → Option String
optional_string key d = elim (get key d) [ some (text t) ↦ some t | _ ↦ none ]

-- `str(validation.get(key, "not_recorded"))`
abbrev pub recorded : (Value → String) → String → Arguments → String
recorded str key d = elim (get key d) [ some v ↦ str v | none ↦ "not_recorded" ]

-- The fields that both kinds of workflow bring back.
restore_common : (Value → String) → AgentState → SuspendedWorkflow → AgentState
restore_common str s w = record s {
  intent = some w.intent;
  collected_entities = w.collected_entities;
  tool_arguments = w.tool_arguments;
  workflow_interruption_pending = false;
  workflow_interruption_status = some workflow_restored;
  workflow_resume_status = some resumed;
  workflow_resume_source = some "explicit_user_resume";
  suspended_workflow = none;
  workflow_id = or_text (some w.workflow_id) s.workflow_id;
  previous_workflow_id = s.workflow_id;
  superseded_by = none;
  workflow_transition = some "suspended_to_resumed";
  workflow_interruption_type = some "explicit_resume";
  error_category = none;
  last_error = none;
  grounding_status = recorded str "grounding_status" w.validation_context;
  grounding_reference_type = optional_string "grounding_reference_type" w.validation_context;
  grounding_trusted_source = optional_string "grounding_trusted_source" w.validation_context;
  target_validation_status = recorded str "target_validation_status" w.validation_context;
}

restore_action : AgentState → PendingAction → AgentState
restore_action s action = record s {
  pending_action = some action;
  pending_workflow_decision = none;
  missing_required_fields = [];
  workflow_active = false;
  workflow_state = some waiting_confirmation;
  confirmation_status = some workflow_resumed;
  selected_tool = some action.tool_name;
  action_id = some action.action_id;
}

restore_fields : AgentState → SuspendedWorkflow → AgentState
restore_fields s w = record s {
  pending_action = none;
  pending_workflow_decision = w.pending_workflow_decision;
  missing_required_fields = w.missing_required_fields;
  workflow_active = true;
  workflow_state = some active;
  confirmation_status = none;
  selected_tool = none;
}

unfoldable pub restore_held :
    (Value → String) → AgentState → SuspendedWorkflow → Option PendingAction → AgentState
unfolding restore_common restore_action restore_fields
restore_held str s w (some action) =
    if is_owned action s.execution_context
    then restore_action (restore_common str s w) action
    else record s {
      workflow_interruption_status = some resume_denied;
      workflow_resume_status = some reset;
      workflow_resume_source = some "explicit_user_resume";
    }
restore_held str s w none = restore_fields (restore_common str s w) w

unfoldable pub restore_workflow :
    (Value → String) → AgentState → Option SuspendedWorkflow → AgentState
unfolding restore_held
restore_workflow str s (some w) = restore_held str s w w.pending_action
restore_workflow str s none = record s {
  workflow_interruption_status = some resume_unavailable_status;
  workflow_resume_status = some reset;
  workflow_resume_source = some "explicit_user_resume";
}

unfoldable pub restore_suspended_workflow : (Value → String) → AgentState → AgentState
unfolding restore_workflow
restore_suspended_workflow str s = restore_workflow str s s.suspended_workflow
