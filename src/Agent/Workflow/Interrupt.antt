-- ===== src/Agent/Workflow/Interrupt.antt =====
-- The node `handle_workflow_interruption` of sky-agent/app/agent/nodes/workflow_lifecycle.py.
use cang_qiong_project.Common.{
  Bool, true, false, Option, none, some, [], ◌=ₛ◌, if◌then◌else◌, is_some,
}
use cang_qiong_project.Agent.Schemas.{Intent, unknown, intent_value}
use cang_qiong_project.Agent.Graph.{ConfirmationStatus, InterruptionStatus, continued}
use cang_qiong_project.Agent.State.{AgentState, WorkflowLifecycleState}
use cang_qiong_project.Agent.Workflow.{
  or_text, workflow_id_of, run_workflow_id, workflow_intent, current_intent, is_superseding_request,
  capture_workflow,
}

-- The message goes on with the workflow.
continue_workflow : AgentState → Intent → AgentState
continue_workflow s intent = record s {
  intent = some intent;
  semantic_decision = none;
  selected_tool = none;
  tool_arguments = [];
  confirmation_status =
      if is_some s.pending_action then some ConfirmationStatus.ambiguous else none;
  workflow_interruption_pending = false;
  workflow_interruption_status = some continued;
  workflow_state =
      if is_some s.pending_action
      then some WorkflowLifecycleState.waiting_confirmation
      else some WorkflowLifecycleState.active;
}

-- The workflow is put away, for good where it is superseded.
unfoldable pub leave_workflow : AgentState → Intent → Intent → Bool → AgentState
unfolding capture_workflow workflow_id_of
leave_workflow s previous interruption superseded =
    let snapshot = capture_workflow s previous in
    let new_workflow_id = if superseded then some (run_workflow_id s) else s.workflow_id in
    let kept =
      if superseded
      then record snapshot {
        source_state = WorkflowLifecycleState.superseded;
        superseded_by = new_workflow_id;
      }
      else snapshot in
    record s {
      pending_action = none;
      action_id = none;
      pending_workflow_decision = none;
      missing_required_fields = [];
      collected_entities = [];
      workflow_active = false;
      workflow_interruption_pending = false;
      workflow_interruption_status =
          if superseded
          then some InterruptionStatus.superseded
          else some InterruptionStatus.suspended;
      workflow_state =
          if superseded
          then some WorkflowLifecycleState.superseded
          else some WorkflowLifecycleState.suspended;
      previous_workflow_intent = some previous;
      interruption_intent = some interruption;
      suspended_workflow = if superseded then none else some kept;
      superseded_workflow = if superseded then some kept else none;
      workflow_id = new_workflow_id;
      previous_workflow_id = or_text (some snapshot.workflow_id) (some (workflow_id_of s));
      superseded_by = if superseded then new_workflow_id else none;
      workflow_transition = some (
          if superseded
          then (if is_some s.pending_action
              then "waiting_confirmation_to_superseded"
              else "active_to_superseded")
          else if is_some s.pending_action
          then "waiting_confirmation_to_suspended"
          else "active_to_suspended");
      workflow_interruption_type =
          some (if superseded then "explicit_replacement" else "temporary_request");
      confirmation_status = some ConfirmationStatus.interrupted;
    }

-- Two members of a `StrEnum` are compared by their texts.
abbrev pub goes_on : Intent → Intent → Bool
goes_on previous unknown = true
goes_on previous interruption = intent_value interruption =ₛ intent_value previous

unfoldable pub by_intents : AgentState → Option Intent → Option Intent → AgentState
unfolding continue_workflow leave_workflow is_superseding_request
by_intents s none interruption = continue_workflow s unknown
by_intents s (some previous) none = continue_workflow s previous
by_intents s (some previous) (some interruption) =
    if goes_on previous interruption
    then continue_workflow s previous
    else leave_workflow s previous interruption (is_superseding_request s.semantic_decision)

unfoldable pub handle_workflow_interruption : AgentState → AgentState
unfolding by_intents workflow_intent current_intent
handle_workflow_interruption s = by_intents s (workflow_intent s) (current_intent s)
