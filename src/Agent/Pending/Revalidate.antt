-- ===== src/Agent/Pending/Revalidate.antt =====
-- The node `revalidate` of sky-agent/app/agent/nodes/revalidate.py, with the default policy of
-- sky-agent/app/policies/engine.py. The audit event and the fields of the trace are left out.
pub mod Valid
use cang_qiong_project.Common.{
  String, Bool, true, false, not, Option, none, some, ◌==◌, if◌then◌else◌, Result, ok, err, ◌>>=◌,
}
use cang_qiong_project.Core.{ExecutionContext}
use cang_qiong_project.Models.{Session}
use cang_qiong_project.Policies.{
  PolicyOutcome, allow, require_confirmation, require_human, deny, Value, Arguments, PolicyInputs,
  PendingAction, PendingActionStatus,
}
use cang_qiong_project.Policies.Confirmation.{transition}
use cang_qiong_project.Policies.Rules.{evaluate_default_policy}
use cang_qiong_project.Services.Idempotency.{
  ToolFailure, resource_not_found, ownership_error, invalid_state_transition, duplicate_action,
  integrity_error,
}
use cang_qiong_project.Tools.Orders.{validate_cancel_order}
use cang_qiong_project.Tools.Refunds.{validate_refund_request}
use cang_qiong_project.Agent.Schemas.{AgentErrorCategory, Intent, parse_intent}
use cang_qiong_project.Agent.State.{AgentState}
use cang_qiong_project.Agent.Catalog.{
  Pydantic, InputModel, ToolInput, cancel_input, refund_input, ValidationError,
  get_agent_tool_definition, model_validate, model_dump, customer_of,
}
use cang_qiong_project.Agent.Workflow.Restore.{optional_string, recorded}
use cang_qiong_project.Agent.Pending.Check.{is_owned}
use cang_qiong_project.Agent.Pending.Restore.{is_confirmed}
use cang_qiong_project.Agent.Pending.Payload.{
  Json, restore_pending_arguments, restore_policy_inputs, policy_input_diff, any_diff,
}

-- A category with its message.
pub record Failed : Type 0 where
  pub category : AgentErrorCategory
  pub message : String

abbrev fail {ℓ} : {A : Type ℓ} → AgentErrorCategory → String → Result Failed A
fail category message = err (record { category = category; message = message })

-- `error_category` of sky-agent/app/agent/nodes/common.py.
unfoldable pub error_category_of : ToolFailure → AgentErrorCategory
error_category_of (resource_not_found r i) = AgentErrorCategory.resource_not_found
error_category_of (ownership_error r i c) = AgentErrorCategory.ownership_violation
error_category_of (invalid_state_transition i) = AgentErrorCategory.invalid_state
error_category_of duplicate_action = AgentErrorCategory.duplicate_action
error_category_of integrity_error = AgentErrorCategory.dependency_error

-- `except ToolError`; `message` is `str(error)`.
unfoldable pub or_failed {ℓ} :
    {A : Type ℓ} → (ToolFailure → String) → Result ToolFailure A → Result Failed (Unit {0})
or_failed message (ok a) = ok tt
or_failed message (err e) = fail (error_category_of e) (message e)

unfoldable pub owned_context :
    PendingAction → Option ExecutionContext → Result Failed ExecutionContext
owned_context action none =
    fail AgentErrorCategory.ownership_violation "Pending action ownership failed."
owned_context action (some context) =
    if is_owned action (some context)
    then ok context
    else fail AgentErrorCategory.ownership_violation "Pending action ownership failed."

unfoldable pub or_unregistered : Option InputModel → Result Failed InputModel
or_unregistered none = fail AgentErrorCategory.unknown_tool "Pending tool is not registered."
or_unregistered (some model) = ok model

unfoldable pub or_invalid_arguments : Result ValidationError ToolInput → Result Failed ToolInput
or_invalid_arguments (ok i) = ok i
or_invalid_arguments (err e) =
    fail AgentErrorCategory.invalid_tool_arguments "Pending arguments are invalid."

unfoldable pub require : Bool → AgentErrorCategory → String → Result Failed (Unit {0})
require true category message = ok tt
require false category message = fail category message

unfoldable pub check_outcome : PolicyOutcome → Result Failed (Unit {0})
check_outcome allow = ok tt
check_outcome require_confirmation = ok tt
check_outcome deny = fail AgentErrorCategory.policy_denied "Pending policy revalidation denied."
check_outcome require_human =
    fail AgentErrorCategory.policy_denied "Pending action requires a different authority path."

-- The check of the business's state, by the tool.
unfoldable pub check_business :
    (ToolFailure → String) → Session → String → ToolInput → Result Failed (Unit {0})
check_business message db tenant_id (cancel_input r) =
    or_failed message (validate_cancel_order db r tenant_id)
check_business message db tenant_id (refund_input r) =
    or_failed message (validate_refund_request db r tenant_id)
check_business message db tenant_id _ =
    fail AgentErrorCategory.policy_denied "Pending tool is not revalidatable."

module _ (py : Pydantic) (json : Json) (message : ToolFailure → String) (db : Session) where
  -- The input that the action is executed with.
  unfoldable pub revalidate_action :
      Option ExecutionContext → PendingAction → Result Failed (ToolInput × ExecutionContext)
  revalidate_action context action = do
    context ← owned_context action context
    model ← or_unregistered (get_agent_tool_definition action.tool_name)
    input ← or_invalid_arguments (model_validate py model (restore_pending_arguments action))
    _ ←
        require
          (not (
            any_diff (
              policy_input_diff json action.policy_inputs
                (restore_policy_inputs json action context (model_dump input)))))
          AgentErrorCategory.policy_denied "Pending policy inputs changed before revalidation."
    _ ←
        require (customer_of input == context.effective_customer_id)
          AgentErrorCategory.ownership_violation "Pending action customer scope failed."
    _ ← check_outcome (evaluate_default_policy action.tool_name context (model_dump input)).outcome
    _ ← check_business message db context.tenant_id input
    ok (input, context)

  -- `_failed`
  unfoldable pub failed : AgentState → Failed → AgentState
  failed s f = record s {
    pending_action = elim s.pending_action [
      | none ↦ none
      | some action ↦ some (transition action PendingActionStatus.failed)
    ];
    error_category = some f.category;
    last_error = some f.message;
  }

  -- `_restore_intent`, which leaves an intent that it cannot read.
  abbrev restored_intent : Option String → Option Intent → Option Intent
  restored_intent none intent = intent
  restored_intent (some v) intent = elim (parse_intent v) [ some i ↦ some i | none ↦ intent ]

  unfoldable pub concluded :
      AgentState → PendingAction → Result Failed (ToolInput × ExecutionContext) → AgentState
  unfolding failed
  concluded s action (err f) = failed s f
  concluded s action (ok (input, context)) = record s {
    selected_tool = some action.tool_name;
    tool_arguments = model_dump input;
    decision_reason = optional_string "decision_reason" action.validation_context;
    grounding_status = recorded json.str "grounding_status" action.validation_context;
    grounding_reference_type = optional_string "grounding_reference_type" action.validation_context;
    grounding_trusted_source = optional_string "grounding_trusted_source" action.validation_context;
    target_validation_status = "validated";
    error_category = none;
    last_error = none;
    intent = restored_intent action.intent s.intent;
  }

  unfoldable pub revalidate_held : AgentState → Option PendingAction → AgentState
  unfolding failed concluded
  revalidate_held s none = failed s (record {
    category = AgentErrorCategory.policy_denied;
    message = "There is no confirmable pending action.";
  })
  revalidate_held s (some action) =
      if is_confirmed action.status
      then concluded s action (revalidate_action s.execution_context action)
      else failed s (record {
        category = AgentErrorCategory.policy_denied;
        message = "There is no confirmable pending action.";
      })

  unfoldable pub revalidate : AgentState → AgentState
  unfolding revalidate_held
  revalidate s = revalidate_held s s.pending_action
