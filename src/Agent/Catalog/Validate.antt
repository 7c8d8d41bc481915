-- ===== src/Agent/Catalog/Validate.antt =====
-- The node `validate_tool` of sky-agent/app/agent/nodes/validate_tool.py.
pub mod Own
use cang_qiong_project.Common.{
  String, ◌||◌, not, Option, none, some, ◌=ₛ◌, if◌then◌else◌, is_some, Result, ok, err, get, put,
  ◌++ₛ◌,
}
use cang_qiong_project.Core.{ExecutionContext}
use cang_qiong_project.Policies.{Value, int, Arguments}
use cang_qiong_project.Policies.Rules.{is_foreign}
use cang_qiong_project.Agent.Schemas.{
  AgentErrorCategory, unknown_tool, policy_denied, ownership_violation, invalid_tool_arguments,
}
use cang_qiong_project.Agent.State.{AgentState}
use cang_qiong_project.Agent.Catalog.{
  Pydantic, InputModel, ToolInput, ValidationError, get_agent_tool_definition, model_validate,
  model_dump,
}

unfoldable pub reject_tool : AgentState → AgentErrorCategory → String → AgentState
reject_tool s category message = record s {
  last_error = some message;
  error_category = some category;
  target_validation_status = "rejected";
}

unfoldable pub accept_input : AgentState → Result ValidationError ToolInput → AgentState
accept_input s (err e) =
    reject_tool s invalid_tool_arguments "The selected tool arguments were invalid."
accept_input s (ok arguments) = record s {
  tool_arguments = model_dump arguments;
  target_validation_status = "validated";
}

-- Each of the models has the field `customer_id`.
unfoldable pub validate_input :
    Pydantic → AgentState → InputModel → Option ExecutionContext → AgentState
validate_input py s model none =
    reject_tool s policy_denied "Authenticated execution context is required."
validate_input py s model (some context) =
    if is_foreign (get "customer_id" s.tool_arguments) context.effective_customer_id
    then reject_tool s ownership_violation "The selected resource does not belong to this customer."
    else accept_input s (
        model_validate py model
          (put "customer_id" (int context.effective_customer_id) s.tool_arguments))

unfoldable pub validate_named : Pydantic → AgentState → String → Option InputModel → AgentState
validate_named py s name none =
    reject_tool s unknown_tool ("Tool " ++ₛ (name ++ₛ " is not registered."))
validate_named py s name (some model) = validate_input py s model s.execution_context

-- No tool, or an empty name, is left as it is.
unfoldable pub validate_selected : Pydantic → AgentState → Option String → AgentState
validate_selected py s none = s
validate_selected py s (some name) =
    if name =ₛ "" || is_some s.error_category
    then s
    else validate_named py s name (get_agent_tool_definition name)

unfoldable pub validate_tool : Pydantic → AgentState → AgentState
validate_tool py s = validate_selected py s s.selected_tool
