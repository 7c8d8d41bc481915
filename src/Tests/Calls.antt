-- ===== src/Tests/Calls.antt =====
-- The tools' arguments, their revalidation and their calls at concrete inputs.
use cang_qiong_project.Common.{String, ◌≡◌, refl, false, none, some, [], ◌∷◌, Result, ok}
use cang_qiong_project.Core.{ExecutionContext}
use cang_qiong_project.Models.{Session, Order, delivered}
use cang_qiong_project.Policies.{int, text, PendingAction, PendingActionStatus}
use cang_qiong_project.Policies.Confirmation.{transition, belongs_to_context}
use cang_qiong_project.Policies.Rules.{evaluate_default_policy, is_foreign}
use cang_qiong_project.Services.Lookup
use cang_qiong_project.Services.Idempotency.{ToolFailure, receipt, get_receipt}
use cang_qiong_project.Tools.{get_tool, risk_number}
use cang_qiong_project.Tools.Orders.{get_order}
use cang_qiong_project.Tools.Refunds.{
  RequestRefundInput, new_refund, validate_refund_request, load_refund,
}
use cang_qiong_project.Agent.State.{AgentState}
use cang_qiong_project.Agent.Catalog.{
  InputModel, ToolInput, refund_input, refund_model, order_input, model_validate, model_dump,
  get_agent_tool_definition, customer_of,
}
use cang_qiong_project.Agent.Catalog.Normal.{model_dump-normal}
use cang_qiong_project.Agent.Catalog.Validate.{
  validate_tool, validate_selected, validate_named, validate_input, accept_input,
}
use cang_qiong_project.Agent.Catalog.Validate.Own.{IsValidated, validate_tool-IsValidated}
use cang_qiong_project.Agent.Catalog.Execute.{
  Outside, ToolResult, order_result, refund_result, CallFailure, execute, execute_scoped,
}
use cang_qiong_project.Agent.Catalog.Execute.Reads.{IsOwn, execute-IsOwn}
use cang_qiong_project.Agent.Catalog.Execute.Refund.{valid_refund_is_stored}
use cang_qiong_project.Agent.Pending.Check.{is_owned}
use cang_qiong_project.Agent.Pending.Create.{new_action}
use cang_qiong_project.Agent.Pending.Payload.{
  build_policy_context, restore_pending_arguments, restore_policy_inputs, policy_input_diff,
  any_diff, build_policy_inputs,
}
use cang_qiong_project.Agent.Pending.Payload.Same.{held_action_revalidates}
use cang_qiong_project.Agent.Pending.Revalidate.{
  revalidate, revalidate_action, owned_context, or_unregistered, or_invalid_arguments, require,
  check_outcome, check_business, or_failed, concluded, revalidate_held,
}
use cang_qiong_project.Agent.Pending.Revalidate.Valid.{IsReady, revalidated_action_is_valid}
use cang_qiong_project.Tests.Admissions.{accepted_context}
use cang_qiong_project.Tests.Business.{shop, scope, stay}
use cang_qiong_project.Tests.States.{json, py, calm, held_refund, refund_arguments, confirm_refund}

abbrev request : RequestRefundInput
request = record { customer_id = 7; order_id = 1; reason = "broken" }

abbrev input : ToolInput
input = refund_input request

reads-input : model_validate py refund_model refund_arguments ≡ ok input
unfolding model_validate
reads-input = refl

model_dump-normal_example : model_validate py refund_model (model_dump input) ≡ ok input
model_dump-normal_example = model_dump-normal py refund_model refund_arguments input reads-input

-- The model proposed no customer.
abbrev selected : AgentState
selected = record calm {
  selected_tool = some "request_refund";
  tool_arguments = ("order_id", int 1) ∷ ("reason", text "broken") ∷ [];
}

selected-validates : (validate_tool py selected).error_category ≡ none
unfolding validate_tool validate_selected validate_named get_agent_tool_definition get_tool
    validate_input is_foreign accept_input model_validate
selected-validates = refl

validate_tool-IsValidated_example :
    (model : InputModel) × (get_agent_tool_definition "request_refund" ≡ some model)
    × (context : ExecutionContext) × (selected.execution_context ≡ some context)
    × IsValidated py selected model context (validate_tool py selected)
validate_tool-IsValidated_example =
    validate_tool-IsValidated py selected "request_refund" refl refl refl selected-validates

abbrev confirmed_refund : PendingAction
confirmed_refund = transition held_refund PendingActionStatus.confirmed

abbrev confirmed : AgentState
confirmed = record calm { pending_action = some confirmed_refund }

abbrev say : ToolFailure → String
say e = "failed"

confirmed-revalidates : (revalidate py json say shop confirmed).error_category ≡ none
unfolding revalidate revalidate_action owned_context is_owned new_action or_unregistered
    get_agent_tool_definition get_tool or_invalid_arguments model_validate restore_pending_arguments
    require any_diff policy_input_diff build_policy_context restore_policy_inputs model_dump
    customer_of check_outcome check_business evaluate_default_policy is_foreign risk_number
    or_failed validate_refund_request Lookup.get_order belongs_to_context build_policy_inputs
    concluded revalidate_held
confirmed-revalidates = refl

revalidated_action_is_valid_example :
    IsReady py json say shop confirmed confirmed_refund (revalidate py json say shop confirmed)
revalidated_action_is_valid_example =
    revalidated_action_is_valid py json say shop confirmed confirmed_refund refl
      confirmed-revalidates

abbrev out : Outside
out = record {
  cancel_digest = λ r. "cancel";
  refund_digest = λ r. r.reason;
  ticket_digest = λ r. "ticket";
  escalation_digest = λ r. "escalation";
  early = stay;
  late = stay;
}

abbrev lookup : ToolInput
lookup = order_input (record { order_id = 1; customer_id = 7 })

abbrev found : Result CallFailure ToolResult × Session
found = execute out "get_order" shop accepted_context lookup none

abbrev first_order : Order
first_order = record {
  id = 1;
  tenant_id = "sky";
  customer_id = 7;
  status = delivered;
  created_at = 10;
}

lookup-finds : found.0 ≡ ok (order_result first_order)
unfolding execute customer_of execute_scoped get_order
lookup-finds = refl

execute-IsOwn_example : IsOwn 7 "sky" (order_result first_order) × (found.1 ≡ shop)
execute-IsOwn_example =
    execute-IsOwn shop accepted_context (order_result first_order) out "get_order" lookup none refl
      lookup-finds

request-valid : validate_refund_request shop request "sky" ≡ ok tt
unfolding validate_refund_request Lookup.get_order
request-valid = refl

scope-fresh : get_receipt shop scope "request_refund" ≡ none
unfolding get_receipt
scope-fresh = refl

valid_refund_is_stored_example :
    execute
      (record out { early = λ t. t; late = λ t. t })
      "request_refund"
      shop
      accepted_context
      input
      (some scope)
    ≡ (
      ok (refund_result (new_refund "sky" request 100)),
      record shop {
        refunds = new_refund "sky" request 100 ∷ [];
        next_id = 101;
        receipts = receipt scope "request_refund" 7 "broken" (load_refund "sky") 100 ∷ [];
      },
    )
valid_refund_is_stored_example =
    valid_refund_is_stored out shop accepted_context request scope request-valid refl scope-fresh

input-normal : model_validate py refund_model (model_dump input) ≡ ok input
unfolding model_validate model_dump
input-normal = refl

calm-arguments : calm.tool_arguments ≡ model_dump input
unfolding model_dump
calm-arguments = refl

held_action_revalidates_example :
    (model_validate py refund_model (restore_pending_arguments confirmed_refund) ≡ ok input)
    × (any_diff (
          policy_input_diff json confirmed_refund.policy_inputs
            (restore_policy_inputs json confirmed_refund accepted_context (model_dump input)))
        ≡ false)
held_action_revalidates_example =
    held_action_revalidates py json refl 1 "act_1" calm accepted_context accepted_context
      "request_refund" 2 confirm_refund input calm-arguments input-normal refl
