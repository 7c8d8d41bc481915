-- ===== src/Agent/Catalog.antt =====
-- sky-agent/app/agent/tool_catalog.py: the tools with the models of their arguments.
pub mod Normal
pub mod Execute
pub mod Validate
use cang_qiong_project.Common.{
  ℕ, String, ◌&&◌, Option, none, some, List, [], ◌∷◌, ◌=ₛ◌, ltb, leb, if◌then◌else◌, find, Result,
  ok, err, ◌>>=◌, get,
}
use cang_qiong_project.Models.{EscalationPriority, low, medium, high, urgent}
use cang_qiong_project.Policies.{Value, int, text, texts, null, Arguments}
use cang_qiong_project.Tools.{get_tool}
use cang_qiong_project.Tools.Customers.{GetCustomerInput}
use cang_qiong_project.Tools.Orders.{GetOrderInput, CancelOrderInput}
use cang_qiong_project.Tools.Refunds.{RequestRefundInput}
use cang_qiong_project.Tools.Tickets.{CreateSupportTicketInput}
use cang_qiong_project.Tools.Escalations.{EscalateToHumanInput}

-- `GetTicketInput` of sky-agent/app/tools/tickets.py.
pub record GetTicketInput : Type 0 where
  pub ticket_id : ℕ
  pub customer_id : ℕ

-- The classes of `input_model`.
pub data InputModel : Type 0 where
  customer_model order_model ticket_model cancel_model : InputModel
  refund_model create_model escalate_model : InputModel

-- Their instances.
pub data ToolInput : Type 0 where
  customer_input : GetCustomerInput → ToolInput
  order_input : GetOrderInput → ToolInput
  ticket_input : GetTicketInput → ToolInput
  cancel_input : CancelOrderInput → ToolInput
  refund_input : RequestRefundInput → ToolInput
  create_input : CreateSupportTicketInput → ToolInput
  escalate_input : EscalateToHumanInput → ToolInput

-- `TOOL_DEFINITIONS`, by the models.
abbrev tool_definitions : List (String × InputModel)
tool_definitions =
    ("get_customer", customer_model)
    ∷ ("get_customer_orders", customer_model)
    ∷ ("get_order", order_model)
    ∷ ("get_customer_tickets", customer_model)
    ∷ ("get_ticket", ticket_model)
    ∷ ("create_support_ticket", create_model)
    ∷ ("cancel_order", cancel_model)
    ∷ ("request_refund", refund_model)
    ∷ ("escalate_to_human", escalate_model)
    ∷ []

unfoldable pub get_agent_tool_definition : String → Option InputModel
get_agent_tool_definition name = elim (get_tool name) [
  | none ↦ none
  | some metadata ↦ get name tool_definitions
]

-- `pydantic.ValidationError`
pub data ValidationError : Type 0 where
  invalid : ValidationError

-- What Pydantic does to a text where a number is due, in its default mode, and the length of a text.
pub record Pydantic : Type 0 where
  pub text_to_int : String → Option ℕ
  pub text_length : String → ℕ

abbrev priority_value : EscalationPriority → String
priority_value low = "low"
priority_value medium = "medium"
priority_value high = "high"
priority_value urgent = "urgent"

abbrev or_invalid {ℓ} : {A : Type ℓ} → Option A → Result ValidationError A
or_invalid (some a) = ok a
or_invalid none = err invalid

unfoldable pub field_priority : Option Value → Result ValidationError EscalationPriority
field_priority (some (text t)) =
    or_invalid (find (λ p. priority_value p =ₛ t) (low ∷ medium ∷ high ∷ urgent ∷ []))
field_priority _ = err invalid

abbrev positive : ℕ → Result ValidationError ℕ
positive n = if ltb 0 n then ok n else err invalid

module _ (py : Pydantic) where
  -- `int = Field(gt=0)`
  unfoldable pub field_id : Option Value → Result ValidationError ℕ
  field_id (some (int n)) = positive n
  field_id (some (text t)) = do n ← or_invalid (py.text_to_int t); positive n
  field_id _ = err invalid

  -- `int | None = Field(default=None, gt=0)`
  unfoldable pub field_optional_id : Option Value → Result ValidationError (Option ℕ)
  unfolding field_id
  field_optional_id none = ok none
  field_optional_id (some null) = ok none
  field_optional_id (some v) = do n ← field_id (some v); ok (some n)

  -- `str = Field(min_length=1, max_length=bound)`
  unfoldable pub field_text : ℕ → Option Value → Result ValidationError String
  field_text bound (some (text t)) =
      if ltb 0 (py.text_length t) && leb (py.text_length t) bound then ok t else err invalid
  field_text bound _ = err invalid

  -- `model_validate`. A key that the model does not have is ignored.
  unfoldable pub model_validate : InputModel → Arguments → Result ValidationError ToolInput
  unfolding field_id field_optional_id field_text field_priority
  model_validate customer_model d = do
    customer ← field_id (get "customer_id" d)
    ok (customer_input (record { customer_id = customer }))
  model_validate order_model d = do
    order ← field_id (get "order_id" d)
    customer ← field_id (get "customer_id" d)
    ok (order_input (record { order_id = order; customer_id = customer }))
  model_validate ticket_model d = do
    ticket ← field_id (get "ticket_id" d)
    customer ← field_id (get "customer_id" d)
    ok (ticket_input (record { ticket_id = ticket; customer_id = customer }))
  model_validate cancel_model d = do
    customer ← field_id (get "customer_id" d)
    order ← field_id (get "order_id" d)
    ok (cancel_input (record { customer_id = customer; order_id = order }))
  model_validate refund_model d = do
    customer ← field_id (get "customer_id" d)
    order ← field_id (get "order_id" d)
    reason ← field_text 2000 (get "reason" d)
    ok (refund_input (record { customer_id = customer; order_id = order; reason = reason }))
  model_validate create_model d = do
    customer ← field_id (get "customer_id" d)
    order ← field_optional_id (get "order_id" d)
    category ← field_text 100 (get "category" d)
    description ← field_text 5000 (get "description" d)
    ok (
        create_input (record {
          customer_id = customer;
          order_id = order;
          category = category;
          description = description;
        }))
  model_validate escalate_model d = do
    customer ← field_id (get "customer_id" d)
    ticket ← field_optional_id (get "ticket_id" d)
    order ← field_optional_id (get "order_id" d)
    reason ← field_text 2000 (get "reason" d)
    priority ← field_priority (get "priority" d)
    summary ← field_text 5000 (get "summary" d)
    ok (
        escalate_input (record {
          customer_id = customer;
          ticket_id = ticket;
          order_id = order;
          reason = reason;
          priority = priority;
          summary = summary;
        }))

abbrev or_null : Option ℕ → Value
or_null none = null
or_null (some n) = int n

-- `model_dump(mode="json")`
unfoldable pub model_dump : ToolInput → Arguments
model_dump (customer_input r) = ("customer_id", int r.customer_id) ∷ []
model_dump (order_input r) = ("order_id", int r.order_id) ∷ ("customer_id", int r.customer_id) ∷ []
model_dump (ticket_input r) =
    ("ticket_id", int r.ticket_id) ∷ ("customer_id", int r.customer_id) ∷ []
model_dump (cancel_input r) = ("customer_id", int r.customer_id) ∷ ("order_id", int r.order_id) ∷ []
model_dump (refund_input r) =
    ("customer_id", int r.customer_id)
    ∷ ("order_id", int r.order_id)
    ∷ ("reason", text r.reason)
    ∷ []
model_dump (create_input r) =
    ("customer_id", int r.customer_id)
    ∷ ("order_id", or_null r.order_id)
    ∷ ("category", text r.category)
    ∷ ("description", text r.description)
    ∷ []
model_dump (escalate_input r) =
    ("customer_id", int r.customer_id)
    ∷ ("ticket_id", or_null r.ticket_id)
    ∷ ("order_id", or_null r.order_id)
    ∷ ("reason", text r.reason)
    ∷ ("priority", text (priority_value r.priority))
    ∷ ("summary", text r.summary)
    ∷ []

-- `getattr(arguments, "customer_id", None)`
unfoldable pub customer_of : ToolInput → ℕ
customer_of (customer_input r) = r.customer_id
customer_of (order_input r) = r.customer_id
customer_of (ticket_input r) = r.customer_id
customer_of (cancel_input r) = r.customer_id
customer_of (refund_input r) = r.customer_id
customer_of (create_input r) = r.customer_id
customer_of (escalate_input r) = r.customer_id
