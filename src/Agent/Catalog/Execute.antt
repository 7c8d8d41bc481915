-- ===== src/Agent/Catalog/Execute.antt =====
-- The functions of sky-agent/app/agent/tool_catalog.py that call the tools. `Outside` holds the
-- digests of the requests and what other transactions commit meanwhile.
pub mod Reads
pub mod Refund
use cang_qiong_project.Common.{
  String, Option, none, some, List, ◌=ₛ◌, ◌==◌, if◌then◌else◌, Result, ok, err,
}
use cang_qiong_project.Core.{ExecutionContext}
use cang_qiong_project.Models.{Session, Customer, Order, SupportTicket, RefundRequest, Escalation}
use cang_qiong_project.Services.Idempotency.{IdempotencyScope, ToolFailure, ownership_error}
use cang_qiong_project.Tools.Customers
use cang_qiong_project.Tools.Customers.{GetCustomerInput}
use cang_qiong_project.Tools.Orders
use cang_qiong_project.Tools.Orders.{GetOrderInput, CancelOrderInput, CancelOrderOutput}
use cang_qiong_project.Tools.Refunds
use cang_qiong_project.Tools.Refunds.{RequestRefundInput}
use cang_qiong_project.Tools.Tickets
use cang_qiong_project.Tools.Tickets.{CreateSupportTicketInput}
use cang_qiong_project.Tools.Escalations
use cang_qiong_project.Tools.Escalations.{EscalateToHumanInput}
use cang_qiong_project.Agent.Catalog.{
  ToolInput, customer_input, order_input, ticket_input, cancel_input, refund_input, create_input,
  escalate_input, customer_of,
}

pub record Outside : Type 0 where
  pub cancel_digest : CancelOrderInput → String
  pub refund_digest : RequestRefundInput → String
  pub ticket_digest : CreateSupportTicketInput → String
  pub escalation_digest : EscalateToHumanInput → String
  pub early : Session → Session
  pub late : Session → Session

pub data ToolResult : Type 0 where
  customer_result : Customer → ToolResult
  orders_result : List Order → ToolResult
  tickets_result : List SupportTicket → ToolResult
  order_result : Order → ToolResult
  ticket_result : SupportTicket → ToolResult
  cancel_result : CancelOrderOutput → ToolResult
  refund_result : RefundRequest → ToolResult
  escalation_result : Escalation → ToolResult

-- The exceptions of a tool, and the `ValueError` of `_require_idempotency`.
pub data CallFailure : Type 0 where
  tool_failure : ToolFailure → CallFailure
  missing_idempotency : CallFailure

unfoldable pub returned {ℓ} :
    {A : Type ℓ} → (A → ToolResult) → Result ToolFailure A → Result CallFailure ToolResult
returned f (ok a) = ok (f a)
returned f (err e) = err (tool_failure e)

abbrev pub changed {ℓ} :
    {A : Type ℓ}
    → (A → ToolResult)
    → Result ToolFailure A × Session
    → Result CallFailure ToolResult × Session
changed f x = (returned f x.0, x.1)

-- The three tools that take a customer.
unfoldable pub execute_customer :
    String → Session → GetCustomerInput → String → Result CallFailure ToolResult
execute_customer name s r tenant_id =
    if name =ₛ "get_customer"
    then returned customer_result (Customers.get_customer s r tenant_id)
    else if name =ₛ "get_customer_orders"
    then returned orders_result (Customers.get_customer_orders s r tenant_id)
    else returned tickets_result (Customers.get_customer_tickets s r tenant_id)

-- A write with its idempotency scope.
unfoldable pub with_scope :
    Session
    → Option IdempotencyScope
    → (IdempotencyScope → Result CallFailure ToolResult × Session)
    → Result CallFailure ToolResult × Session
with_scope s none write = (err missing_idempotency, s)
with_scope s (some scope) write = write scope

unfoldable pub execute_scoped :
    Outside
    → String
    → Session
    → String
    → ToolInput
    → Option IdempotencyScope
    → Result CallFailure ToolResult × Session
unfolding returned
execute_scoped out name s tenant_id (customer_input r) scope =
    (execute_customer name s r tenant_id, s)
execute_scoped out name s tenant_id (order_input r) scope =
    (returned order_result (Orders.get_order s r tenant_id), s)
execute_scoped out name s tenant_id (ticket_input r) scope =
    (returned ticket_result (Tickets.get_ticket s r.ticket_id r.customer_id tenant_id), s)
execute_scoped out name s tenant_id (create_input r) scope = with_scope s scope (λ i.
    changed ticket_result
      (Tickets.create_support_ticket out.ticket_digest out.early out.late i tenant_id r s))
execute_scoped out name s tenant_id (cancel_input r) scope = with_scope s scope (λ i.
    changed cancel_result
      (Orders.cancel_order out.cancel_digest out.early out.late i tenant_id r s))
execute_scoped out name s tenant_id (refund_input r) scope = with_scope s scope (λ i.
    changed refund_result
      (Refunds.request_refund out.refund_digest out.early out.late i tenant_id r s))
execute_scoped out name s tenant_id (escalate_input r) scope = with_scope s scope (λ i.
    changed escalation_result
      (Escalations.escalate_to_human out.escalation_digest out.early out.late i tenant_id r s))

-- `_scoped`, and the call of the tool with the name.
unfoldable pub execute :
    Outside
    → String
    → Session
    → ExecutionContext
    → ToolInput
    → Option IdempotencyScope
    → Result CallFailure ToolResult × Session
execute out name s context input scope =
    if customer_of input == context.effective_customer_id
    then execute_scoped out name s context.tenant_id input scope
    else (
      err (
          tool_failure
            (ownership_error "Customer scope" (customer_of input) context.effective_customer_id)),
      s,
    )
