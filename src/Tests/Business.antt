-- ===== src/Tests/Business.antt =====
-- The tools, the policy and the contexts at concrete requests.
use cang_qiong_project.Common.{
  String, ◌≡◌, refl, ◌⊎◌, true, none, some, [], ◌∷◌, arith, is_some, Result, ok,
}
use cang_qiong_project.Models.{
  Session, Order, delivered, processing, RefundRequest, requested, cancelled, Escalation, high,
  SupportTicket, queued, open_ticket,
}
use cang_qiong_project.Services.Lookup
use cang_qiong_project.Services.Idempotency.{
  get_receipt, ToolFailure, IdempotencyScope, ToolFailure,
}
use cang_qiong_project.Tools.Orders.{CancelOrderInput, CancelOrderOutput, cancel_order}
use cang_qiong_project.Tools.Orders.Cancel.{IsCancelled, cancel_order_effect}
use cang_qiong_project.Tools.Tickets.{CreateSupportTicketInput, create_support_ticket, new_ticket}
use cang_qiong_project.Tools.Tickets.Create.{IsOwned, ticket-IsOwned}
use cang_qiong_project.Tools.Escalations.{EscalateToHumanInput, escalate_to_human, new_escalation}
use cang_qiong_project.Tools.Escalations.Queue.{IsOwnTicket, escalation-IsOwned}
use cang_qiong_project.Tools.Refunds.{new_refund, RequestRefundInput, request_refund, new_refund}
use cang_qiong_project.Tools.Refunds.Active.{
  HasOneActive, request_refund-HasOneActive, refund_is_eligible, count_active,
}
use cang_qiong_project.Tools.Refunds.Request.{request_refund_idempotent}

abbrev pub shop : Session
shop = record {
  customers = record { id = 7; tenant_id = "sky" } ∷ [];
  orders =
      record { id = 1; tenant_id = "sky"; customer_id = 7; status = delivered; created_at = 10 }
      ∷ record { id = 2; tenant_id = "sky"; customer_id = 7; status = processing; created_at = 20 }
      ∷ [];
  tickets = [];
  refunds = [];
  escalations = [];
  receipts = [];
  next_id = 100;
}

abbrev pub scope : IdempotencyScope
scope = record { actor_id = "actor"; key = "k1"; tenant_id = "sky" }

abbrev pub stay : Session → Session
stay s = s

abbrev refund_input : RequestRefundInput
refund_input = record { customer_id = 7; order_id = 1; reason = "broken" }

abbrev refund_print : RequestRefundInput → String
refund_print r = r.reason

abbrev refund_end : Result ToolFailure RefundRequest × Session
refund_end = request_refund refund_print stay stay scope "sky" refund_input shop

abbrev refund_made : RefundRequest
refund_made = record {
  id = 100;
  tenant_id = "sky";
  customer_id = 7;
  order_id = 1;
  reason = "broken";
  status = requested;
}

refund_runs : refund_end ≡ (ok refund_made, refund_end.1)
unfolding request_refund get_receipt Lookup.get_order
refund_runs = refl

shop-HasOneActive : HasOneActive shop
unfolding count_active
shop-HasOneActive tenant order = omega arith

request_refund-HasOneActive_example : HasOneActive refund_end.1
request_refund-HasOneActive_example =
    request_refund-HasOneActive refund_print stay stay scope "sky" refund_input shop (λ t h. h)
      (λ t h. h) shop-HasOneActive

request_refund_idempotent_example :
    request_refund refund_print stay stay scope "sky" refund_input refund_end.1
    ≡ (ok refund_made, refund_end.1)
request_refund_idempotent_example =
    request_refund_idempotent refund_print stay stay stay stay scope "sky" refund_input shop
      refund_end.1 refund_made refund_runs

refund_is_eligible_example :
    (refund_end.1 ≡ shop)
    ⊎ (refund_end.1 ≡ shop)
    ⊎ ((r : RefundRequest) × (o : Order) × (refund_end.0 ≡ ok r)
        × (refund_end.1.refunds ≡ r ∷ [])
        × (r ≡ new_refund "sky" refund_input r.id)
        × (Lookup.get_order shop 1 "sky" ≡ some o)
        × (o.customer_id ≡ 7)
        × (o.status ≡ delivered))
refund_is_eligible_example = refund_is_eligible refund_print stay stay scope "sky" refund_input shop

abbrev cancel_input : CancelOrderInput
cancel_input = record { customer_id = 7; order_id = 2 }

abbrev cancel_print : CancelOrderInput → String
cancel_print r = "order"

abbrev cancel_end : Result ToolFailure CancelOrderOutput × Session
cancel_end = cancel_order cancel_print stay stay scope "sky" cancel_input shop

cancel_runs :
    cancel_end.0 ≡ ok (record { order_id = 2; customer_id = 7; status = cancelled; changed = true })
unfolding cancel_order get_receipt Lookup.get_order
cancel_runs = refl

cancel_order_effect_example :
    (cancel_end.1 ≡ shop)
    ⊎ (cancel_end.1 ≡ shop)
    ⊎ ((out : CancelOrderOutput) × (cancel_end.0 ≡ ok out)
        × IsCancelled "sky" cancel_input shop out cancel_end.1)
cancel_order_effect_example =
    cancel_order_effect cancel_print stay stay scope "sky" cancel_input shop

abbrev ticket_input : CreateSupportTicketInput
ticket_input = record {
  customer_id = 7;
  order_id = some 1;
  category = "delivery";
  description = "late";
}

abbrev ticket_print : CreateSupportTicketInput → String
ticket_print r = r.description

abbrev ticket_end : Result ToolFailure SupportTicket × Session
ticket_end = create_support_ticket ticket_print stay stay scope "sky" ticket_input shop

abbrev ticket_made : SupportTicket
ticket_made = record {
  id = 100;
  tenant_id = "sky";
  customer_id = 7;
  order_id = some 1;
  category = "delivery";
  status = open_ticket;
  description = "late";
}

ticket_runs : ticket_end ≡ (ok ticket_made, ticket_end.1)
unfolding create_support_ticket get_receipt Lookup.get_order Lookup.get_customer
ticket_runs = refl

ticket-IsOwned_example :
    (ticket_end.1 ≡ shop)
    ⊎ (ticket_end.1 ≡ shop)
    ⊎ ((x : SupportTicket) × (ticket_end.0 ≡ ok x)
        × (ticket_end.1.tickets ≡ x ∷ [])
        × (x ≡ new_ticket "sky" ticket_input x.id)
        × (is_some (Lookup.get_customer shop 7 "sky") ≡ true)
        × IsOwned shop "sky" 7 (some 1))
ticket-IsOwned_example = ticket-IsOwned ticket_print stay stay scope "sky" ticket_input shop

abbrev escalation_input : EscalateToHumanInput
escalation_input = record {
  customer_id = 7;
  ticket_id = none;
  order_id = some 2;
  reason = "angry";
  priority = high;
  summary = "wants a person";
}

abbrev escalation_print : EscalateToHumanInput → String
escalation_print r = r.summary

abbrev escalation_end : Result ToolFailure Escalation × Session
escalation_end = escalate_to_human escalation_print stay stay scope "sky" escalation_input shop

abbrev escalation_made : Escalation
escalation_made = record {
  id = 100;
  tenant_id = "sky";
  customer_id = 7;
  ticket_id = none;
  order_id = some 2;
  reason = "angry";
  priority = high;
  summary = "wants a person";
  status = queued;
}

escalation_runs : escalation_end ≡ (ok escalation_made, escalation_end.1)
unfolding escalate_to_human get_receipt Lookup.get_order Lookup.get_customer
escalation_runs = refl

escalation-IsOwned_example :
    (escalation_end.1 ≡ shop)
    ⊎ (escalation_end.1 ≡ shop)
    ⊎ ((x : Escalation) × (escalation_end.0 ≡ ok x)
        × (escalation_end.1.escalations ≡ x ∷ [])
        × (x ≡ new_escalation "sky" escalation_input x.id)
        × IsOwnTicket shop "sky" 7 none
        × IsOwned shop "sky" 7 (some 2))
escalation-IsOwned_example =
    escalation-IsOwned escalation_print stay stay scope "sky" escalation_input shop
