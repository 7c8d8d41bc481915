-- ===== src/Tools/Tickets.antt =====
-- sky-agent/app/tools/tickets.py.
pub mod Create
use cang_qiong_project.Common.{
  ℕ, ◌+◌, String, Option, none, some, ◌∷◌, ◌==◌, if◌then◌else◌, Result, ok, err, ◌>>=◌,
}
use cang_qiong_project.Models.{Session, Order, Customer, SupportTicket, open_ticket}
use cang_qiong_project.Services.Lookup
use cang_qiong_project.Services.Idempotency.{
  IdempotencyScope, ToolFailure, resource_not_found, ownership_error, execute_idempotent,
}

pub record CreateSupportTicketInput : Type 0 where
  pub customer_id : ℕ
  pub order_id : Option ℕ
  pub category : String
  pub description : String

unfoldable pub loaded : ℕ → Option SupportTicket → Result ToolFailure SupportTicket
loaded ticket_id none = err (resource_not_found "Support ticket" ticket_id)
loaded ticket_id (some t) = ok t

-- The tool `get_ticket`.
unfoldable pub get_ticket : Session → ℕ → ℕ → String → Result ToolFailure SupportTicket
unfolding loaded Lookup.get_ticket_for_customer
get_ticket s ticket_id customer_id tenant_id =
    loaded ticket_id (Lookup.get_ticket_for_customer s ticket_id customer_id tenant_id)

unfoldable pub load_ticket : String → ℕ → Session → Result ToolFailure SupportTicket
unfolding loaded
load_ticket tenant_id ticket_id s = loaded ticket_id (Lookup.get_ticket s ticket_id tenant_id)

known_customer : ℕ → Option Customer → Result ToolFailure (Unit {0})
known_customer customer_id none = err (resource_not_found "Customer" customer_id)
known_customer customer_id (some c) = ok tt

owned : ℕ → ℕ → Option Order → Result ToolFailure (Unit {0})
owned customer_id order_id none = err (resource_not_found "Order" order_id)
owned customer_id order_id (some o) =
    if o.customer_id == customer_id
    then ok tt
    else err (ownership_error "Order" order_id customer_id)

-- The check of the order that a request refers to, if any.
unfoldable pub check_order : Session → String → ℕ → Option ℕ → Result ToolFailure (Unit {0})
unfolding owned
check_order s tenant_id customer_id none = ok tt
check_order s tenant_id customer_id (some order_id) =
    owned customer_id order_id (Lookup.get_order s order_id tenant_id)

unfoldable pub check_customer : Session → String → ℕ → Result ToolFailure (Unit {0})
unfolding known_customer
check_customer s tenant_id customer_id =
    known_customer customer_id (Lookup.get_customer s customer_id tenant_id)

abbrev pub new_ticket : String → CreateSupportTicketInput → ℕ → SupportTicket
new_ticket tenant_id request id = record {
  id = id;
  tenant_id = tenant_id;
  customer_id = request.customer_id;
  order_id = request.order_id;
  category = request.category;
  status = open_ticket;
  description = request.description;
}

abbrev pub insert_ticket : String → CreateSupportTicketInput → Session → SupportTicket × ℕ × Session
insert_ticket tenant_id request s = (
  new_ticket tenant_id request s.next_id,
  s.next_id,
  record s {
    tickets = new_ticket tenant_id request s.next_id ∷ s.tickets;
    next_id = s.next_id + 1;
  },
)

unfoldable pub perform_ticket :
    String
    → CreateSupportTicketInput
    → (Session → Session)
    → Session
    → Result ToolFailure (SupportTicket × ℕ × Session)
unfolding check_customer check_order
perform_ticket tenant_id request late s = do
  _ ← check_customer s tenant_id request.customer_id
  _ ← check_order s tenant_id request.customer_id request.order_id
  ok (insert_ticket tenant_id request (late s))

unfoldable pub create_support_ticket :
    (CreateSupportTicketInput → String)
    → (early late : Session → Session) → IdempotencyScope
    → String
    → CreateSupportTicketInput
    → Session
    → Result ToolFailure SupportTicket × Session
unfolding perform_ticket execute_idempotent load_ticket
create_support_ticket fingerprint early late scope tenant_id request s =
    execute_idempotent scope "create_support_ticket" request.customer_id (fingerprint request)
      (load_ticket tenant_id) early late (perform_ticket tenant_id request) s
