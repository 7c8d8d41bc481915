-- ===== src/Services/Lookup.antt =====
-- The scoped reads of sky-agent/app/services: customer_service.py, order_service.py and
-- ticket_service.py. `session.scalar` gives the first row that a query selects.
use cang_qiong_project.Common.{
  ℕ, String, ◌&&◌, Option, List, [], ◌∷◌, ◌=ₛ◌, leb, ◌==◌, if◌then◌else◌, find, filter,
}
use cang_qiong_project.Models.{Session, Customer, Order, SupportTicket}

unfoldable pub get_customer : Session → ℕ → String → Option Customer
get_customer s customer_id tenant_id =
    find (λ c. c.id == customer_id && c.tenant_id =ₛ tenant_id) s.customers

unfoldable pub get_customer_for_scope : Session → ℕ → ℕ → String → Option Customer
get_customer_for_scope s customer_id scope_customer_id tenant_id =
    find (λ c. c.id == customer_id && c.id == scope_customer_id && c.tenant_id =ₛ tenant_id)
      s.customers

unfoldable pub get_order : Session → ℕ → String → Option Order
get_order s order_id tenant_id = find (λ o. o.id == order_id && o.tenant_id =ₛ tenant_id) s.orders

unfoldable pub get_order_for_customer : Session → ℕ → ℕ → String → Option Order
get_order_for_customer s order_id customer_id tenant_id =
    find (λ o. o.id == order_id && o.customer_id == customer_id && o.tenant_id =ₛ tenant_id)
      s.orders

unfoldable pub get_ticket : Session → ℕ → String → Option SupportTicket
get_ticket s ticket_id tenant_id =
    find (λ t. t.id == ticket_id && t.tenant_id =ₛ tenant_id) s.tickets

unfoldable pub get_ticket_for_customer : Session → ℕ → ℕ → String → Option SupportTicket
get_ticket_for_customer s ticket_id customer_id tenant_id =
    find (λ t. t.id == ticket_id && t.customer_id == customer_id && t.tenant_id =ₛ tenant_id)
      s.tickets

-- `order_by(Order.id)` and `order_by(SupportTicket.id)`.
unfoldable pub insert_by_id {ℓ} : {R : Type ℓ} → (R → ℕ) → R → List R → List R
insert_by_id id r [] = r ∷ []
insert_by_id id r (q ∷ rows) =
    if leb (id r) (id q) then r ∷ q ∷ rows else q ∷ insert_by_id id r rows

unfoldable pub order_by_id {ℓ} : {R : Type ℓ} → (R → ℕ) → List R → List R
unfolding insert_by_id
order_by_id id [] = []
order_by_id id (r ∷ rows) = insert_by_id id r (order_by_id id rows)

unfoldable pub get_customer_orders : Session → ℕ → String → List Order
unfolding order_by_id
get_customer_orders s customer_id tenant_id =
    order_by_id (λ o. o.id)
      (filter (λ o. o.customer_id == customer_id && o.tenant_id =ₛ tenant_id) s.orders)

unfoldable pub get_customer_tickets : Session → ℕ → String → List SupportTicket
unfolding order_by_id
get_customer_tickets s customer_id tenant_id =
    order_by_id (λ t. t.id)
      (filter (λ t. t.customer_id == customer_id && t.tenant_id =ₛ tenant_id) s.tickets)
