-- ===== src/Tools/Tickets/Create.antt =====
-- What the ticket tool of sky-agent/app/tools/tickets.py stores.
use cang_qiong_project.Common.{
  ℕ, String, ◌≡◌, ap, ◌∙◌, ◌⊎◌, inl, inr, true, Option, none, some, ◌∷◌, arith, eq_refl,
  Option-cases, is_some, ok,
}
use cang_qiong_project.Models.{Session, Order, SupportTicket}
use cang_qiong_project.Services.Lookup
use cang_qiong_project.Services.Idempotency.{IdempotencyScope, receipt}
use cang_qiong_project.Services.Idempotency.Replay.{repeated_request_same}
use cang_qiong_project.Services.Idempotency.Cases.{execute-cases}
use cang_qiong_project.Tools.Tickets.{
  CreateSupportTicketInput, check_order, check_customer, new_ticket, load_ticket, perform_ticket,
  create_support_ticket,
}

perform_ticket-stores :
    (fingerprint : String) (scope : IdempotencyScope) (tenant : String)
    (request : CreateSupportTicketInput) (late : Session → Session) (s t : Session)
    (x : SupportTicket) (id : ℕ)
    → perform_ticket tenant request late s ≡ ok (x, id, t)
    → load_ticket tenant id (record t {
      receipts =
          receipt scope "create_support_ticket" request.customer_id fingerprint
            (load_ticket tenant)
            id
          ∷ t.receipts;
    })
      ≡ ok x
unfolding perform_ticket load_ticket Lookup.get_ticket
perform_ticket-stores fingerprint scope tenant request late s t x id h =
    ground (arith, eq_refl tenant)

-- The order of a request, if it refers to one, is the customer's.
abbrev pub IsOwned : Session → String → ℕ → Option ℕ → Type 0
IsOwned s tenant customer_id none = Unit
IsOwned s tenant customer_id (some order_id) =
    (o : Order) × (Lookup.get_order s order_id tenant ≡ some o) × (o.customer_id ≡ customer_id)

pub check_order-IsOwned :
    (s : Session) (tenant : String) (customer_id : ℕ) (order_id : Option ℕ)
    → check_order s tenant customer_id order_id ≡ ok tt
    → IsOwned s tenant customer_id order_id
unfolding check_order
check_order-IsOwned s tenant customer_id none h = tt
check_order-IsOwned s tenant customer_id (some order_id) h =
    elim (Option-cases (Lookup.get_order s order_id tenant)) [
      | inl e ↦ absurd (ground (arith, e))
      | inr (o, e) ↦ (o, e, ground (arith, e))
    ]

-- What the work checked and wrote.
perform_ticket-writes :
    (tenant : String) (request : CreateSupportTicketInput) (late : Session → Session)
    (s t : Session) (x : SupportTicket) (id : ℕ)
    → perform_ticket tenant request late s ≡ ok (x, id, t)
    → (t.tickets ≡ x ∷ (late s).tickets)
      × (x ≡ new_ticket tenant request x.id)
      × (is_some (Lookup.get_customer s request.customer_id tenant) ≡ true)
      × (check_order s tenant request.customer_id request.order_id ≡ ok tt)
unfolding perform_ticket check_customer
perform_ticket-writes tenant request late s t x id h = ground arith

module _ (fingerprint : CreateSupportTicketInput → String) (early late : Session → Session)
    (scope : IdempotencyScope) (tenant : String) (request : CreateSupportTicketInput)
    (s : Session) where
  -- The creation of a ticket that succeeded is idempotent: made again with its key, on the session
  -- that it left, it returns the same ticket and writes nothing, whatever other transactions
  -- commit meanwhile.
  create_ticket_idempotent :
      (early' late' : Session → Session) (s' : Session) (x : SupportTicket)
      → create_support_ticket fingerprint early late scope tenant request s ≡ (ok x, s')
      → create_support_ticket fingerprint early' late' scope tenant request s' ≡ (ok x, s')
  unfolding create_support_ticket
  create_ticket_idempotent early' late' s' x h =
      repeated_request_same scope "create_support_ticket" request.customer_id (fingerprint request)
        (load_ticket tenant) early late early' late' (perform_ticket tenant request)
        (perform_ticket tenant request) s s' x
        (λ y id t e.
          perform_ticket-stores (fingerprint request) scope tenant request late (early s) t y id e)
        h

  -- Where a request has written a ticket of its own, the one it returns, its customer was in the
  -- tenant, and the order that it refers to, if any, was there and the customer's. Otherwise the
  -- session is as before, or as other transactions left it.
  pub ticket-IsOwned :
      let end = create_support_ticket fingerprint early late scope tenant request s in
      (end.1 ≡ s)
      ⊎ (end.1 ≡ late (early s))
      ⊎ ((x : SupportTicket) × (end.0 ≡ ok x)
          × (end.1.tickets ≡ x ∷ (late (early s)).tickets)
          × (x ≡ new_ticket tenant request x.id)
          × (is_some (Lookup.get_customer (early s) request.customer_id tenant) ≡ true)
          × IsOwned (early s) tenant request.customer_id request.order_id)
  unfolding create_support_ticket
  ticket-IsOwned =
      elim (execute-cases scope "create_support_ticket" request.customer_id (fingerprint request)
        (load_ticket tenant) early late (perform_ticket tenant request) s) [
          | inl e ↦ inl e
          | inr (inl e) ↦ inr (inl e)
          | inr (inr p) ↦
              let (tickets, x_eq, known, checked) =
                perform_ticket-writes tenant request late (early s) p.session p.result p.result_id
                  p.worked in
              inr (
                inr (
                  p.result,
                  ap (λ x. x.0) p.returned,
                  ap (λ x. x.1.tickets) p.returned ∙ tickets,
                  x_eq,
                  known,
                  check_order-IsOwned (early s) tenant request.customer_id request.order_id checked,
                ))
        ]
