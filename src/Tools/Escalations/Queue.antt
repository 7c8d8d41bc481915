-- ===== src/Tools/Escalations/Queue.antt =====
-- What the escalation tool of sky-agent/app/tools/escalation.py stores.
use cang_qiong_project.Common.{
  ℕ, String, ◌≡◌, ap, ◌∙◌, ◌⊎◌, inl, inr, Option, none, some, ◌∷◌, arith, eq_refl, Option-cases, ok,
}
use cang_qiong_project.Models.{Session, SupportTicket, Escalation}
use cang_qiong_project.Services.Lookup
use cang_qiong_project.Services.Idempotency.{IdempotencyScope, receipt}
use cang_qiong_project.Services.Idempotency.Replay.{repeated_request_same}
use cang_qiong_project.Services.Idempotency.Cases.{execute-cases}
use cang_qiong_project.Tools.Tickets.{check_order}
use cang_qiong_project.Tools.Tickets.Create.{IsOwned, check_order-IsOwned}
use cang_qiong_project.Tools.Escalations.{
  EscalateToHumanInput, check_ticket, new_escalation, load_escalation, perform_escalation,
  escalate_to_human,
}

perform_escalation-stores :
    (fingerprint : String) (scope : IdempotencyScope) (tenant : String)
    (request : EscalateToHumanInput) (late : Session → Session) (s t : Session) (x : Escalation)
    (id : ℕ)
    → perform_escalation tenant request late s ≡ ok (x, id, t)
    → load_escalation tenant id (record t {
      receipts =
          receipt scope "escalate_to_human" request.customer_id fingerprint
            (load_escalation tenant)
            id
          ∷ t.receipts;
    })
      ≡ ok x
unfolding perform_escalation load_escalation
perform_escalation-stores fingerprint scope tenant request late s t x id h =
    ground (arith, eq_refl tenant)

-- The ticket of a request, if it refers to one, is the customer's.
abbrev pub IsOwnTicket : Session → String → ℕ → Option ℕ → Type 0
IsOwnTicket s tenant customer_id none = Unit
IsOwnTicket s tenant customer_id (some ticket_id) =
    (t : SupportTicket) × (Lookup.get_ticket s ticket_id tenant ≡ some t)
    × (t.customer_id ≡ customer_id)

check_ticket-IsOwnTicket :
    (s : Session) (tenant : String) (customer_id : ℕ) (ticket_id : Option ℕ)
    → check_ticket s tenant customer_id ticket_id ≡ ok tt
    → IsOwnTicket s tenant customer_id ticket_id
unfolding check_ticket
check_ticket-IsOwnTicket s tenant customer_id none h = tt
check_ticket-IsOwnTicket s tenant customer_id (some ticket_id) h =
    elim (Option-cases (Lookup.get_ticket s ticket_id tenant)) [
      | inl e ↦ absurd (ground (arith, e))
      | inr (t, e) ↦ (t, e, ground (arith, e))
    ]

-- What the work checked and wrote.
perform_escalation-writes :
    (tenant : String) (request : EscalateToHumanInput) (late : Session → Session) (s t : Session)
    (x : Escalation) (id : ℕ)
    → perform_escalation tenant request late s ≡ ok (x, id, t)
    → (t.escalations ≡ x ∷ (late s).escalations)
      × (x ≡ new_escalation tenant request x.id)
      × (check_ticket s tenant request.customer_id request.ticket_id ≡ ok tt)
      × (check_order s tenant request.customer_id request.order_id ≡ ok tt)
unfolding perform_escalation
perform_escalation-writes tenant request late s t x id h = ground arith

module _ (fingerprint : EscalateToHumanInput → String) (early late : Session → Session)
    (scope : IdempotencyScope) (tenant : String) (request : EscalateToHumanInput)
    (s : Session) where
  -- An escalation that succeeded is idempotent: made again with its key, on the session that it
  -- left, it returns the same escalation and writes nothing, whatever other transactions commit
  -- meanwhile.
  escalate_idempotent :
      (early' late' : Session → Session) (s' : Session) (x : Escalation)
      → escalate_to_human fingerprint early late scope tenant request s ≡ (ok x, s')
      → escalate_to_human fingerprint early' late' scope tenant request s' ≡ (ok x, s')
  unfolding escalate_to_human
  escalate_idempotent early' late' s' x h =
      repeated_request_same scope "escalate_to_human" request.customer_id (fingerprint request)
        (load_escalation tenant) early late early' late' (perform_escalation tenant request)
        (perform_escalation tenant request) s s' x
        (λ y id t e.
          perform_escalation-stores (fingerprint request) scope tenant request late (early s) t y id
            e)
        h

  -- Where a request has queued an escalation of its own, the one it returns, the ticket and the
  -- order that it refers to, if any, were in the tenant and the customer's. Otherwise the session
  -- is as before, or as other transactions left it.
  pub escalation-IsOwned :
      let end = escalate_to_human fingerprint early late scope tenant request s in
      (end.1 ≡ s)
      ⊎ (end.1 ≡ late (early s))
      ⊎ ((x : Escalation) × (end.0 ≡ ok x)
          × (end.1.escalations ≡ x ∷ (late (early s)).escalations)
          × (x ≡ new_escalation tenant request x.id)
          × IsOwnTicket (early s) tenant request.customer_id request.ticket_id
          × IsOwned (early s) tenant request.customer_id request.order_id)
  unfolding escalate_to_human
  escalation-IsOwned =
      elim (execute-cases scope "escalate_to_human" request.customer_id (fingerprint request)
        (load_escalation tenant) early late (perform_escalation tenant request) s) [
          | inl e ↦ inl e
          | inr (inl e) ↦ inr (inl e)
          | inr (inr p) ↦
              let (rows, x_eq, ticket, order) =
                perform_escalation-writes tenant request late (early s) p.session p.result
                  p.result_id p.worked in
              inr (
                inr (
                  p.result,
                  ap (λ x. x.0) p.returned,
                  ap (λ x. x.1.escalations) p.returned ∙ rows,
                  x_eq,
                  check_ticket-IsOwnTicket (early s) tenant request.customer_id request.ticket_id
                      ticket,
                  check_order-IsOwned (early s) tenant request.customer_id request.order_id order,
                ))
        ]
