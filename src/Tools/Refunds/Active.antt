-- ===== src/Tools/Refunds/Active.antt =====
-- At most one refund request of an order is active, under sky-agent/app/tools/refunds.py.
use cang_qiong_project.Common.{
  ℕ, suc, ◌≤◌, String, ◌≡◌, refl, ap, ◌⊎◌, inl, inr, false, some, List, [], ◌∷◌, arith, eq_iff,
  if◌then◌else◌, Option-cases, any, Result, ok, err,
}
use cang_qiong_project.Models.{Session, Order, RefundRequest, delivered, is_active_for}
use cang_qiong_project.Services.Lookup
use cang_qiong_project.Services.Idempotency.{IdempotencyScope, ToolFailure, execute_idempotent}
use cang_qiong_project.Services.Idempotency.Cases.{execute-cases}
use cang_qiong_project.Tools.Orders.{as_duplicate}
use cang_qiong_project.Tools.Refunds.{
  RequestRefundInput, load_refund, validate_refund_request, insert_refund, perform_refund,
  request_refund, new_refund,
}

unfoldable pub count_active : String → ℕ → List RefundRequest → ℕ
count_active tenant order [] = 0
count_active tenant order (r ∷ rs) =
    let rest = count_active tenant order rs in
    if is_active_for tenant order r then suc rest else rest

abbrev pub HasOneActive : Session → Type 0
HasOneActive s = (tenant : String) (order : ℕ) → count_active tenant order s.refunds ≤ 1

none_active :
    (tenant : String) (order : ℕ) (rs : List RefundRequest)
    → any (is_active_for tenant order) rs ≡ false
    → count_active tenant order rs ≡ 0
unfolding count_active
none_active tenant order [] h = refl
none_active tenant order (r ∷ rs) h = ground (arith, none_active tenant order rs)

insert-HasOneActive :
    (tenant : String) (request : RequestRefundInput) (s t : Session) (r : RefundRequest) (id : ℕ)
    → HasOneActive s
    → insert_refund tenant request s ≡ ok (r, id, t)
    → HasOneActive t
unfolding insert_refund count_active is_active_for
insert-HasOneActive tenant request s t r id inv h tenant' order' = ground (
  arith,
  inv tenant' order',
  eq_iff tenant tenant',
  none_active tenant request.order_id s.refunds,
  none_active tenant' order' s.refunds,
)

as_duplicate-session : (x : Result ToolFailure RefundRequest × Session) → (as_duplicate x).1 ≡ x.1
unfolding as_duplicate
as_duplicate-session (ok a, s) = refl
as_duplicate-session (err e, s) = ground arith

module _ (fingerprint : RequestRefundInput → String) (early late : Session → Session)
    (scope : IdempotencyScope) (tenant : String) (request : RequestRefundInput) (s : Session) where
  -- How a request ends: nothing of its own is written, or it is performed.
  request_refund-cases :
      let end = request_refund fingerprint early late scope tenant request s in
      (end.1 ≡ s)
      ⊎ (end.1 ≡ late (early s))
      ⊎ ((r : RefundRequest) × (id : ℕ) × (t : Session) × (perform_refund tenant request late
              (early s)
            ≡ ok (r, id, t))
          × (end.1.refunds ≡ t.refunds)
          × (end.0 ≡ ok r))
  unfolding request_refund
  request_refund-cases =
      let end =
        execute_idempotent scope "request_refund" request.customer_id (fingerprint request)
          (load_refund tenant) early late (perform_refund tenant request) s in
      rw (as_duplicate-session end)
        (elim (execute-cases scope "request_refund" request.customer_id (fingerprint request)
          (load_refund tenant) early late (perform_refund tenant request) s) [
            | inl e ↦ inl e
            | inr (inl e) ↦ inr (inl e)
            | inr (inr p) ↦ inr (
                inr (
                  p.result,
                  p.result_id,
                  p.session,
                  p.worked,
                  ap (λ x. x.1.refunds) p.returned,
                  ap (λ x. (as_duplicate x).0) p.returned,
                ))
          ])

  -- Whatever the request and its outcome, no order gets a second active refund request. The
  -- session has at most one for each order, and the other transactions keep it so.
  pub request_refund-HasOneActive :
      ((t : Session) → HasOneActive t → HasOneActive (early t))
      → ((t : Session) → HasOneActive t → HasOneActive (late t))
      → HasOneActive s
      → HasOneActive (request_refund fingerprint early late scope tenant request s).1
  request_refund-HasOneActive early_keeps late_keeps inv = elim request_refund-cases [
    | inl e ↦ rw e inv
    | inr (inl e) ↦ rw e (late_keeps (early s) (early_keeps s inv))
    | inr (inr (r, id, t, worked, refunds, result)) ↦ λ tenant' order'. rw refunds (
        insert-HasOneActive tenant request (late (early s)) t r id
          (late_keeps (early s) (early_keeps s inv)) (unfold perform_refund in ground arith) tenant'
          order')
  ]

  -- Where a request has written a refund of its own, the one it returns, the order was there, in
  -- the tenant, delivered and the customer's, and the refund is in state REQUESTED with the
  -- request's reason. Otherwise the session is as before, or as other transactions left it.
  pub refund_is_eligible :
      let end = request_refund fingerprint early late scope tenant request s in
      (end.1 ≡ s)
      ⊎ (end.1 ≡ late (early s))
      ⊎ ((r : RefundRequest) × (o : Order) × (end.0 ≡ ok r)
          × (end.1.refunds ≡ r ∷ (late (early s)).refunds)
          × (r ≡ new_refund tenant request r.id)
          × (Lookup.get_order (early s) request.order_id tenant ≡ some o)
          × (o.customer_id ≡ request.customer_id)
          × (o.status ≡ delivered))
  refund_is_eligible = elim request_refund-cases [
    | inl e ↦ inl e
    | inr (inl e) ↦ inr (inl e)
    | inr (inr (r, id, t, worked, refunds, result)) ↦
        elim (Option-cases (Lookup.get_order (early s) request.order_id tenant)) [
          | inl e ↦
              absurd (unfold perform_refund validate_refund_request in ground (arith, e, worked))
          | inr (o, e) ↦ inr (
              inr (
                r,
                o,
                result,
                unfold perform_refund insert_refund in ground (arith, e, worked, refunds),
                unfold perform_refund insert_refund in ground (arith, e, worked),
                e,
                unfold perform_refund validate_refund_request in ground (arith, e, worked),
                unfold perform_refund validate_refund_request in ground (arith, e, worked),
              ))
        ]
  ]
