-- ===== src/Tools/Orders/Cancel.antt =====
-- What the cancellation of sky-agent/app/tools/orders.py changes.
use cang_qiong_project.Common.{
  ℕ, String, ◌≡◌, refl, sym, ap, subst, ◌≢◌, ◌⊎◌, inl, inr, ◌&&◌, not, some, List, [], ◌∷◌, arith,
  ◌=ₛ◌, ◌==◌, Bool-cases, Option-cases, find, Result, ok, err,
}
use cang_qiong_project.Models.{
  pending, processing, BusinessActionReceipt, Session, Order, cancelled,
}
use cang_qiong_project.Services.Lookup
use cang_qiong_project.Services.Idempotency.{IdempotencyScope, ToolFailure, execute_idempotent}
use cang_qiong_project.Services.Idempotency.Cases.{execute-cases}
use cang_qiong_project.Tools.Orders.{
  as_duplicate, CancelOrderInput, CancelOrderOutput, is_cancelled, load_cancelled, set_cancelled,
  validate_cancel_order, perform_cancel, cancel_order,
}

-- The order that was found is cancelled where it stands.
get_order-set_cancelled_self :
    (os : List Order) (id : ℕ) (tenant : String) (o : Order)
    → find (λ o. o.id == id && o.tenant_id =ₛ tenant) os ≡ some o
    → find (λ o. o.id == id && o.tenant_id =ₛ tenant) (set_cancelled id os)
      ≡ some (record o { status = cancelled })
unfolding set_cancelled
get_order-set_cancelled_self [] id tenant o h = cc
get_order-set_cancelled_self (x ∷ xs) id tenant o h =
    ground (arith, get_order-set_cancelled_self xs id tenant o)

-- The orders with other keys are as they were.
get_order-set_cancelled_ne :
    (os : List Order) (id id' : ℕ) (tenant : String)
    → id' ≢ id
    → find (λ o. o.id == id' && o.tenant_id =ₛ tenant) (set_cancelled id os)
      ≡ find (λ o. o.id == id' && o.tenant_id =ₛ tenant) os
unfolding set_cancelled
get_order-set_cancelled_ne [] id id' tenant ne = refl
get_order-set_cancelled_ne (x ∷ xs) id id' tenant ne =
    ground (arith, get_order-set_cancelled_ne xs id id' tenant ne)

-- What the work of a cancellation does to the session `s`.
pub record IsCancelled (tenant : String) (request : CancelOrderInput) (s : Session)
    (out : CancelOrderOutput) (t : Session) : Type 0 where
  pub order : Order
  pub found : Lookup.get_order s request.order_id tenant ≡ some order
  pub owned : order.customer_id ≡ request.customer_id
  pub allowed : (order.status ≡ pending) ⊎ (order.status ≡ processing) ⊎ (order.status ≡ cancelled)
  pub status : out.status ≡ cancelled
  pub changed : out.changed ≡ not (is_cancelled order.status)
  pub ended :
      Lookup.get_order t request.order_id tenant ≡ some (record order { status = cancelled })
  pub others :
      (id : ℕ) (tenant' : String)
      → (id ≡ request.order_id) ⊎ (Lookup.get_order t id tenant' ≡ Lookup.get_order s id tenant')

-- The receipt does not touch the orders.
IsCancelled-receipts :
    {tenant : String} {request : CancelOrderInput} {s t : Session} {out : CancelOrderOutput}
    (rs : List BusinessActionReceipt)
    → IsCancelled tenant request s out t
    → IsCancelled tenant request s out (record t { receipts = rs })
unfolding Lookup.get_order
IsCancelled-receipts rs c = record {
  order = c.order;
  found = c.found;
  owned = c.owned;
  allowed = c.allowed;
  status = c.status;
  changed = c.changed;
  ended = c.ended;
  others = c.others;
}

find-id :
    (os : List Order) (id : ℕ) (tenant : String) (o : Order)
    → find (λ o. o.id == id && o.tenant_id =ₛ tenant) os ≡ some o
    → o.id ≡ id
find-id [] id tenant o h = cc
find-id (x ∷ xs) id tenant o h = ground (arith, find-id xs id tenant o)

as_duplicate-session :
    (x : Result ToolFailure CancelOrderOutput × Session) → (as_duplicate x).1 ≡ x.1
unfolding as_duplicate
as_duplicate-session (ok a, s) = refl
as_duplicate-session (err e, s) = ground arith

module _ (tenant : String) (request : CancelOrderInput) (late : Session → Session) (s t : Session)
    (out : CancelOrderOutput) (id : ℕ) where
  perform_cancel-at :
      (o : Order)
      → Lookup.get_order (late s) request.order_id tenant ≡ some o
      → perform_cancel tenant request late s ≡ ok (out, id, t)
      → IsCancelled tenant request (late s) out t
  unfolding perform_cancel validate_cancel_order Lookup.get_order
  perform_cancel-at o e h = elim (Bool-cases (is_cancelled o.status)) [
    | inl already ↦
        let key = find-id (late s).orders request.order_id tenant o e in
        let again : Lookup.get_order (late s) o.id tenant ≡ some o =
          subst (λ k. Lookup.get_order (late s) k tenant ≡ some o) (sym key) e in
        record {
          order = o;
          found = e;
          owned = ground (arith, e, again);
          allowed = ground (arith, e, again);
          status = ground (arith, e, again);
          changed = ground (arith, e, again);
          ended = ground (arith, e, again);
          others = λ i tenant'. inr (ground (arith, e, again));
        }
    | inr live ↦
        let key = find-id (late s).orders request.order_id tenant o e in
        let orders : t.orders ≡ set_cancelled request.order_id (late s).orders =
          ground (arith, e, key) in
        record {
          order = o;
          found = e;
          owned = ground (arith, e);
          allowed = ground (arith, e);
          status = ground (arith, e);
          changed = ground (arith, e);
          ended =
              rw orders (get_order-set_cancelled_self (late s).orders request.order_id tenant o e);
          others = λ i tenant'. elim (Bool-cases (i == request.order_id)) [
            | inl same ↦ inl (ground (arith, same))
            | inr other ↦ inr (
                rw orders (
                  get_order-set_cancelled_ne (late s).orders request.order_id i tenant'
                    (λ q. absurd ground (arith, other, q))))
          ];
        }
  ]

  perform_cancel-IsCancelled :
      perform_cancel tenant request late s ≡ ok (out, id, t)
      → IsCancelled tenant request (late s) out t
  perform_cancel-IsCancelled h =
      elim (Option-cases (Lookup.get_order (late s) request.order_id tenant)) [
        | inl e ↦ absurd (unfold perform_cancel validate_cancel_order in ground (arith, e))
        | inr (o, e) ↦ perform_cancel-at o e h
      ]

module _ (fingerprint : CancelOrderInput → String) (early late : Session → Session)
    (scope : IdempotencyScope) (tenant : String) (request : CancelOrderInput) (s : Session) where
  -- A cancellation writes nothing of its own to the orders, or it found the order of the request
  -- in the tenant, the customer's and not shipped or delivered: then the order is cancelled
  -- afterwards, every order with another key is as it was, and the answer tells whether it was
  -- cancelled before.
  pub cancel_order_effect :
      let end = cancel_order fingerprint early late scope tenant request s in
      (end.1 ≡ s)
      ⊎ (end.1 ≡ late (early s))
      ⊎ ((out : CancelOrderOutput) × (end.0 ≡ ok out)
          × IsCancelled tenant request (late (early s)) out end.1)
  unfolding cancel_order
  cancel_order_effect =
      let end =
        execute_idempotent scope "cancel_order" request.customer_id (fingerprint request)
          (load_cancelled tenant) early late (perform_cancel tenant request) s in
      rw (as_duplicate-session end)
        (elim (execute-cases scope "cancel_order" request.customer_id (fingerprint request)
          (load_cancelled tenant) early late (perform_cancel tenant request) s) [
            | inl e ↦ inl e
            | inr (inl e) ↦ inr (inl e)
            | inr (inr p) ↦ inr (
                inr (
                  p.result,
                  ap (λ x. (as_duplicate x).0) p.returned,
                  subst (λ x. IsCancelled tenant request (late (early s)) p.result x.1)
                      (sym p.returned)
                      (IsCancelled-receipts _ (
                        perform_cancel-IsCancelled tenant request late (early s) p.session p.result
                          p.result_id p.worked)),
                ))
          ])
