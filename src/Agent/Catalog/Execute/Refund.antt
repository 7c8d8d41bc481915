-- ===== src/Agent/Catalog/Execute/Refund.antt =====
-- A refund that was validated goes through: sky-agent/app/tools/refunds.py as
-- sky-agent/app/agent/tool_catalog.py calls it.
use cang_qiong_project.Common.{
  ℕ, ◌+◌, String, ◌≡◌, ap, true, false, Option, none, some, ◌∷◌, arith, ◌==◌, any, ok,
}
use cang_qiong_project.Core.{ExecutionContext}
use cang_qiong_project.Models.{Session, RefundRequest, is_active_for, Order}
use cang_qiong_project.Services.Idempotency.{
  IdempotencyScope, get_receipt, execute_idempotent, conclude, settle, receipt,
}
use cang_qiong_project.Tools.Refunds.{
  RequestRefundInput, new_refund, check_refund, validate_refund_request, insert_refund,
  perform_refund, request_refund, load_refund,
}
use cang_qiong_project.Tools.Orders.{as_duplicate}
use cang_qiong_project.Agent.Catalog.{refund_input, customer_of}
use cang_qiong_project.Agent.Catalog.Execute.{
  Outside, refund_result, execute_scoped, execute, with_scope, returned, changed,
}

own-number : (n m : ℕ) → n ≡ m → (n == m) ≡ true
own-number n m h = ground arith

check-inactive :
    (s : Session) (r : RequestRefundInput) (tenant : String) (o : Option Order)
    → check_refund s r tenant o ≡ ok tt
    → any (is_active_for tenant r.order_id) s.refunds ≡ false
unfolding check_refund
check-inactive s r tenant none h = absurd cc
check-inactive s r tenant (some o) h = ground arith

module _ (s : Session) (r : RequestRefundInput) (tenant : String)
    (valid : validate_refund_request s r tenant ≡ ok tt) where
  valid-inactive : any (is_active_for tenant r.order_id) s.refunds ≡ false
  unfolding validate_refund_request
  valid-inactive = check-inactive s r tenant _ valid

  abbrev refund : RefundRequest
  refund = new_refund tenant r s.next_id

  abbrev stored : Session
  stored = record s { refunds = refund ∷ s.refunds; next_id = s.next_id + 1 }

  perform-stores : perform_refund tenant r (λ t. t) s ≡ ok (refund, s.next_id, stored)
  unfolding perform_refund insert_refund
  perform-stores = rw valid (rw valid-inactive)

  module _ (digest : RequestRefundInput → String) (scope : IdempotencyScope)
      (fresh : get_receipt s scope "request_refund" ≡ none) where
    stored-fresh : get_receipt stored scope "request_refund" ≡ none
    unfolding get_receipt
    stored-fresh = fresh

    abbrev settled : Session
    settled = record stored {
      receipts =
          receipt scope "request_refund" r.customer_id (digest r) (load_refund tenant) s.next_id
          ∷ s.receipts;
    }

    stored-settles :
        settle scope "request_refund" r.customer_id
          (digest r)
          (load_refund tenant)
          s
          refund
          s.next_id
          stored
        ≡ (ok refund, settled)
    unfolding settle
    stored-settles = rw (stored-fresh, settle)

    execute-stores :
        execute_idempotent scope "request_refund" r.customer_id
          (digest r)
          (load_refund tenant)
          (λ t. t)
          (λ t. t)
          (perform_refund tenant r)
          s
        ≡ (ok refund, settled)
    unfolding execute_idempotent conclude
    execute-stores = rw (fresh, execute_idempotent) (rw perform-stores stored-settles)

    request-stores : request_refund digest (λ t. t) (λ t. t) scope tenant r s ≡ (ok refund, settled)
    unfolding request_refund as_duplicate
    request-stores = ap as_duplicate execute-stores

-- A refund whose validation passes goes through: with a key that has no receipt and no other
-- transaction in between, the call of the tool for the context's customer stores the new refund
-- request with a receipt of the key, and returns it.
pub valid_refund_is_stored :
    (out : Outside) (s : Session) (context : ExecutionContext) (r : RequestRefundInput)
    (scope : IdempotencyScope)
    → validate_refund_request s r context.tenant_id ≡ ok tt
    → r.customer_id ≡ context.effective_customer_id
    → get_receipt s scope "request_refund" ≡ none
    → execute
        (record out { early = λ t. t; late = λ t. t })
        "request_refund"
        s
        context
        (refund_input r)
        (some scope)
      ≡ (
        ok (refund_result (new_refund context.tenant_id r s.next_id)),
        record s {
          refunds = new_refund context.tenant_id r s.next_id ∷ s.refunds;
          next_id = s.next_id + 1;
          receipts =
              receipt scope "request_refund" r.customer_id
                (out.refund_digest r)
                (load_refund context.tenant_id)
                s.next_id
              ∷ s.receipts;
        },
      )
unfolding execute execute_scoped with_scope returned customer_of
valid_refund_is_stored out s context r scope valid own fresh =
    rw (own-number r.customer_id context.effective_customer_id own) (
      ap (changed refund_result)
        (request-stores s r context.tenant_id valid out.refund_digest scope fresh))
