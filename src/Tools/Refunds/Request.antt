-- ===== src/Tools/Refunds/Request.antt =====
-- What the refund tool of sky-agent/app/tools/refunds.py stores and whom it serves.
use cang_qiong_project.Common.{
  ℕ, String, ◌≡◌, ap, ◌&&◌, some, ◌∷◌, arith, ◌=ₛ◌, eq_refl, ◌==◌, find, Result, ok, err,
}
use cang_qiong_project.Models.{Session, RefundRequest}
use cang_qiong_project.Services.Idempotency.{IdempotencyScope, ToolFailure, receipt}
use cang_qiong_project.Services.Idempotency.Replay.{repeated_request_same}
use cang_qiong_project.Tools.Orders.{as_duplicate}
use cang_qiong_project.Tools.Refunds.{
  RequestRefundInput, load_refund, insert_refund, perform_refund, request_refund,
}

-- A new refund is found under its own key.
load-insert :
    (tenant : String) (request : RequestRefundInput) (s t : Session) (r : RefundRequest) (id : ℕ)
    → insert_refund tenant request s ≡ ok (r, id, t)
    → (find (λ q. q.id == id && q.tenant_id =ₛ tenant) t.refunds) ≡ some r
unfolding insert_refund
load-insert tenant request s t r id h = ground (arith, eq_refl tenant)

perform_refund-stores :
    (fingerprint : String) (scope : IdempotencyScope) (tenant : String)
    (request : RequestRefundInput) (late : Session → Session) (s t : Session) (r : RefundRequest)
    (id : ℕ)
    → perform_refund tenant request late s ≡ ok (r, id, t)
    → load_refund tenant id (record t {
      receipts =
          receipt scope "request_refund" request.customer_id fingerprint (load_refund tenant) id
          ∷ t.receipts;
    })
      ≡ ok r
unfolding perform_refund load_refund
perform_refund-stores fingerprint scope tenant request late s t r id h =
    rw (load-insert tenant request (late s) t r id (ground arith))

as_duplicate-ok :
    (x : Result ToolFailure RefundRequest × Session) (r : RefundRequest) (s : Session)
    → as_duplicate x ≡ (ok r, s)
    → x ≡ (ok r, s)
unfolding as_duplicate
as_duplicate-ok (ok a, t) r s h = h
as_duplicate-ok (err e, t) r s h = absurd (ground arith)

-- A refund request that succeeded is idempotent: made again with its key, on the session that it
-- left, it returns the same refund request and writes nothing, whatever other transactions
-- commit meanwhile.
pub request_refund_idempotent :
    (fingerprint : RequestRefundInput → String) (early late early' late' : Session → Session)
    (scope : IdempotencyScope) (tenant : String) (request : RequestRefundInput) (s s' : Session)
    (r : RefundRequest)
    → request_refund fingerprint early late scope tenant request s ≡ (ok r, s')
    → request_refund fingerprint early' late' scope tenant request s' ≡ (ok r, s')
unfolding request_refund
request_refund_idempotent fingerprint early late early' late' scope tenant request s s' r h =
    ap as_duplicate (
      repeated_request_same scope "request_refund" request.customer_id (fingerprint request)
        (load_refund tenant) early late early' late' (perform_refund tenant request)
        (perform_refund tenant request) s s' r
        (λ x id t e.
          perform_refund-stores (fingerprint request) scope tenant request late (early s) t x id e)
        (as_duplicate-ok _ r s' h))
