-- ===== src/Tools/Refunds.antt =====
-- sky-agent/app/tools/refunds.py.
pub mod Request
pub mod Active
use cang_qiong_project.Common.{
  ℕ, ◌+◌, String, Bool, true, false, ◌&&◌, not, Option, none, some, ◌∷◌, ◌=ₛ◌, ◌==◌, if◌then◌else◌,
  find, any, Result, ok, err, ◌>>=◌,
}
use cang_qiong_project.Models.{
  Session, Order, OrderStatus, delivered, RefundRequest, requested, is_active_for,
}
use cang_qiong_project.Services.Lookup
use cang_qiong_project.Tools.Orders.{as_duplicate}
use cang_qiong_project.Services.Idempotency.{
  IdempotencyScope, ToolFailure, resource_not_found, ownership_error, invalid_state_transition,
  duplicate_action, integrity_error, execute_idempotent,
}

pub record RequestRefundInput : Type 0 where
  pub customer_id : ℕ
  pub order_id : ℕ
  pub reason : String

loaded : ℕ → Option RefundRequest → Result ToolFailure RefundRequest
loaded refund_id none = err (resource_not_found "Refund request" refund_id)
loaded refund_id (some r) = ok r

unfoldable pub load_refund : String → ℕ → Session → Result ToolFailure RefundRequest
unfolding loaded
load_refund tenant_id refund_id s =
    loaded refund_id (find (λ r. r.id == refund_id && r.tenant_id =ₛ tenant_id) s.refunds)

abbrev pub is_delivered : OrderStatus → Bool
is_delivered delivered = true
is_delivered _ = false

unfoldable pub check_refund :
    Session → RequestRefundInput → String → Option Order → Result ToolFailure (Unit {0})
check_refund s request tenant_id none = err (resource_not_found "Order" request.order_id)
check_refund s request tenant_id (some o) =
    if not (o.customer_id == request.customer_id)
    then err (ownership_error "Order" request.order_id request.customer_id)
    else if not (is_delivered o.status)
    then err (invalid_state_transition o.id)
    else if any (is_active_for tenant_id request.order_id) s.refunds
    then err duplicate_action
    else ok tt

unfoldable pub validate_refund_request :
    Session → RequestRefundInput → String → Result ToolFailure (Unit {0})
unfolding check_refund
validate_refund_request s request tenant_id =
    check_refund s request tenant_id (Lookup.get_order s request.order_id tenant_id)

abbrev pub new_refund : String → RequestRefundInput → ℕ → RefundRequest
new_refund tenant_id request id = record {
  id = id;
  tenant_id = tenant_id;
  customer_id = request.customer_id;
  order_id = request.order_id;
  reason = request.reason;
  status = requested;
}

-- `session.add` and `session.flush`: the partial unique index refuses a second active refund of
-- the order.
unfoldable pub insert_refund :
    String → RequestRefundInput → Session → Result ToolFailure (RefundRequest × ℕ × Session)
insert_refund tenant_id request s =
    if any (is_active_for tenant_id request.order_id) s.refunds
    then err integrity_error
    else (let refund = new_refund tenant_id request s.next_id in
        ok (refund, s.next_id, record s { refunds = refund ∷ s.refunds; next_id = s.next_id + 1 }))

unfoldable pub perform_refund :
    String
    → RequestRefundInput
    → (Session → Session)
    → Session
    → Result ToolFailure (RefundRequest × ℕ × Session)
unfolding validate_refund_request insert_refund
perform_refund tenant_id request late s = do
  _ ← validate_refund_request s request tenant_id
  insert_refund tenant_id request (late s)

unfoldable pub request_refund :
    (RequestRefundInput → String)
    → (early late : Session → Session) → IdempotencyScope
    → String
    → RequestRefundInput
    → Session
    → Result ToolFailure RefundRequest × Session
unfolding as_duplicate perform_refund execute_idempotent load_refund
request_refund fingerprint early late scope tenant_id request s = as_duplicate (
    execute_idempotent scope "request_refund" request.customer_id (fingerprint request)
      (load_refund tenant_id) early late (perform_refund tenant_id request) s)
