-- ===== src/Tools/Orders.antt =====
-- sky-agent/app/tools/orders.py. The row lock of the validation is left out: what other
-- transactions do is given by the two functions of the idempotency layer.
pub mod Cancel
use cang_qiong_project.Common.{
  ℕ, String, Bool, true, false, not, Option, none, some, List, [], ◌∷◌, ◌==◌, if◌then◌else◌, Result,
  ok, err, ◌>>=◌,
}
use cang_qiong_project.Models.{
  Session, Order, OrderStatus, pending, processing, shipped, delivered, cancelled,
}
use cang_qiong_project.Services.Lookup
use cang_qiong_project.Services.Idempotency.{
  IdempotencyScope, ToolFailure, resource_not_found, ownership_error, invalid_state_transition,
  duplicate_action, integrity_error, execute_idempotent,
}

pub record GetOrderInput : Type 0 where
  pub order_id : ℕ
  pub customer_id : ℕ

pub record CancelOrderInput : Type 0 where
  pub customer_id : ℕ
  pub order_id : ℕ

-- `message` follows from `changed`, and is left out.
pub record CancelOrderOutput : Type 0 where
  pub order_id : ℕ
  pub customer_id : ℕ
  pub status : OrderStatus
  pub changed : Bool

unfoldable pub or_missing : String → ℕ → Option Order → Result ToolFailure Order
or_missing resource id none = err (resource_not_found resource id)
or_missing resource id (some o) = ok o

-- A known order of another customer.
is_foreign : Option Order → ℕ → Bool
is_foreign none customer_id = false
is_foreign (some o) customer_id = not (o.customer_id == customer_id)

unfoldable pub get_order : Session → GetOrderInput → String → Result ToolFailure Order
unfolding or_missing is_foreign Lookup.get_order Lookup.get_order_for_customer
get_order s request tenant_id =
    if is_foreign (Lookup.get_order s request.order_id tenant_id) request.customer_id
    then err (ownership_error "Order" request.order_id request.customer_id)
    else or_missing "Order" request.order_id
        (Lookup.get_order_for_customer s request.order_id request.customer_id tenant_id)

unfoldable pub is_cancellable : OrderStatus → Bool
is_cancellable pending = true
is_cancellable processing = true
is_cancellable cancelled = true
is_cancellable _ = false

check_cancel : CancelOrderInput → Option Order → Result ToolFailure Order
unfolding is_cancellable
check_cancel request none = err (resource_not_found "Order" request.order_id)
check_cancel request (some o) =
    if not (o.customer_id == request.customer_id)
    then err (ownership_error "Order" request.order_id request.customer_id)
    else if is_cancellable o.status
    then ok o
    else err (invalid_state_transition o.id)

unfoldable pub validate_cancel_order :
    Session → CancelOrderInput → String → Result ToolFailure Order
unfolding check_cancel
validate_cancel_order s request tenant_id =
    check_cancel request (Lookup.get_order s request.order_id tenant_id)

-- `load_result`: the present state of the order, with nothing changed.
loaded : ℕ → Option Order → Result ToolFailure CancelOrderOutput
loaded order_id none = err (resource_not_found "Order" order_id)
loaded order_id (some o) =
    ok (record { order_id = o.id; customer_id = o.customer_id; status = o.status; changed = false })

unfoldable pub load_cancelled : String → ℕ → Session → Result ToolFailure CancelOrderOutput
unfolding loaded
load_cancelled tenant_id order_id s = loaded order_id (Lookup.get_order s order_id tenant_id)

-- `order.status = CANCELLED` for the row with the primary key.
unfoldable pub set_cancelled : ℕ → List Order → List Order
set_cancelled id [] = []
set_cancelled id (o ∷ os) =
    (if o.id == id then record o { status = cancelled } else o) ∷ set_cancelled id os

abbrev is_cancelled : OrderStatus → Bool
is_cancelled cancelled = true
is_cancelled _ = false

-- The work on a valid order, by its status.
cancel_valid : String → Session → Order → Result ToolFailure (CancelOrderOutput × ℕ × Session)
unfolding load_cancelled set_cancelled
cancel_valid tenant_id s o =
    if is_cancelled o.status
    then (do output ← load_cancelled tenant_id o.id s; ok (output, o.id, s))
    else ok (
      record { order_id = o.id; customer_id = o.customer_id; status = cancelled; changed = true },
      o.id,
      record s { orders = set_cancelled o.id s.orders },
    )

-- `perform`; the order is locked, so that what is committed late leaves it alone.
unfoldable pub perform_cancel :
    String
    → CancelOrderInput
    → (Session → Session)
    → Session
    → Result ToolFailure (CancelOrderOutput × ℕ × Session)
unfolding validate_cancel_order cancel_valid
perform_cancel tenant_id request late s = do
  o ← validate_cancel_order (late s) request tenant_id
  cancel_valid tenant_id (late s) o

-- `except IntegrityError` of the tool.
unfoldable pub as_duplicate {ℓ} :
    {T : Type ℓ} → Result ToolFailure T × Session → Result ToolFailure T × Session
as_duplicate (err integrity_error, s) = (err duplicate_action, s)
as_duplicate (ok a, s) = (ok a, s)
as_duplicate (err e, s) = (err e, s)

-- `fingerprint` is the digest of the request's JSON.
unfoldable pub cancel_order :
    (CancelOrderInput → String)
    → (early late : Session → Session) → IdempotencyScope
    → String
    → CancelOrderInput
    → Session
    → Result ToolFailure CancelOrderOutput × Session
unfolding as_duplicate perform_cancel execute_idempotent load_cancelled
cancel_order fingerprint early late scope tenant_id request s = as_duplicate (
    execute_idempotent scope "cancel_order" request.customer_id (fingerprint request)
      (load_cancelled tenant_id) early late (perform_cancel tenant_id request) s)
