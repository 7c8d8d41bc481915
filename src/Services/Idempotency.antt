-- ===== src/Services/Idempotency.antt =====
-- `execute_idempotent` of sky-agent/app/services/idempotency.py. Two functions stand for what
-- other transactions commit meanwhile: `early` between the first lookup and the work, which
-- the work is handed as its session, and `late` inside the work, before its rows are flushed.
pub mod Replay
pub mod Cases
use cang_qiong_project.Common.{
  ℕ, String, Bool, true, false, ◌&&◌, ◌||◌, not, Option, none, some, ◌∷◌, ◌=ₛ◌, ◌==◌, if◌then◌else◌,
  find, Result, ok, err, ◌>>=◌,
}
use cang_qiong_project.Models.{Session, BusinessActionReceipt}

pub record IdempotencyScope : Type 0 where
  pub actor_id : String
  pub key : String
  pub tenant_id : String

-- The exceptions of tools/base.py, and the `IntegrityError` of the database.
pub data ToolFailure : Type 0 where
  resource_not_found : String → ℕ → ToolFailure
  ownership_error : String → ℕ → ℕ → ToolFailure
  invalid_state_transition : ℕ → ToolFailure
  duplicate_action : ToolFailure
  integrity_error : ToolFailure

-- The columns of `uq_business_action_receipt_scope`.
unfoldable pub is_receipt_of : IdempotencyScope → String → BusinessActionReceipt → Bool
is_receipt_of scope operation r =
    r.actor_id =ₛ scope.actor_id
    && r.tenant_id =ₛ scope.tenant_id
    && r.operation =ₛ operation
    && r.idempotency_key =ₛ scope.key

unfoldable pub get_receipt : Session → IdempotencyScope → String → Option BusinessActionReceipt
get_receipt s scope operation = find (is_receipt_of scope operation) s.receipts

-- `_validate_receipt`
unfoldable pub validate_receipt : BusinessActionReceipt → ℕ → String → Result ToolFailure (Unit {0})
validate_receipt r customer_id fingerprint =
    if not (r.customer_id == customer_id) || not (r.request_fingerprint =ₛ fingerprint)
    then err duplicate_action
    else ok tt

module _ {ℓ} {T : Type ℓ} (scope : IdempotencyScope) (operation : String) (customer_id : ℕ)
    (fingerprint : String) (load_result : ℕ → Session → Result ToolFailure T) where
  -- The prior result of a receipt that fits the request.
  unfoldable pub replay : BusinessActionReceipt → Session → Result ToolFailure T
  unfolding validate_receipt
  replay r s = do _ ← validate_receipt r customer_id fingerprint; load_result r.result_id s

  -- `except IntegrityError`, after the savepoint is rolled back.
  unfoldable pub recover : Session → Result ToolFailure T
  unfolding replay
  recover s = elim (get_receipt s scope operation) [
    | none ↦ err integrity_error
    | some r ↦ replay r s
  ]

  abbrev pub receipt : ℕ → BusinessActionReceipt
  receipt result_id = record {
    tenant_id = scope.tenant_id;
    actor_id = scope.actor_id;
    operation = operation;
    idempotency_key = scope.key;
    customer_id = customer_id;
    request_fingerprint = fingerprint;
    result_id = result_id;
  }

  -- The receipt joins the rows of the work, unless its key is taken: then all of them are undone.
  unfoldable pub settle : Session → T → ℕ → Session → Result ToolFailure T × Session
  unfolding recover
  settle others result result_id s = elim (get_receipt s scope operation) [
    | none ↦ (ok result, record s { receipts = receipt result_id ∷ s.receipts })
    | some r ↦ (recover others, others)
  ]

  is_integrity : ToolFailure → Bool
  is_integrity integrity_error = true
  is_integrity _ = false

  -- How the savepoint ends, where `others` is the session without the work.
  unfoldable pub conclude :
      Session → Result ToolFailure (T × ℕ × Session) → Result ToolFailure T × Session
  unfolding settle recover is_integrity
  conclude others (ok (result, result_id, s)) = settle others result result_id s
  conclude others (err e) = (if is_integrity e then recover others else err e, others)

  -- `perform` is given the session and what is committed late.
  unfoldable pub execute_idempotent :
      (early late : Session → Session)
      → ((Session → Session) → Session → Result ToolFailure (T × ℕ × Session))
      → Session
      → Result ToolFailure T × Session
  unfolding replay conclude
  execute_idempotent early late perform s = elim (get_receipt s scope operation) [
    | some r ↦ (replay r s, s)
    | none ↦ conclude (late (early s)) (perform late (early s))
  ]
