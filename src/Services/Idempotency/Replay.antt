-- ===== src/Services/Idempotency/Replay.antt =====
-- What a repeated request gets from sky-agent/app/services/idempotency.py.
use cang_qiong_project.Common.{
  ℕ, String, ◌≡◌, refl, ap, ◌∙◌, subst, ◌≢◌, ◌⊎◌, inl, inr, some, ◌∷◌, arith, eq_iff, eq_refl,
  Option-cases, Result, ok, err,
}
use cang_qiong_project.Models.{Session, BusinessActionReceipt}
use cang_qiong_project.Services.Idempotency.{
  IdempotencyScope, ToolFailure, duplicate_action, is_receipt_of, get_receipt, validate_receipt,
  replay, recover, receipt, settle, conclude, execute_idempotent,
}

module _ {ℓ} {T : Type ℓ} (scope : IdempotencyScope) (operation : String) (customer_id : ℕ)
    (fingerprint : String) (load_result : ℕ → Session → Result ToolFailure T)
    (P : T → ℕ → Session → Type ℓ)
    (at_load : (x : T) (id : ℕ) (t : Session) → load_result id t ≡ ok x → P x id t) where
  -- The session holds a receipt of the request, of this customer and payload, and its identifier
  -- stores the result.
  record IsReceipted (a : T) (s : Session) : Type ℓ where
    of : BusinessActionReceipt
    found : get_receipt s scope operation ≡ some of
    valid : validate_receipt of customer_id fingerprint ≡ ok tt
    stored : P a of.result_id s

  abbrev with_receipt : ℕ → Session → Session
  with_receipt id s = record s {
    receipts = receipt scope operation customer_id fingerprint load_result id ∷ s.receipts;
  }

  new_receipt-IsReceipted :
      (s : Session) (id : ℕ) (a : T)
      → P a id (with_receipt id s)
      → IsReceipted a (with_receipt id s)
  new_receipt-IsReceipted s id a p = record {
    of = receipt scope operation customer_id fingerprint load_result id;
    found = unfold get_receipt is_receipt_of in simp eq_refl;
    valid = unfold validate_receipt in ground (arith, eq_refl fingerprint);
    stored = p;
  }

  replay-IsReceipted :
      (r : BusinessActionReceipt) (s : Session) (a : T)
      → get_receipt s scope operation ≡ some r
      → replay scope operation customer_id fingerprint load_result r s ≡ ok a
      → IsReceipted a s
  unfolding replay validate_receipt
  replay-IsReceipted r s a e h = record {
    of = r;
    found = e;
    valid = ground arith;
    stored = at_load a r.result_id s (ground arith);
  }

  recover-IsReceipted :
      (s : Session) (a : T)
      → recover scope operation customer_id fingerprint load_result s ≡ ok a
      → IsReceipted a s
  unfolding recover
  recover-IsReceipted s a h = elim (Option-cases (get_receipt s scope operation)) [
    | inl e ↦ absurd (ground (arith, e))
    | inr (r, e) ↦ replay-IsReceipted r s a e (ground (arith, e))
  ]

  settle-IsReceipted :
      (others : Session) (x : T) (id : ℕ) (s : Session) (a : T) (s' : Session)
      → P x id (with_receipt id s)
      → settle scope operation customer_id fingerprint load_result others x id s ≡ (ok a, s')
      → IsReceipted a s'
  unfolding settle
  settle-IsReceipted others x id s a s' p h = elim (Option-cases (get_receipt s scope operation)) [
    | inl e ↦ subst (IsReceipted a) (ground (arith, e)) (
        subst (λ y. IsReceipted y (with_receipt id s)) (ground (arith, e))
          (new_receipt-IsReceipted s id x p))
    | inr (r, e) ↦
        subst (IsReceipted a) (ground (arith, e)) (recover-IsReceipted others a (ground (arith, e)))
  ]

  conclude-IsReceipted :
      (others : Session) (w : Result ToolFailure (T × ℕ × Session)) (a : T) (s' : Session)
      → ((x : T) (id : ℕ) (t : Session) → w ≡ ok (x, id, t) → P x id (with_receipt id t))
      → conclude scope operation customer_id fingerprint load_result others w ≡ (ok a, s')
      → IsReceipted a s'
  unfolding conclude
  conclude-IsReceipted others (ok (x, id, s)) a s' p h =
      settle-IsReceipted others x id s a s' (p x id s refl) h
  conclude-IsReceipted others (err e) a s' p h =
      subst (IsReceipted a) (ground arith) (recover-IsReceipted others a (ground arith))

  execute-IsReceipted :
      (early late : Session → Session)
      (perform : (Session → Session) → Session → Result ToolFailure (T × ℕ × Session)) (s : Session)
      → ((x : T) (id : ℕ) (t : Session)
          → perform late (early s) ≡ ok (x, id, t)
          → P x id (with_receipt id t))
      → (a : T) (s' : Session)
      → execute_idempotent scope operation customer_id fingerprint load_result early late perform s
        ≡ (ok a, s')
      → IsReceipted a s'
  unfolding execute_idempotent
  execute-IsReceipted early late perform s p a s' h =
      elim (Option-cases (get_receipt s scope operation)) [
        | inl e ↦
            conclude-IsReceipted (late (early s)) (perform late (early s)) a s' p
              (rw (e, execute_idempotent) at h)
        | inr (r, e) ↦
            subst (IsReceipted a) (ground (arith, e))
              (replay-IsReceipted r s a e (ground (arith, e)))
      ]

  IsReceipted-execute :
      (early late : Session → Session)
      (perform : (Session → Session) → Session → Result ToolFailure (T × ℕ × Session)) (s : Session)
      (a : T) (r : IsReceipted a s)
      → execute_idempotent scope operation customer_id fingerprint load_result early late perform s
        ≡ (load_result (IsReceipted.of r).result_id s, s)
  unfolding execute_idempotent replay
  IsReceipted-execute early late perform s a r = rw (r.found, execute_idempotent) (rw r.valid)

module _ {ℓ} {T : Type ℓ} (scope : IdempotencyScope) (operation : String) (customer_id : ℕ)
    (fingerprint : String) (load_result : ℕ → Session → Result ToolFailure T) where
  -- A request that has succeeded, by its own work or by a prior receipt, is not performed again.
  -- The same request made later on the session it left finds a receipt, gives what that receipt's
  -- result loads as, and changes nothing, whatever the work would be and whatever other
  -- transactions commit meanwhile.
  pub repeated_request_loads :
      (early late early' late' : Session → Session)
      (perform perform' : (Session → Session) → Session → Result ToolFailure (T × ℕ × Session))
      (s s' : Session) (a : T)
      → execute_idempotent scope operation customer_id fingerprint load_result early late perform s
        ≡ (ok a, s')
      → (r : BusinessActionReceipt) × (get_receipt s' scope operation ≡ some r)
        × (execute_idempotent scope operation customer_id fingerprint load_result early' late'
              perform' s'
            ≡ (load_result r.result_id s', s'))
  repeated_request_loads early late early' late' perform perform' s s' a h =
      let r =
        execute-IsReceipted scope operation customer_id fingerprint load_result (λ x id t. Unit)
          (λ x id t e. tt) early late perform s (λ x id t e. tt) a s' h in
      (
        r.of,
        r.found,
        IsReceipted-execute scope operation customer_id fingerprint load_result (λ x id t. Unit)
            (λ x id t e. tt) early' late' perform' s' a r,
      )

  -- Where the work stores what it returns, so that its identifier loads as its result, a request
  -- that succeeded succeeds again with the same result and changes nothing.
  pub repeated_request_same :
      (early late early' late' : Session → Session)
      (perform perform' : (Session → Session) → Session → Result ToolFailure (T × ℕ × Session))
      (s s' : Session) (a : T)
      → ((x : T) (id : ℕ) (t : Session)
          → perform late (early s) ≡ ok (x, id, t)
          → load_result id (record t {
            receipts = receipt scope operation customer_id fingerprint load_result id ∷ t.receipts;
          })
            ≡ ok x)
      → execute_idempotent scope operation customer_id fingerprint load_result early late perform s
        ≡ (ok a, s')
      → execute_idempotent scope operation customer_id fingerprint load_result early' late' perform'
          s'
        ≡ (ok a, s')
  repeated_request_same early late early' late' perform perform' s s' a stores h =
      let P = λ (x : T) (id : ℕ) (t : Session). load_result id t ≡ ok x in
      let r =
        execute-IsReceipted scope operation customer_id fingerprint load_result P (λ x id t e. e)
          early late perform s stores a s' h in
      IsReceipted-execute scope operation customer_id fingerprint load_result P (λ x id t e. e)
        early' late' perform' s' a r
      ∙ ap (λ x. (x, s')) r.stored

  receipt-of_request :
      (r : BusinessActionReceipt)
      → validate_receipt r customer_id fingerprint ≡ ok tt
      → (r.customer_id ≡ customer_id) × (r.request_fingerprint ≡ fingerprint)
  unfolding validate_receipt
  receipt-of_request r v = ground (arith, eq_iff r.request_fingerprint fingerprint)

  found_receipt-refused :
      (early late : Session → Session)
      (perform : (Session → Session) → Session → Result ToolFailure (T × ℕ × Session)) (s : Session)
      (r : BusinessActionReceipt)
      → get_receipt s scope operation ≡ some r
      → (r.customer_id ≢ customer_id) ⊎ (r.request_fingerprint ≢ fingerprint)
      → execute_idempotent scope operation customer_id fingerprint load_result early late perform s
        ≡ (err duplicate_action, s)
  unfolding execute_idempotent replay validate_receipt
  found_receipt-refused early late perform s r found other =
      rw (found, execute_idempotent) (ground (arith, eq_iff r.request_fingerprint fingerprint))

-- The key of a request that has succeeded is spent: a later request with the same scope and
-- operation, on the session that the first one left, but of another customer or with another
-- fingerprint of its payload, is refused as a duplicate action and changes nothing, whatever its
-- work would be and whatever other transactions commit meanwhile.
pub reused_key_is_refused {ℓ κ} :
    {T : Type ℓ} {U : Type κ} (scope : IdempotencyScope) (operation : String)
    (customer_id customer_id' : ℕ) (fingerprint fingerprint' : String)
    (load_result : ℕ → Session → Result ToolFailure T)
    (load_result' : ℕ → Session → Result ToolFailure U)
    (early late early' late' : Session → Session)
    (perform : (Session → Session) → Session → Result ToolFailure (T × ℕ × Session))
    (perform' : (Session → Session) → Session → Result ToolFailure (U × ℕ × Session))
    (s s' : Session) (a : T)
    → execute_idempotent scope operation customer_id fingerprint load_result early late perform s
      ≡ (ok a, s')
    → (customer_id ≢ customer_id') ⊎ (fingerprint ≢ fingerprint')
    → execute_idempotent scope operation customer_id' fingerprint' load_result' early' late'
        perform' s'
      ≡ (err duplicate_action, s')
reused_key_is_refused scope operation customer_id customer_id' fingerprint fingerprint' load_result
      load_result' early late early' late' perform perform' s s' a h other =
    let r =
      execute-IsReceipted scope operation customer_id fingerprint load_result (λ x id t. Unit)
        (λ x id t e. tt) early late perform s (λ x id t e. tt) a s' h in
    let of = receipt-of_request scope operation customer_id fingerprint load_result r.of r.valid in
    found_receipt-refused scope operation customer_id' fingerprint' load_result' early' late'
      perform' s' r.of r.found (ground (arith, of.0, of.1, other))
