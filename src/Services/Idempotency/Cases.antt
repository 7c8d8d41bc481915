-- ===== src/Services/Idempotency/Cases.antt =====
-- The three ways in which a request of sky-agent/app/services/idempotency.py can end.
use cang_qiong_project.Common.{
  ℕ, String, ◌≡◌, refl, ◌⊎◌, inl, inr, ◌∷◌, Option-cases, Result, ok, err,
}
use cang_qiong_project.Models.{Session}
use cang_qiong_project.Services.Idempotency.{
  IdempotencyScope, ToolFailure, get_receipt, receipt, settle, conclude, execute_idempotent,
}

module _ {ℓ} {T : Type ℓ} (scope : IdempotencyScope) (operation : String) (customer_id : ℕ)
    (fingerprint : String) (load_result : ℕ → Session → Result ToolFailure T) where
  -- The work was done and its rows stand beside its receipt.
  pub record IsPerformed (others : Session) (work : Result ToolFailure (T × ℕ × Session))
      (end : Result ToolFailure T × Session) : Type ℓ where
    pub result : T
    pub result_id : ℕ
    pub session : Session
    pub worked : work ≡ ok (result, result_id, session)
    pub returned : end ≡ (
      ok result,
      record session {
        receipts =
            receipt scope operation customer_id fingerprint load_result result_id
            ∷ session.receipts;
      },
    )

  conclude-cases :
      (others : Session) (work : Result ToolFailure (T × ℕ × Session))
      → let end = conclude scope operation customer_id fingerprint load_result others work in
        (end.1 ≡ others) ⊎ IsPerformed others work end
  unfolding conclude settle
  conclude-cases others (err e) = inl refl
  conclude-cases others (ok (x, id, t)) = elim (Option-cases (get_receipt t scope operation)) [
    | inl e ↦ inr (record {
      result = x;
      result_id = id;
      session = t;
      worked = refl;
      returned = rw (e, settle);
    })
    | inr (r, e) ↦ inl (rw (e, settle))
  ]

  pub execute-cases :
      (early late : Session → Session)
      (perform : (Session → Session) → Session → Result ToolFailure (T × ℕ × Session)) (s : Session)
      → let end =
          execute_idempotent scope operation customer_id fingerprint load_result early late perform
            s in
        (end.1 ≡ s)
        ⊎ (end.1 ≡ late (early s))
        ⊎ IsPerformed (late (early s)) (perform late (early s)) end
  unfolding execute_idempotent
  execute-cases early late perform s = elim (Option-cases (get_receipt s scope operation)) [
    | inl e ↦
        rw (e, execute_idempotent) (inr (conclude-cases (late (early s)) (perform late (early s))))
    | inr (r, e) ↦ inl (rw (e, execute_idempotent))
  ]
