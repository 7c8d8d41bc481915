-- ===== src/Common/Keys.antt =====
-- Dictionaries whose keys are distinct, as Python's are.
use Prim.Native.String.{String}
use mathlib.Core.Path.{◌≡◌, refl, subst}
use mathlib.Core.Logic.{inl, inr}
use mathlib.Core.Bool.{Bool, true, false}
use mathlib.Core.Option.{some}
use mathlib.Core.List.{List, [], ◌∷◌}
use native.Mathlib.Omega.{arith}
use text.Mathlib.Text.{◌==◌}
use text.Mathlib.TextEquality.{eq_iff}
use text.Mathlib.TextPositions.{eq_refl}
use cang_qiong_project.Common.Tests.{Bool-cases}
use cang_qiong_project.Common.Lists.{All, filter}
use cang_qiong_project.Common.Assoc.{get, put}

pub All-map {ℓ κ μ} :
    {A : Type ℓ} {P : A → Type κ} {Q : A → Type μ} (xs : List A)
    → ((x : A) → P x → Q x)
    → All P xs
    → All Q xs
All-map [] f p = tt
All-map (x ∷ xs) f p = (f x p.0, All-map xs f p.1)

pub filter-none {ℓ} :
    {A : Type ℓ} (test : A → Bool) (xs : List A)
    → All (λ x. test x ≡ false) xs
    → filter test xs ≡ []
filter-none test [] p = refl
filter-none test (x ∷ xs) p = rw p.0 (filter-none test xs p.1)

same-key : (i k : String) → (i == k) ≡ true → i ≡ k
same-key i k f = ground (arith, eq_iff i k)

module _ {ℓ} {V : Type ℓ} where
  abbrev Fresh : String → List (String × V) → Type 0
  Fresh k d = All (λ p. (k == p.0) ≡ false) d

  abbrev pub Unique : List (String × V) → Type 0
  Unique [] = Unit
  Unique ((k, v) ∷ d) = Fresh k d × Unique d

  put-Fresh :
      (j k : String) (v : V) (d : List (String × V))
      → (j == k) ≡ false
      → Fresh j d
      → Fresh j (put k v d)
  put-Fresh j k v [] e p = (e, tt)
  put-Fresh j k v ((i, w) ∷ d) e p = elim (Bool-cases (i == k)) [
    | inl f ↦ rw f (e, p.1)
    | inr f ↦ rw f (p.0, put-Fresh j k v d e p.1)
  ]

  pub put-Unique : (k : String) (v : V) (d : List (String × V)) → Unique d → Unique (put k v d)
  put-Unique k v [] u = (tt, tt)
  put-Unique k v ((i, w) ∷ d) u = elim (Bool-cases (i == k)) [
    | inl f ↦ rw f (subst (λ x. Fresh x d) (same-key i k f) u.0, u.1)
    | inr f ↦ rw f (put-Fresh i k v d f u.0, put-Unique k v d u.1)
  ]

  shift-get :
      (k : String) (v : V) (d e : List (String × V))
      → Fresh k d
      → All (λ p. get p.0 e ≡ some p.1) d
      → All (λ p. get p.0 ((k, v) ∷ e) ≡ some p.1) d
  shift-get k v [] e f g = tt
  shift-get k v (p ∷ d) e f g = (rw f.0 g.0, shift-get k v d e f.1 g.1)

  -- Each entry is found under its key.
  pub Unique-get : (d : List (String × V)) → Unique d → All (λ p. get p.0 d ≡ some p.1) d
  Unique-get [] u = tt
  Unique-get ((k, v) ∷ d) u = (rw eq_refl, shift-get k v d d u.0 (Unique-get d u.1))
