-- ===== src/Common/Outcomes.antt =====
-- The value that a call returns, or the exception that it raises.
use mathlib.Core.Path.{◌≡◌, refl}
use mathlib.Core.Bool.{Bool, true, false}
use cang_qiong_project.Common.Tests.{if◌then◌else◌}

pub data Result {ℓ κ} (E : Type ℓ) (A : Type κ) : Type (ℓ ⊔ κ) where
  ok : A → Result E A
  err : E → Result E A

infixl 5 ◌>>=◌
abbrev pub ◌>>=◌ {ℓ κ μ} :
    {E : Type ℓ} {A : Type κ} {B : Type μ} → Result E A → (A → Result E B) → Result E B
ok a >>= f = f a
err e >>= f = err e

pub bind-ok {ℓ κ μ} :
    {E : Type ℓ} {A : Type κ} {B : Type μ} (x : Result E A) (f : A → Result E B) (b : B)
    → (x >>= f) ≡ ok b
    → (a : A) × (x ≡ ok a) × (f a ≡ ok b)
bind-ok (ok a) f b h = (a, refl, h)
bind-ok (err e) f b h = absurd (cc)

pub ok-inj {ℓ κ} : {E : Type ℓ} {A : Type κ} {a b : A} → ◌≡◌ {A = Result E A} (ok a) (ok b) → a ≡ b
ok-inj h = cc

-- A guard that lets through was passed.
pub guard-ok {ℓ κ} :
    {E : Type ℓ} {A : Type κ} (b : Bool) (a : A) (e : E) (c : A)
    → (if b then ok a else err e) ≡ ok c
    → (b ≡ true) × (a ≡ c)
guard-ok true a e c h = (refl, ok-inj h)
guard-ok false a e c h = absurd (cc)

-- A test that raises was not passed.
pub passed-ok {ℓ κ} :
    {E : Type ℓ} {A : Type κ} (b : Bool) (x : Result E A) (e : E) (c : A)
    → (if b then err e else x) ≡ ok c
    → x ≡ ok c
passed-ok true x e c h = absurd (cc)
passed-ok false x e c h = h
