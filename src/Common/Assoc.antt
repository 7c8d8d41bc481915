-- ===== src/Common/Assoc.antt =====
-- A Python dictionary with string keys, as the list of its items in the order of insertion.
use Prim.Native.String.{String}
use mathlib.Core.Path.{◌≡◌, refl}
use mathlib.Core.Option.{Option, none, some}
use mathlib.Core.List.{List, [], ◌∷◌, ◌++◌}
use native.Mathlib.Omega.{arith}
use text.Mathlib.Text.{◌==◌}
use text.Mathlib.TextEquality.{eq_iff}
use cang_qiong_project.Common.Tests.{if◌then◌else◌, is_some}

module _ {ℓ} {V : Type ℓ} where
  -- `dict.get`
  abbrev pub get : String → List (String × V) → Option V
  get k [] = none
  get k ((j, v) ∷ rest) = if j == k then some v else get k rest

  -- `d[k] = v`
  abbrev pub put : String → V → List (String × V) → List (String × V)
  put k v [] = (k, v) ∷ []
  put k v ((j, w) ∷ rest) = if j == k then (k, v) ∷ rest else (j, w) ∷ put k v rest

  -- `dict.setdefault`
  abbrev pub set_default : String → V → List (String × V) → List (String × V)
  set_default k v d = if is_some (get k d) then d else d ++ (k, v) ∷ []

  get-append :
      (k : String) (d e : List (String × V)) (v : V) → get k d ≡ some v → get k (d ++ e) ≡ some v
  get-append k [] e v h = ground arith
  get-append k ((j, w) ∷ d) e v h = ground (arith, get-append k d e v)

  -- A key that is there keeps its value.
  pub get-set_default :
      (k j : String) (w : V) (d : List (String × V)) (v : V)
      → get k d ≡ some v
      → get k (set_default j w d) ≡ some v
  get-set_default k j w d v h = ground (arith, get-append k d ((j, w) ∷ []) v)

  pub get-put :
      (k j : String) (v : V) (d : List (String × V))
      → get j (put k v d) ≡ (if k == j then some v else get j d)
  get-put k j v [] = refl
  get-put k j v ((i, w) ∷ d) = ground (arith, eq_iff k j, eq_iff i k, eq_iff i j, get-put k j v d)
