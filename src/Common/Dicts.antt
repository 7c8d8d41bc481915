-- ===== src/Common/Dicts.antt =====
-- A `defaultdict` with string keys, as the function from a key to its value.
use Prim.Native.String.{String}
use mathlib.Core.Path.{◌≡◌}
use text.Mathlib.Text.{◌==◌}
use text.Mathlib.TextPositions.{eq_refl}
use cang_qiong_project.Common.Tests.{if◌then◌else◌}

module _ {ℓ} {V : Type ℓ} where
  abbrev pub update : (String → V) → String → V → String → V
  update d k v j = if k == j then v else d j

  pub update_self : (d : String → V) (k : String) (v : V) → update d k v k ≡ v
  update_self d k v = rw eq_refl
