-- ===== src/Agent/Compiler/Resolver.antt =====
-- `BusinessTargetResolver` of sky-agent/app/agent/decision_compiler.py: the order that a target means.
use cang_qiong_project.Common.{
  ℕ, String, Bool, true, false, ◌&&◌, ◌||◌, Option, none, some, List, [], ◌∷◌, ◌=ₛ◌, ltb, ◌==◌,
  if◌then◌else◌,
}
use cang_qiong_project.Models.{Session, Order}
use cang_qiong_project.Agent.Schemas.{SemanticTarget, explicit_order, latest_order, explicit_ticket}

-- `a` comes before `b` in the order of the query: created later, or then with the greater key.
abbrev is_newer : Order → Order → Bool
is_newer a b = ltb b.created_at a.created_at || (a.created_at == b.created_at && ltb b.id a.id)

abbrev newest : Order → Option Order → Option Order
newest o none = some o
newest o (some p) = if is_newer p o then some p else some o

-- The query of `resolve_order_id`.
unfoldable pub latest : ℕ → String → List Order → Option Order
latest customer_id tenant_id [] = none
latest customer_id tenant_id (o ∷ os) =
    let rest = latest customer_id tenant_id os in
    if o.customer_id == customer_id && o.tenant_id =ₛ tenant_id then newest o rest else rest

abbrev order_id_of : Option Order → Option ℕ
order_id_of none = none
order_id_of (some o) = some o.id

-- `_order_target`, with `resolve_order_id`.
unfoldable pub order_target : Session → ℕ → String → Option SemanticTarget → Option ℕ
order_target s customer_id tenant_id none = none
order_target s customer_id tenant_id (some (explicit_ticket id)) = none
order_target s customer_id tenant_id (some (explicit_order id)) = some id
order_target s customer_id tenant_id (some latest_order) =
    order_id_of (latest customer_id tenant_id s.orders)

-- `_wrong_order_target`
abbrev pub wrong_order_target : Option SemanticTarget → Bool
wrong_order_target (some (explicit_ticket id)) = true
wrong_order_target _ = false
