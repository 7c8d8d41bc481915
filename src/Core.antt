-- ===== src/Core.antt =====
-- sky-agent/app/core/context.py and the identities of sky-agent/app/auth/models.py.
pub mod Scope
use cang_qiong_project.Common.{
  ℕ, String, Bool, true, false, ◌&&◌, not, Option, none, some, List, ◌=ₛ◌, ◌==◌, if◌then◌else◌,
  Result, ok, err,
}

pub data ActorType : Type 0 where
  customer support_operator service : ActorType

pub data PrincipalType : Type 0 where
  local_demo static oidc internal : PrincipalType

pub record Principal : Type 0 where
  pub actor_id : String
  pub actor_type : ActorType
  pub principal_type : PrincipalType
  pub roles : List String
  pub groups : List String
  pub tenant_id : Option String
  pub customer_id : Option ℕ
  pub customer_ids : List ℕ

-- A customer's number is positive where the source validates it; 0 stands for all that is not.
pub record ExecutionContext : Type 0 where
  pub request_id : String
  pub conversation_id : String
  pub principal : Principal
  pub tenant_id : String
  pub effective_customer_id : ℕ

abbrev pub actor_eq : ActorType → ActorType → Bool
actor_eq customer customer = true
actor_eq support_operator support_operator = true
actor_eq service service = true
actor_eq _ _ = false

-- The `ValueError`s of the validator.
pub data ScopeError : Type 0 where
  tenant_mismatch customer_mismatch : ScopeError

abbrev pub is_own : Option ℕ → ℕ → Bool
is_own none n = false
is_own (some m) n = m == n

-- The last test of the validator, on the principal's customer.
check_customer : ExecutionContext → Result ScopeError ExecutionContext
check_customer c =
    if actor_eq c.principal.actor_type customer
      && not (is_own c.principal.customer_id c.effective_customer_id)
    then err customer_mismatch
    else ok c

-- The principal's tenant, if it has one, is inherited by a context of tenant "default" and
-- compared with any other.
check_tenant : Option String → ExecutionContext → Result ScopeError ExecutionContext
unfolding check_customer
check_tenant none c = check_customer c
check_tenant (some t) c =
    let tenant = if c.tenant_id =ₛ "default" then t else c.tenant_id in
    if t =ₛ tenant then check_customer (record c { tenant_id = tenant }) else err tenant_mismatch

-- `validate_customer_actor_scope`.
unfoldable pub validate_customer_actor_scope : ExecutionContext → Result ScopeError ExecutionContext
unfolding check_tenant
validate_customer_actor_scope c = check_tenant c.principal.tenant_id c
