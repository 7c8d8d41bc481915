-- ===== src/Core/Scope.antt =====
-- What an accepted context of sky-agent/app/core/context.py guarantees.
use cang_qiong_project.Common.{String, ◌≡◌, some, arith, eq_iff, ok}
use cang_qiong_project.Core.{ExecutionContext, customer, validate_customer_actor_scope}

-- An accepted context keeps the principal and the customer of the request. Where the principal has a
-- tenant, the context stands in it.
accepted-tenant :
    (c c' : ExecutionContext) (t : String)
    → validate_customer_actor_scope c ≡ ok c'
    → c.principal.tenant_id ≡ some t
    → (c'.tenant_id ≡ t)
      × (c'.principal ≡ c.principal)
      × (c'.effective_customer_id ≡ c.effective_customer_id)
unfolding validate_customer_actor_scope
accepted-tenant c c' t h e = ground (arith, eq_iff t c.tenant_id)

-- A customer is accepted for no customer's number but its own.
accepted-customer :
    (c c' : ExecutionContext)
    → validate_customer_actor_scope c ≡ ok c'
    → c.principal.actor_type ≡ customer
    → c'.principal.customer_id ≡ some c'.effective_customer_id
unfolding validate_customer_actor_scope
accepted-customer c c' h e = ground arith
