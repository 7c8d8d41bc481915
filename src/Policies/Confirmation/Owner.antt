-- ===== src/Policies/Confirmation/Owner.antt =====
-- The owner of a pending action, by sky-agent/app/policies/confirmation.py.
use cang_qiong_project.Common.{◌≡◌, ◌↔◌, true, arith, eq_iff}
use cang_qiong_project.Core.{
  ActorType, customer, support_operator, service, ExecutionContext, actor_eq,
}
use cang_qiong_project.Policies.{PendingAction}
use cang_qiong_project.Policies.Confirmation.{belongs_to_context}

actor_eq_iff : (a b : ActorType) → (actor_eq a b ≡ true) ↔ (a ≡ b)
actor_eq_iff customer b = ground arith
actor_eq_iff support_operator b = ground arith
actor_eq_iff service b = ground arith

-- An action belongs to a context exactly where its conversation, its tenant, its actor, the kind of
-- its actor and its customer are the context's.
pub belongs_iff :
    (action : PendingAction) (context : ExecutionContext)
    → (belongs_to_context action context ≡ true) ↔ (
        (action.conversation_id ≡ context.conversation_id)
        × (action.tenant_id ≡ context.tenant_id)
        × (action.actor_id ≡ context.principal.actor_id)
        × (action.actor_type ≡ context.principal.actor_type)
        × (action.effective_customer_id ≡ context.effective_customer_id))
unfolding belongs_to_context
belongs_iff action context = ground (
  arith,
  eq_iff action.conversation_id context.conversation_id,
  eq_iff action.tenant_id context.tenant_id,
  eq_iff action.actor_id context.principal.actor_id,
  actor_eq_iff action.actor_type context.principal.actor_type,
)
