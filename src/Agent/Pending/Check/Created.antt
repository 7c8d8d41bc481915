-- ===== src/Agent/Pending/Check/Created.antt =====
-- From sky-agent/app/agent/nodes/create_pending.py to check_pending.py: when an action that the first
-- holds is confirmed by the second.
use cang_qiong_project.Common.{
  ℕ, ◌+◌, ◌<◌, String, ◌≡◌, refl, sym, ap, ◌∙◌, subst, ◌↔◌, inl, inr, true, Option, none, some,
  arith, Bool-cases, Option-cases,
}
use cang_qiong_project.Core.{ExecutionContext}
use cang_qiong_project.Policies.{PendingAction, PendingActionStatus, PolicyDecision}
use cang_qiong_project.Policies.Confirmation.{Answer, parse_confirmation, transition}
use cang_qiong_project.Policies.Confirmation.Owner.{belongs_iff}
use cang_qiong_project.Agent.Graph.{ConfirmationStatus}
use cang_qiong_project.Agent.State.{AgentState, latest_user_message}
use cang_qiong_project.Agent.Pending.Payload.{Json}
use cang_qiong_project.Agent.Pending.Create.{
  new_action, hold_action, requires_confirmation, create_decided, create_pending, or_new,
}
use cang_qiong_project.Agent.Pending.Check.{Turn, is_owned, check_pending}
use cang_qiong_project.Agent.Pending.Check.Confirms.{
  IsConfirmable, confirmed-IsConfirmable, confirmable_is_confirmed,
}

-- The two contexts are of one conversation, tenant, actor and customer.
pub record SameOwner (c c' : ExecutionContext) : Type 0 where
  pub conversation : c.conversation_id ≡ c'.conversation_id
  pub tenant : c.tenant_id ≡ c'.tenant_id
  pub actor : c.principal.actor_id ≡ c'.principal.actor_id
  pub actor_type : c.principal.actor_type ≡ c'.principal.actor_type
  pub customer : c.effective_customer_id ≡ c'.effective_customer_id

-- What a new action has of the turn that it is made in.
record IsCreated (action : PendingAction) (c : ExecutionContext) (now : ℕ) : Type 0 where
  conversation : action.conversation_id ≡ c.conversation_id
  tenant : action.tenant_id ≡ c.tenant_id
  actor : action.actor_id ≡ c.principal.actor_id
  actor_type : action.actor_type ≡ c.principal.actor_type
  customer : action.effective_customer_id ≡ c.effective_customer_id
  created : action.created_at ≡ now
  waits : action.status ≡ PendingActionStatus.pending

owned_iff :
    (action : PendingAction) (c c' : ExecutionContext) (now : ℕ)
    → IsCreated action c now
    → (is_owned action (some c') ≡ true) ↔ SameOwner c c'
unfolding is_owned
owned_iff action c c' now made =
    let belongs = belongs_iff action c' in
    (
      λ o.
          let same = belongs.0 o in
          record {
            conversation = sym made.conversation ∙ same.0;
            tenant = sym made.tenant ∙ same.1;
            actor = sym made.actor ∙ same.2;
            actor_type = sym made.actor_type ∙ same.3;
            customer = sym made.customer ∙ same.4;
          },
      λ same. belongs.1 (
        made.conversation ∙ same.conversation,
        made.tenant ∙ same.tenant,
        made.actor ∙ same.actor,
        made.actor_type ∙ same.actor_type,
        made.customer ∙ same.customer,
      ),
    )

confirmed_held :
    (turn : Turn) (t : AgentState) (action : PendingAction)
    → t.pending_action ≡ some action
    → (check_pending turn t).confirmation_status ≡ some ConfirmationStatus.confirmed
    → IsConfirmable turn t action
confirmed_held turn t action held h =
    let found = confirmed-IsConfirmable turn t h in
    subst (IsConfirmable turn t) (ground (arith, held, found.1.held)) found.1

module _ (json : Json) (now : ℕ) (new_id : String) (s : AgentState) (action : PendingAction)
    (fresh : s.pending_action ≡ none) where
  new_action-IsCreated :
      (id : String) (c : ExecutionContext) (tool : String) (risk : ℕ) (d : PolicyDecision)
      → IsCreated (new_action json now id s c tool risk d) c now
  unfolding new_action
  new_action-IsCreated id c tool risk d = record {
    conversation = refl;
    tenant = refl;
    actor = refl;
    actor_type = refl;
    customer = refl;
    created = refl;
    waits = refl;
  }

  create-IsCreated :
      (d : Option PolicyDecision) (tool : Option String) (o : Option ExecutionContext)
      (c : ExecutionContext)
      → o ≡ some c
      → (create_decided json now new_id s d tool o).pending_action ≡ some action
      → IsCreated action c now
  unfolding create_decided hold_action
  create-IsCreated none tool o c e h = absurd (ground (arith, fresh, h))
  create-IsCreated (some d) none o c e h = absurd (ground (arith, fresh, h))
  create-IsCreated (some d) (some tool) none c e h = absurd (ground (arith, e))
  create-IsCreated (some d) (some tool) (some c') c e h = elim (Option-cases d.risk_level) [
    | inl r ↦ absurd (ground (arith, fresh, rw r at h))
    | inr (risk, r) ↦ elim (Bool-cases (requires_confirmation d.outcome)) [
      | inl q ↦
          subst (λ x. IsCreated x c now) (ground (arith, rw (r, q) at h))
            (subst
              (λ x.
                IsCreated (new_action json now (or_new s.action_id new_id) s c' tool risk d) x now)
              (ground (arith, e)) (new_action-IsCreated (or_new s.action_id new_id) c' tool risk d))
      | inr q ↦ absurd (ground (arith, fresh, rw (r, q) at h))
    ]
  ]

  -- An action that `create_pending` holds, where none was held, is confirmed by `check_pending` on a
  -- later turn exactly if that turn's context is of the same conversation, tenant, actor and customer,
  -- less than the time to live has gone by since, and the message is one of the phrases of
  -- agreement. The node then sets the status of the action and its report, and nothing else.
  pub created_action_confirms_iff :
      (context context' : ExecutionContext) (turn : Turn) (t : AgentState)
      → s.execution_context ≡ some context
      → (create_pending json now new_id s).pending_action ≡ some action
      → t.pending_action ≡ some action
      → t.execution_context ≡ some context'
      → (check_pending turn t ≡ record t {
        pending_action = some (transition action PendingActionStatus.confirmed);
        confirmation_status = some ConfirmationStatus.confirmed;
      })
        ↔ (SameOwner context context'
            × (turn.now < now + turn.ttl)
            × (parse_confirmation turn.re.normalize (latest_user_message t) ≡ Answer.confirms))
  unfolding create_pending
  created_action_confirms_iff context context' turn t e h held e' =
      let made =
        create-IsCreated s.policy_decision s.selected_tool s.execution_context context e h in
      let owned = owned_iff action context context' now made in
      (
        λ k.
            let ready = confirmed_held turn t action held (ap (λ r. r.confirmation_status) k) in
            (
              owned.0 (subst (λ o. is_owned action o ≡ true) e' ready.owned),
              subst (λ n. turn.now < n + turn.ttl) made.created ready.in_time,
              ready.agreed,
            ),
        λ k. confirmable_is_confirmed turn t action (record {
          held = held;
          is_pending = made.waits;
          owned = subst (λ o. is_owned action o ≡ true) (sym e') (owned.1 k.0);
          in_time = subst (λ n. turn.now < n + turn.ttl) (sym made.created) k.1;
          agreed = k.2;
        }),
      )
