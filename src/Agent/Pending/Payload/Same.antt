-- ===== src/Agent/Pending/Payload/Same.antt =====
-- What sky-agent/app/agent/nodes/revalidate.py finds of the payload that
-- sky-agent/app/agent/nodes/create_pending.py kept.
use cang_qiong_project.Common.{
  ℕ, String, ◌≡◌, refl, sym, ap, ◌∙◌, subst, false, not, Option, none, some, List, [], ◌∷◌, map,
  arith, eq_refl, is_some, All, ok, get, put, get-set_default, Unique, put-Unique, Unique-get,
  filter-none, All-map,
}
use cang_qiong_project.Core.{ExecutionContext}
use cang_qiong_project.Policies.{
  Value, null, Arguments, value, nested, PolicyInputs, PendingAction, PolicyDecision,
}
use cang_qiong_project.Policies.{PendingActionStatus}
use cang_qiong_project.Policies.Confirmation.{transition}
use cang_qiong_project.Agent.State.{AgentState}
use cang_qiong_project.Agent.Catalog.{
  Pydantic, InputModel, ToolInput, customer_input, order_input, ticket_input, cancel_input,
  refund_input, create_input, escalate_input, model_validate, model_dump, customer_model,
  order_model, ticket_model, cancel_model, refund_model, create_model, escalate_model,
}
use cang_qiong_project.Agent.Pending.Create.{new_action}
use cang_qiong_project.Agent.Pending.Payload.{
  Json, Flat, build_policy_context, build_policy_inputs, restore_policy_inputs,
  restore_pending_arguments, restore_keys, restored_keys, set_known, flatten, flatten_values,
  keys_without, keys_changed, differs, policy_input_diff, any_diff,
}

module _ (json : Json) where
  flatten_values-Unique :
      (prefix : String) (d : Arguments) (flat : Flat)
      → Unique flat
      → Unique (flatten_values json prefix d flat)
  unfolding flatten_values
  flatten_values-Unique prefix [] flat u = u
  flatten_values-Unique prefix ((k, v) ∷ d) flat u =
      flatten_values-Unique prefix d _ (put-Unique _ (json.dumps v) flat u)

  flatten-Unique : (d : PolicyInputs) (flat : Flat) → Unique flat → Unique (flatten json d flat)
  unfolding flatten
  flatten-Unique [] flat u = u
  flatten-Unique ((k, value v) ∷ d) flat u = flatten-Unique d _ (put-Unique k (json.dumps v) flat u)
  flatten-Unique ((k, nested e) ∷ d) flat u = flatten-Unique d _ (flatten_values-Unique k e flat u)

keys_without_self : (d : Flat) → Unique d → keys_without d d ≡ []
unfolding keys_without
keys_without_self d u =
    ap (map (λ p. p.0))
      (filter-none _ d (All-map d (λ p e. ap (λ x. not (is_some x)) e) (Unique-get d u)))

differs_self : (v : String) → differs v (some v) ≡ false
unfolding differs
differs_self v = ground (arith, eq_refl v)

keys_changed_self : (d : Flat) → Unique d → keys_changed d d ≡ []
unfolding keys_changed
keys_changed_self d u =
    ap (map (λ p. p.0))
      (filter-none _ d (All-map d (λ p e. ap (differs p.1) e ∙ differs_self p.1) (Unique-get d u)))

set_known-get :
    (o : Option Value) (j : String) (d : Arguments) (k : String) (v : Value)
    → get k d ≡ some v
    → get k (set_known o j d) ≡ some v
unfolding set_known
set_known-get none j d k v h = h
set_known-get (some null) j d k v h = h
set_known-get (some w) j d k v h = get-set_default k j w d v h

module _ (json : Json) (sorted-none : json.sorted [] ≡ []) where
  -- Inputs that did not change have no difference.
  policy_input_diff-same : (d : PolicyInputs) → any_diff (policy_input_diff json d d) ≡ false
  unfolding policy_input_diff any_diff
  policy_input_diff-same d =
      let u = flatten-Unique json d [] tt in
      rw (keys_without_self _ u, keys_changed_self _ u, sorted-none)

  module _ (now : ℕ) (id : String) (s : AgentState) (context later : ExecutionContext)
      (tool : String) (risk : ℕ) (decision : PolicyDecision) where
    abbrev held : PendingAction
    held = new_action json now id s context tool risk decision

    held-restored :
        build_policy_context json later ≡ build_policy_context json context
        → restore_policy_inputs json held later s.tool_arguments ≡ held.policy_inputs
    unfolding restore_policy_inputs new_action build_policy_inputs
    held-restored e = ap (λ c. put "context" (nested c) held.policy_inputs) e

    -- A pending action whose policy context did not change revalidates with no difference in the
    -- policy's inputs, when its arguments are those that it was held with.
    held-unchanged :
        build_policy_context json later ≡ build_policy_context json context
        → any_diff (
            policy_input_diff json held.policy_inputs
              (restore_policy_inputs json held later s.tool_arguments))
          ≡ false
    held-unchanged e =
        ap (λ d. any_diff (policy_input_diff json held.policy_inputs d)) (held-restored e)
        ∙ policy_input_diff-same held.policy_inputs

-- The entities that were collected override no argument.
restore_keys-get :
    (ks : List String) (entities d : Arguments) (k : String) (v : Value)
    → get k d ≡ some v
    → get k (restore_keys ks entities d) ≡ some v
unfolding restore_keys
restore_keys-get [] entities d k v h = h
restore_keys-get (j ∷ ks) entities d k v h =
    restore_keys-get ks entities _ k v (set_known-get (get j entities) j d k v h)

abbrev model_of : ToolInput → InputModel
model_of (customer_input r) = customer_model
model_of (order_input r) = order_model
model_of (ticket_input r) = ticket_model
model_of (cancel_input r) = cancel_model
model_of (refund_input r) = refund_model
model_of (create_input r) = create_model
model_of (escalate_input r) = escalate_model

abbrev fields : InputModel → List String
fields customer_model = "customer_id" ∷ []
fields order_model = "order_id" ∷ "customer_id" ∷ []
fields ticket_model = "ticket_id" ∷ "customer_id" ∷ []
fields cancel_model = "customer_id" ∷ "order_id" ∷ []
fields refund_model = "customer_id" ∷ "order_id" ∷ "reason" ∷ []
fields create_model = "customer_id" ∷ "order_id" ∷ "category" ∷ "description" ∷ []
fields escalate_model =
    "customer_id" ∷ "ticket_id" ∷ "order_id" ∷ "reason" ∷ "priority" ∷ "summary" ∷ []

-- A model reads its own fields only.
model_validate-cong :
    (py : Pydantic) (m : InputModel) (d e : Arguments)
    → All (λ k. get k d ≡ get k e) (fields m)
    → model_validate py m d ≡ model_validate py m e
unfolding model_validate
model_validate-cong py customer_model d e p = rw (p.0)
model_validate-cong py order_model d e p = rw (p.0, p.1.0)
model_validate-cong py ticket_model d e p = rw (p.0, p.1.0)
model_validate-cong py cancel_model d e p = rw (p.0, p.1.0)
model_validate-cong py refund_model d e p = rw (p.0, p.1.0, p.1.1.0)
model_validate-cong py create_model d e p = rw (p.0, p.1.0, p.1.1.0, p.1.1.1.0)
model_validate-cong py escalate_model d e p =
    rw (p.0, p.1.0, p.1.1.0, p.1.1.1.0, p.1.1.1.1.0, p.1.1.1.1.1.0)

-- The fields of an input are there when it is dumped.
dumped-fields :
    (i : ToolInput) → All (λ k. (v : Value) × (get k (model_dump i) ≡ some v)) (fields (model_of i))
unfolding model_dump
dumped-fields (customer_input r) = ((_, refl), tt)
dumped-fields (order_input r) = ((_, refl), ((_, refl), tt))
dumped-fields (ticket_input r) = ((_, refl), ((_, refl), tt))
dumped-fields (cancel_input r) = ((_, refl), ((_, refl), tt))
dumped-fields (refund_input r) = ((_, refl), ((_, refl), ((_, refl), tt)))
dumped-fields (create_input r) = ((_, refl), ((_, refl), ((_, refl), ((_, refl), tt))))
dumped-fields (escalate_input r) =
    ((_, refl), ((_, refl), ((_, refl), ((_, refl), ((_, refl), ((_, refl), tt))))))

restored-validates :
    (py : Pydantic) (ks : List String) (entities : Arguments) (i : ToolInput)
    → model_validate py (model_of i) (model_dump i) ≡ ok i
    → model_validate py (model_of i) (restore_keys ks entities (model_dump i)) ≡ ok i
restored-validates py ks entities i n =
    model_validate-cong py (model_of i) _ (model_dump i) (
      All-map (fields (model_of i))
        (λ k p. restore_keys-get ks entities (model_dump i) k p.0 p.1 ∙ sym p.1) (dumped-fields i))
    ∙ n

module _ (py : Pydantic) (json : Json) (sorted-none : json.sorted [] ≡ []) (now : ℕ) (id : String)
    (s : AgentState) (context later : ExecutionContext) (tool : String) (risk : ℕ)
    (decision : PolicyDecision) where
  -- The action that is held in the state `s`, once it is confirmed.
  abbrev confirmed_action : PendingAction
  confirmed_action =
      transition (new_action json now id s context tool risk decision) PendingActionStatus.confirmed

  held-arguments :
      (input : ToolInput)
      → s.tool_arguments ≡ model_dump input
      → model_validate py (model_of input) (model_dump input) ≡ ok input
      → model_validate py (model_of input) (restore_pending_arguments confirmed_action) ≡ ok input
  unfolding restore_pending_arguments new_action build_policy_inputs
  held-arguments input e n =
      ap
        (λ d.
          model_validate py (model_of input)
            (restore_keys restored_keys confirmed_action.collected_entities d))
        e
      ∙ restored-validates py restored_keys confirmed_action.collected_entities input n

  -- An action that is held with the normal form of an input survives the wait for its confirmation:
  -- the arguments that are restored are read as the same input, whatever entities were collected
  -- beside them, and the inputs of the policy show no difference, as long as the context that
  -- confirms has the identity and the scope of the one that asked. The order of no texts is none.
  pub held_action_revalidates :
      (input : ToolInput)
      → s.tool_arguments ≡ model_dump input
      → model_validate py (model_of input) (model_dump input) ≡ ok input
      → build_policy_context json later ≡ build_policy_context json context
      → (model_validate py (model_of input) (restore_pending_arguments confirmed_action) ≡ ok input)
        × (any_diff (
              policy_input_diff json confirmed_action.policy_inputs
                (restore_policy_inputs json confirmed_action later (model_dump input)))
            ≡ false)
  unfolding restore_policy_inputs
  held_action_revalidates input e n c = (
    held-arguments input e n,
    subst
        (λ d.
          any_diff (
            policy_input_diff json confirmed_action.policy_inputs
              (restore_policy_inputs json confirmed_action later d))
          ≡ false)
        e (held-unchanged json sorted-none now id s context later tool risk decision c),
  )
