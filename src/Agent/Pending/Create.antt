-- ===== src/Agent/Pending/Create.antt =====
-- The node `create_pending` of sky-agent/app/agent/nodes/create_pending.py. `new_id` is the key that
-- the source draws at random where the state has none.
use cang_qiong_project.Common.{
  ℕ, String, Bool, true, false, Option, none, some, List, [], ◌∷◌, ◌=ₛ◌, if◌then◌else◌, get,
  set_default,
}
use cang_qiong_project.Core.{ExecutionContext}
use cang_qiong_project.Policies.{
  Value, int, text, null, Arguments, PendingAction, PendingActionStatus, PolicyDecision,
  PolicyOutcome, require_confirmation,
}
use cang_qiong_project.Agent.Schemas.{Intent, intent_value}
use cang_qiong_project.Agent.State.{AgentState, awaiting, waiting_confirmation}
use cang_qiong_project.Agent.Workflow.{or_text, run_workflow_id}
use cang_qiong_project.Agent.Pending.Payload.{Json, build_policy_inputs, hash_policy_inputs}

abbrev entity_keys : List String
entity_keys = "order_id" ∷ "ticket_id" ∷ "reason" ∷ "category" ∷ "description" ∷ []

-- `collected_entities.setdefault(key, value)` for a text or a number.
set_entity : Option Value → String → Arguments → Arguments
set_entity (some (int n)) key d = set_default key (int n) d
set_entity (some (text t)) key d = set_default key (text t) d
set_entity _ key d = d

unfoldable pub add_entities : List String → Arguments → Arguments → Arguments
unfolding set_entity
add_entities [] arguments d = d
add_entities (k ∷ ks) arguments d = add_entities ks arguments (set_entity (get k arguments) k d)

abbrev or_null_text : Option String → Value
or_null_text none = null
or_null_text (some t) = text t

unfoldable pub validation_context_of : AgentState → Arguments
validation_context_of s =
    ("grounding_status", text s.grounding_status)
    ∷ ("grounding_reference_type", or_null_text s.grounding_reference_type)
    ∷ ("grounding_trusted_source", or_null_text s.grounding_trusted_source)
    ∷ ("target_validation_status", text s.target_validation_status)
    ∷ ("decision_reason", or_null_text s.decision_reason)
    ∷ []

abbrev value_of : Option Intent → Option String
value_of none = none
value_of (some i) = some (intent_value i)

unfoldable pub or_new : Option String → String → String
or_new none new_id = new_id
or_new (some id) new_id = if id =ₛ "" then new_id else id

unfoldable pub new_action :
    Json → ℕ → String → AgentState → ExecutionContext → String → ℕ → PolicyDecision → PendingAction
unfolding build_policy_inputs hash_policy_inputs add_entities validation_context_of
new_action json now action_id s context tool_name risk_level decision =
    let inputs =
      build_policy_inputs json context tool_name s.tool_arguments decision.outcome risk_level
        decision.reasons decision.required_conditions in
    record {
      action_id = action_id;
      conversation_id = context.conversation_id;
      tenant_id = context.tenant_id;
      actor_id = context.principal.actor_id;
      actor_type = context.principal.actor_type;
      effective_customer_id = context.effective_customer_id;
      tool_name = tool_name;
      arguments = s.tool_arguments;
      risk_level = risk_level;
      intent = value_of s.intent;
      collected_entities = add_entities entity_keys s.tool_arguments s.collected_entities;
      validation_context = validation_context_of s;
      policy_inputs = inputs;
      policy_inputs_hash = some (hash_policy_inputs json inputs);
      created_at = now;
      status = PendingActionStatus.pending;
    }

abbrev pub requires_confirmation : PolicyOutcome → Bool
requires_confirmation require_confirmation = true
requires_confirmation _ = false

unfoldable pub hold_action : AgentState → PendingAction → AgentState
hold_action s action = record s {
  pending_action = some action;
  action_id = some action.action_id;
  tool_execution_status = some awaiting;
  workflow_state = some waiting_confirmation;
  workflow_id = or_text s.workflow_id (some (run_workflow_id s));
}

-- The decision that requires a confirmation has a risk level; the context is there, as the policy
-- was evaluated in it.
unfoldable pub create_decided :
    Json
    → ℕ
    → String
    → AgentState
    → Option PolicyDecision
    → Option String
    → Option ExecutionContext
    → AgentState
unfolding hold_action new_action or_new
create_decided json now new_id s (some decision) (some tool_name) (some context) =
    elim decision.risk_level [
      | none ↦ s
      | some risk_level ↦
          if requires_confirmation decision.outcome
          then hold_action s (
              new_action json now (or_new s.action_id new_id) s context tool_name risk_level
                decision)
          else s
    ]
create_decided json now new_id s _ _ _ = s

unfoldable pub create_pending : Json → ℕ → String → AgentState → AgentState
unfolding create_decided
create_pending json now new_id s =
    create_decided json now new_id s s.policy_decision s.selected_tool s.execution_context
