-- ===== src/Agent/Pending/Payload.antt =====
-- sky-agent/app/agent/nodes/pending_payload.py: the policy's inputs that a pending action keeps.
-- `Json` holds what the source calls of Python: the order of texts, JSON, the digest and `str`.
pub mod Same
use cang_qiong_project.Common.{
  ℕ, String, Bool, true, false, ◌&&◌, ◌||◌, not, Option, none, some, List, [], ◌∷◌, map, ◌=ₛ◌, ltb,
  leb, if◌then◌else◌, is_some, Result, ok, err, ◌>>=◌, get, put, set_default, ◌++ₛ◌, filter,
}
use cang_qiong_project.Core.{
  ActorType, customer, support_operator, service, PrincipalType, local_demo, static, oidc, internal,
  ExecutionContext,
}
use cang_qiong_project.Policies.{
  PolicyOutcome, allow, require_confirmation, require_human, deny, Value, int, text, texts, null,
  Arguments, Input, value, nested, PolicyInputs, PendingAction, PolicyDecision,
}
use cang_qiong_project.Agent.Catalog.{Pydantic, ValidationError, invalid}
use cang_qiong_project.Agent.Schemas.{
  Intent, order_cancel, refund_request, ticket_create, human_escalation, parse_intent, intent_value,
  SemanticTarget, explicit_order, explicit_ticket, SemanticDecision, plain_decision, write_action,
}

pub record Json : Type 0 where
  pub sorted : List String → List String
  pub dumps : Value → String
  pub dumps_inputs : PolicyInputs → String
  pub sha256 : String → String
  pub str : Value → String

abbrev actor_type_value : ActorType → String
actor_type_value customer = "customer"
actor_type_value support_operator = "support_operator"
actor_type_value service = "service"

abbrev principal_type_value : PrincipalType → String
principal_type_value local_demo = "local_demo"
principal_type_value static = "static"
principal_type_value oidc = "oidc"
principal_type_value internal = "internal"

abbrev outcome_value : PolicyOutcome → String
outcome_value allow = "allow"
outcome_value require_confirmation = "require_confirmation"
outcome_value require_human = "require_human"
outcome_value deny = "deny"

unfoldable pub build_policy_context : Json → ExecutionContext → Arguments
build_policy_context json c =
    ("conversation_id", text c.conversation_id)
    ∷ ("tenant_id", text c.tenant_id)
    ∷ ("effective_customer_id", int c.effective_customer_id)
    ∷ ("actor_id", text c.principal.actor_id)
    ∷ ("actor_type", text (actor_type_value c.principal.actor_type))
    ∷ ("principal_type", text (principal_type_value c.principal.principal_type))
    ∷ ("roles", texts (json.sorted c.principal.roles))
    ∷ ("groups", texts (json.sorted c.principal.groups))
    ∷ []

-- `_json_value` leaves the values of the arguments as they are. The risk level is a number here, as
-- the decisions that lead to a pending action have one.
unfoldable pub build_policy_inputs :
    Json
    → ExecutionContext
    → String
    → Arguments
    → PolicyOutcome
    → ℕ
    → List String
    → List String
    → PolicyInputs
build_policy_inputs json c tool_name arguments outcome risk_level reasons conditions =
    ("schema_version", value (int 1))
    ∷ ("tool_name", value (text tool_name))
    ∷ ("arguments", nested arguments)
    ∷ ("context", nested (build_policy_context json c))
    ∷ ("outcome", value (text (outcome_value outcome)))
    ∷ ("risk_level", value (int risk_level))
    ∷ ("reasons", value (texts reasons))
    ∷ ("required_conditions", value (texts conditions))
    ∷ []

or_version : Option Input → Input
or_version none = value (int 1)
or_version (some v) = v

unfoldable pub restore_policy_inputs :
    Json → PendingAction → ExecutionContext → Arguments → PolicyInputs
unfolding or_version
restore_policy_inputs json action c arguments =
    put "context" (nested (build_policy_context json c)) (
      put "arguments" (nested arguments) (
        put "tool_name" (value (text action.tool_name)) (
          put "schema_version" (or_version (get "schema_version" action.policy_inputs))
            action.policy_inputs)))

abbrev restored_keys : List String
restored_keys =
    "customer_id" ∷ "order_id" ∷ "ticket_id" ∷ "reason" ∷ "category" ∷ "description" ∷ []

-- `arguments.setdefault(key, value)` for a value that is not `None`.
set_known : Option Value → String → Arguments → Arguments
set_known none key d = d
set_known (some null) key d = d
set_known (some v) key d = set_default key v d

unfoldable pub restore_keys : List String → Arguments → Arguments → Arguments
unfolding set_known
restore_keys [] entities d = d
restore_keys (k ∷ ks) entities d = restore_keys ks entities (set_known (get k entities) k d)

captured_arguments : Option Input → Arguments → Arguments
captured_arguments (some (nested d)) arguments = d
captured_arguments _ arguments = arguments

unfoldable pub restore_pending_arguments : PendingAction → Arguments
unfolding captured_arguments restore_keys
restore_pending_arguments action =
    restore_keys restored_keys action.collected_entities
      (captured_arguments (get "arguments" action.policy_inputs) action.arguments)

unfoldable pub hash_policy_inputs : Json → PolicyInputs → String
hash_policy_inputs json inputs = json.sha256 (json.dumps_inputs inputs)

abbrev Flat : Type 0
Flat = List (String × String)

-- `flattened.update(_flatten(item, path))`
flatten_values : Json → String → Arguments → Flat → Flat
flatten_values json prefix [] flat = flat
flatten_values json prefix ((k, v) ∷ d) flat =
    flatten_values json prefix d (put (prefix ++ₛ ("." ++ₛ k)) (json.dumps v) flat)

-- `_flatten` of the inputs, which are two dictionaries deep.
unfoldable pub flatten : Json → PolicyInputs → Flat → Flat
unfolding flatten_values
flatten json [] flat = flat
flatten json ((k, value v) ∷ d) flat = flatten json d (put k (json.dumps v) flat)
flatten json ((k, nested e) ∷ d) flat = flatten json d (flatten_values json k e flat)

pub record PolicyInputDiff : Type 0 where
  pub missing : List String
  pub added : List String
  pub changed : List String

unfoldable pub keys_without : Flat → Flat → List String
keys_without a b = map (λ p. p.0) (filter (λ p. not (is_some (get p.0 b))) a)

differs : String → Option String → Bool
differs v none = false
differs v (some w) = not (v =ₛ w)

unfoldable pub keys_changed : Flat → Flat → List String
unfolding differs
keys_changed a b = map (λ p. p.0) (filter (λ p. differs p.1 (get p.0 b)) a)

unfoldable pub policy_input_diff : Json → PolicyInputs → PolicyInputs → PolicyInputDiff
unfolding flatten keys_without keys_changed
policy_input_diff json original restored =
    let a = flatten json original [] in
    let b = flatten json restored [] in
    record {
      missing = json.sorted (keys_without a b);
      added = json.sorted (keys_without b a);
      changed = json.sorted (keys_changed a b);
    }

abbrev is_nonempty : List String → Bool
is_nonempty [] = false
is_nonempty (_ ∷ _) = true

-- `any(input_diff.values())`
unfoldable pub any_diff : PolicyInputDiff → Bool
any_diff d = is_nonempty d.missing || is_nonempty d.added || is_nonempty d.changed

tool_intent : String → Option Intent
tool_intent name =
    if name =ₛ "cancel_order"
    then some order_cancel
    else if name =ₛ "request_refund"
    then some refund_request
    else if name =ₛ "create_support_ticket"
    then some ticket_create
    else if name =ₛ "escalate_to_human"
    then some human_escalation
    else none

positive_id : Option Value → Option ℕ
positive_id (some (int n)) = if ltb 0 n then some n else none
positive_id _ = none

restored_target : Option ℕ → Option ℕ → Option SemanticTarget
restored_target (some n) ticket = some (explicit_order n)
restored_target none (some n) = some (explicit_ticket n)
restored_target none none = none

-- `_optional_text`
optional_text : Option Value → Option String
optional_text (some (text t)) = if t =ₛ "" then none else some t
optional_text _ = none

str_or_empty : Json → Option Value → String
str_or_empty json none = ""
str_or_empty json (some v) = json.str v

restored_intent : Intent → Option Intent → Intent
restored_intent intent none = intent
restored_intent intent (some i) = i

-- The bounds of the texts of a `SemanticDecision`.
within : Pydantic → ℕ → Option String → Bool
within py bound none = true
within py bound (some t) = leb (py.text_length t) bound

unfoldable pub semantic_decision :
    Pydantic → SemanticDecision → Result ValidationError SemanticDecision
unfolding within
semantic_decision py d =
    if leb (py.text_length d.reason) 300
      && within py 100 d.category
      && within py 5000 d.description
      && within py 20 d.priority
      && within py 5000 d.summary
    then ok d
    else err invalid

unfoldable pub restored_decision : Json → PendingAction → Arguments → Intent → SemanticDecision
unfolding tool_intent positive_id restored_target optional_text str_or_empty restored_intent
restored_decision json action d intent =
    record (plain_decision (restored_intent intent (tool_intent action.tool_name)) write_action
      (str_or_empty json (get "reason" d))) {
        target = restored_target (positive_id (get "order_id" d)) (positive_id (get "ticket_id" d));
        category = optional_text (get "category" d);
        description = optional_text (get "description" d);
        priority = optional_text (get "priority" d);
        summary = optional_text (get "summary" d);
      }

action_intent : Option String → Option Intent
unfolding parse_intent
action_intent none = none
action_intent (some v) = parse_intent v

-- An error is the one that the constructor of `SemanticDecision` raises.
unfoldable pub restore_pending_decision :
    Pydantic → Json → PendingAction → Arguments → Result ValidationError (Option SemanticDecision)
unfolding semantic_decision restored_decision action_intent
restore_pending_decision py json action d = elim (action_intent action.intent) [
  | none ↦ ok none
  | some intent ↦ do
    decision ← semantic_decision py (restored_decision json action d intent)
    ok (some decision)
]
