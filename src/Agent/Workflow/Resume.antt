-- ===== src/Agent/Workflow/Resume.antt =====
-- The node `resume_workflow` of sky-agent/app/agent/nodes/resume_workflow.py.
use cang_qiong_project.Common.{
  ℕ, String, Bool, true, false, ◌||◌, not, Option, none, some, List, [], ◌∷◌, ◌=ₛ◌, ltb,
  if◌then◌else◌, is_some, any, put,
}
use cang_qiong_project.Policies.{int, text, Arguments}
use cang_qiong_project.Agent.Schemas.{SemanticDecision, explicit_order}
use cang_qiong_project.Agent.Graph.{resumed, inspect_resume, waiting_for_fields, reset}
use cang_qiong_project.Agent.Messages.{Patterns, is_interruption_candidate}
use cang_qiong_project.Agent.State.{AgentState, active, latest_user_message}

-- `_parse_order_id`
unfoldable pub parse_order_id : Patterns → String → Option ℕ
parse_order_id re message = elim (re.order_number message) [
  | some n ↦ if ltb 0 n then some n else none
  | none ↦ none
]

-- `key in fields` and `fields.remove(key)`
abbrev pub has : String → List String → Bool
has key fields = any (λ f. f =ₛ key) fields

abbrev pub remove : String → List String → List String
remove key [] = []
remove key (f ∷ fields) = if f =ₛ key then fields else f ∷ remove key fields

-- `_reset`
unfoldable pub reset_workflow : AgentState → AgentState
reset_workflow s = record s {
  previous_intent = none;
  pending_workflow_decision = none;
  missing_required_fields = [];
  collected_entities = [];
  workflow_active = false;
  workflow_resume_status = some reset;
}

-- `_interruption_or_wait`
unfoldable pub interruption_or_wait : Patterns → AgentState → String → AgentState
interruption_or_wait re s message =
    if is_interruption_candidate re message
    then record s {
      workflow_resume_status = some inspect_resume;
      workflow_interruption_pending = true;
    }
    else record s {
      workflow_resume_status = some waiting_for_fields;
      workflow_interruption_pending = false;
      workflow_state = some active;
    }

-- `_partial_resume`
unfoldable pub partial_resume : AgentState → SemanticDecision → Arguments → List String → AgentState
partial_resume s decision entities remaining = record s {
  semantic_decision = some decision;
  pending_workflow_decision = some decision;
  previous_intent = some decision.intent;
  collected_entities = entities;
  missing_required_fields = remaining;
  workflow_active = true;
  workflow_resume_status = some waiting_for_fields;
  workflow_interruption_pending = false;
  workflow_state = some active;
}

-- The end of the node, with the fields that are still missing.
unfoldable pub finish : AgentState → SemanticDecision → Arguments → List String → AgentState
finish s decision entities (f ∷ remaining) = partial_resume s decision entities (f ∷ remaining)
finish s decision entities [] = record s {
  semantic_decision = some decision;
  previous_intent = some decision.intent;
  collected_entities = entities;
  missing_required_fields = [];
  workflow_active = false;
  workflow_resume_status = some resumed;
  workflow_interruption_pending = false;
  workflow_state = some active;
}

unfoldable pub fill_reason :
    Patterns → AgentState → String → SemanticDecision → Arguments → List String → AgentState
fill_reason re s message decision entities remaining =
    if not (has "reason" remaining)
    then finish s decision entities remaining
    else if message =ₛ "" || is_some (parse_order_id re message)
    then (if is_interruption_candidate re message
        then interruption_or_wait re s message
        else partial_resume s decision entities remaining)
    else finish s (record decision { reason = message }) (put "reason" (text message) entities)
        (remove "reason" remaining)

-- The order that the message names, if any, is filled in.
unfoldable pub fill_target :
    Patterns
    → AgentState
    → String
    → SemanticDecision
    → Arguments
    → List String
    → Option ℕ
    → AgentState
fill_target re s message decision entities remaining none = interruption_or_wait re s message
fill_target re s message decision entities remaining (some order_id) =
    fill_reason re s message (record decision { target = some (explicit_order order_id) })
      (put "order_id" (int order_id) entities) (remove "order_id" remaining)

unfoldable pub fill_order :
    Patterns → AgentState → String → SemanticDecision → Arguments → List String → AgentState
fill_order re s message decision entities remaining =
    if has "order_id" remaining
    then fill_target re s message decision entities remaining (parse_order_id re message)
    else fill_reason re s message decision entities remaining

-- The fields that are missing, at the start of the node.
unfoldable pub resume_fields : Patterns → AgentState → SemanticDecision → List String → AgentState
resume_fields re s decision [] = reset_workflow s
resume_fields re s decision (f ∷ missing) =
    if s.workflow_active
    then fill_order re s (re.strip (latest_user_message s)) decision s.collected_entities
        (f ∷ missing)
    else reset_workflow s

unfoldable pub resume_decision : Patterns → AgentState → Option SemanticDecision → AgentState
resume_decision re s none = reset_workflow s
resume_decision re s (some decision) = resume_fields re s decision s.missing_required_fields

unfoldable pub resume_workflow : Patterns → AgentState → AgentState
resume_workflow re s = resume_decision re s s.pending_workflow_decision
