-- ===== src/Agent/Schemas.antt =====
-- sky-agent/app/agent/schemas.py: the enumerations and the semantic proposal of the model.
use cang_qiong_project.Common.{
  ℕ, String, ◌≡◌, refl, Bool, false, Option, none, some, List, [], ◌∷◌, ◌=ₛ◌, find,
}

pub data Intent : Type 0 where
  customer_lookup order_lookup order_list ticket_lookup ticket_list : Intent
  ticket_create order_cancel refund_request human_escalation : Intent
  capability_question refund_policy cancellation_policy shipping_policy support_faq : Intent
  refund_eligibility cancellation_explanation memory_remember memory_forget unknown : Intent

pub data AgentRequestType : Type 0 where
  informational read_action write_action escalation unclear : AgentRequestType
  knowledge_only action_only knowledge_and_action memory_action : AgentRequestType

-- `CompileStatus` of decision_compiler.py.
pub data CompileStatus : Type 0 where
  compiled_action clarification_required no_action compile_rejected : CompileStatus

-- `SemanticTarget`, in the shapes that its validator accepts.
pub data SemanticTarget : Type 0 where
  explicit_order : ℕ → SemanticTarget
  latest_order : SemanticTarget
  explicit_ticket : ℕ → SemanticTarget

-- `MemoryCandidate` by its content; the compiler only passes it on.
pub record MemoryCandidate : Type 0 where
  pub content : String

pub record SemanticDecision : Type 0 where
  pub intent : Intent
  pub request_type : AgentRequestType
  pub target : Option SemanticTarget
  pub reason : String
  pub category : Option String
  pub description : Option String
  pub priority : Option String
  pub summary : Option String
  pub clarification_required : Bool
  pub requires_retrieval : Bool
  pub knowledge_query : Option String
  pub memory_candidate : Option MemoryCandidate
  pub memory_key : Option String

-- A decision of these three fields, with the defaults of the others.
abbrev pub plain_decision : Intent → AgentRequestType → String → SemanticDecision
plain_decision intent request_type reason = record {
  intent = intent;
  request_type = request_type;
  target = none;
  reason = reason;
  category = none;
  description = none;
  priority = none;
  summary = none;
  clarification_required = false;
  requires_retrieval = false;
  knowledge_query = none;
  memory_candidate = none;
  memory_key = none;
}

pub data AgentErrorCategory : Type 0 where
  resource_not_found ownership_violation invalid_state duplicate_action : AgentErrorCategory
  invalid_tool_arguments unknown_tool llm_error tool_error : AgentErrorCategory
  dependency_error internal_error unknown_write_outcome policy_denied : AgentErrorCategory
  retrieval_error reranker_error confirmation_expired dependency_failure : AgentErrorCategory

-- The text of an `Intent`, which is a `StrEnum`.
abbrev pub intent_value : Intent → String
intent_value customer_lookup = "customer_lookup"
intent_value order_lookup = "order_lookup"
intent_value order_list = "order_list"
intent_value ticket_lookup = "ticket_lookup"
intent_value ticket_list = "ticket_list"
intent_value ticket_create = "ticket_create"
intent_value order_cancel = "order_cancel"
intent_value refund_request = "refund_request"
intent_value human_escalation = "human_escalation"
intent_value capability_question = "capability_question"
intent_value refund_policy = "refund_policy"
intent_value cancellation_policy = "cancellation_policy"
intent_value shipping_policy = "shipping_policy"
intent_value support_faq = "support_faq"
intent_value refund_eligibility = "refund_eligibility"
intent_value cancellation_explanation = "cancellation_explanation"
intent_value memory_remember = "memory_remember"
intent_value memory_forget = "memory_forget"
intent_value unknown = "unknown"

abbrev intents : List Intent
intents =
    customer_lookup ∷ order_lookup ∷ order_list ∷ ticket_lookup ∷ ticket_list ∷ ticket_create
    ∷ order_cancel ∷ refund_request ∷ human_escalation ∷ capability_question ∷ refund_policy
    ∷ cancellation_policy ∷ shipping_policy ∷ support_faq ∷ refund_eligibility
    ∷ cancellation_explanation ∷ memory_remember ∷ memory_forget ∷ unknown ∷ []

-- `Intent(text)`; `none` is the `ValueError`.
unfoldable pub parse_intent : String → Option Intent
parse_intent value = find (λ i. intent_value i =ₛ value) intents

-- Every intent is read back from its text.
pub parse_intent-value : (i : Intent) → parse_intent (intent_value i) ≡ some i
unfolding parse_intent
parse_intent-value customer_lookup = refl
parse_intent-value order_lookup = refl
parse_intent-value order_list = refl
parse_intent-value ticket_lookup = refl
parse_intent-value ticket_list = refl
parse_intent-value ticket_create = refl
parse_intent-value order_cancel = refl
parse_intent-value refund_request = refl
parse_intent-value human_escalation = refl
parse_intent-value capability_question = refl
parse_intent-value refund_policy = refl
parse_intent-value cancellation_policy = refl
parse_intent-value shipping_policy = refl
parse_intent-value support_faq = refl
parse_intent-value refund_eligibility = refl
parse_intent-value cancellation_explanation = refl
parse_intent-value memory_remember = refl
parse_intent-value memory_forget = refl
parse_intent-value unknown = refl
