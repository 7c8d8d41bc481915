-- ===== src/Agent/Compiler/Decisions.antt =====
-- The results of sky-agent/app/agent/decision_compiler.py, and the tables that route an intent.
use cang_qiong_project.Common.{
  String, Bool, true, false, ◌||◌, Option, none, some, List, [], ◌∷◌, if◌then◌else◌,
}
use cang_qiong_project.Agent.Compiler.Texts.{TextOperations}
use cang_qiong_project.Agent.Schemas.{
  Intent, customer_lookup, order_lookup, order_list, ticket_lookup, ticket_list, ticket_create,
  order_cancel, refund_request, human_escalation, capability_question, refund_policy,
  cancellation_policy, shipping_policy, support_faq, refund_eligibility, cancellation_explanation,
  memory_remember, memory_forget, unknown, AgentRequestType, unclear, CompileStatus,
  compiled_action, clarification_required, compile_rejected, MemoryCandidate, SemanticDecision,
}
use cang_qiong_project.Core.{ExecutionContext}
use cang_qiong_project.Policies.{int, Arguments}

pub data RefundReasonSupportStatus : Type 0 where
  support_not_applicable missing supported unsupported not_evaluated : RefundReasonSupportStatus

pub data CompilerClarificationCause : Type 0 where
  missing_refund_reason unsupported_refund_reason other_cause : CompilerClarificationCause

pub record CompiledDecision : Type 0 where
  pub status : CompileStatus
  pub intent : Intent
  pub request_type : AgentRequestType
  pub selected_tool : Option String
  pub tool_arguments : Arguments
  pub requires_retrieval : Bool
  pub knowledge_query : Option String
  pub memory_candidate : Option MemoryCandidate
  pub memory_key : Option String
  pub reason : String
  pub rejection_reason : Option String
  pub refund_reason_support_status : RefundReasonSupportStatus
  pub refund_reason_validation_invoked : Bool
  pub compiler_clarification_cause : Option CompilerClarificationCause
  pub missing_required_fields : List String

-- The fields that a constructor call leaves at their defaults.
abbrev pub defaults : CompileStatus → Intent → AgentRequestType → CompiledDecision
defaults status intent request_type = record {
  status = status;
  intent = intent;
  request_type = request_type;
  selected_tool = none;
  tool_arguments = [];
  requires_retrieval = false;
  knowledge_query = none;
  memory_candidate = none;
  memory_key = none;
  reason = "";
  rejection_reason = none;
  refund_reason_support_status = support_not_applicable;
  refund_reason_validation_invoked = false;
  compiler_clarification_cause = none;
  missing_required_fields = [];
}

-- `ACTION_TOOLS`
abbrev pub action_tool : Intent → Option String
action_tool order_cancel = some "cancel_order"
action_tool refund_request = some "request_refund"
action_tool ticket_create = some "create_support_ticket"
action_tool human_escalation = some "escalate_to_human"
action_tool _ = none

-- `READ_TOOLS`
abbrev pub read_tool : Intent → Option String
read_tool customer_lookup = some "get_customer"
read_tool order_lookup = some "get_order"
read_tool order_list = some "get_customer_orders"
read_tool ticket_lookup = some "get_ticket"
read_tool ticket_list = some "get_customer_tickets"
read_tool _ = none

-- `KNOWLEDGE_QUERIES`
abbrev pub knowledge_query_of : Intent → String
knowledge_query_of refund_eligibility = "refund eligibility policy"
knowledge_query_of _ = "cancellation after shipment"

pub data Route : Type 0 where
  action_route read_route knowledge_route knowledge_and_action_route : Route
  memory_route clarification_route : Route

-- `SEMANTIC_INTENT_ROUTES`; every intent has its route.
abbrev pub route_of : Intent → Route
route_of order_cancel = action_route
route_of refund_request = action_route
route_of ticket_create = action_route
route_of human_escalation = action_route
route_of customer_lookup = read_route
route_of order_lookup = read_route
route_of order_list = read_route
route_of ticket_lookup = read_route
route_of ticket_list = read_route
route_of capability_question = knowledge_route
route_of refund_policy = knowledge_route
route_of cancellation_policy = knowledge_route
route_of shipping_policy = knowledge_route
route_of support_faq = knowledge_route
route_of refund_eligibility = knowledge_and_action_route
route_of cancellation_explanation = knowledge_and_action_route
route_of memory_remember = memory_route
route_of memory_forget = memory_route
route_of unknown = clarification_route

abbrev pub is_refund : Intent → Bool
is_refund refund_request = true
is_refund _ = false

-- `_missing_required_fields`
pub missing_required_fields_of : TextOperations → Intent → String → List String
missing_required_fields_of texts order_cancel reason =
    if texts.is_in "specific" (texts.casefold reason)
      || texts.is_in "authorized target" (texts.casefold reason)
    then "order_id" ∷ []
    else []
missing_required_fields_of texts order_lookup reason =
    if texts.is_in "specific" (texts.casefold reason)
      || texts.is_in "authorized target" (texts.casefold reason)
    then "order_id" ∷ []
    else []
missing_required_fields_of texts refund_request reason =
    if texts.is_in "specific" (texts.casefold reason)
      || texts.is_in "authorized target" (texts.casefold reason)
    then "order_id" ∷ []
    else if texts.is_in "refund reason" (texts.casefold reason)
    then "reason" ∷ []
    else []
missing_required_fields_of texts human_escalation reason =
    if texts.is_in "escalation details" (texts.casefold reason)
    then "reason" ∷ "priority" ∷ "summary" ∷ []
    else []
missing_required_fields_of texts ticket_create reason =
    if texts.is_in "category and description" (texts.casefold reason)
    then "category" ∷ "description" ∷ []
    else []
missing_required_fields_of texts ticket_lookup reason =
    if texts.is_in "specific ticket" (texts.casefold reason) then "ticket_id" ∷ [] else []
missing_required_fields_of texts _ reason = []

-- The status of a result that no reason was tested for.
abbrev untested : Intent → RefundReasonSupportStatus
untested intent = if is_refund intent then not_evaluated else support_not_applicable

-- `_rejected`
unfoldable pub reject : SemanticDecision → String → CompiledDecision
reject decision reason = record (defaults compile_rejected decision.intent unclear) {
  reason = "The request could not be compiled safely.";
  rejection_reason = some reason;
  refund_reason_support_status = untested decision.intent;
}

-- `_clarification`, with its optional arguments at their defaults.
unfoldable pub clarify : TextOperations → SemanticDecision → String → CompiledDecision
clarify texts decision reason = record (defaults clarification_required decision.intent unclear) {
  reason = reason;
  refund_reason_support_status = untested decision.intent;
  compiler_clarification_cause = some other_cause;
  missing_required_fields = missing_required_fields_of texts decision.intent reason;
}

-- `_clarification` about the reason of a refund.
unfoldable pub clarify_reason :
    TextOperations
    → SemanticDecision
    → String
    → RefundReasonSupportStatus
    → Bool
    → CompilerClarificationCause
    → CompiledDecision
unfolding clarify
clarify_reason texts decision reason support invoked cause =
    record (clarify texts decision reason) {
      refund_reason_support_status = support;
      refund_reason_validation_invoked = invoked;
      compiler_clarification_cause = some cause;
    }

-- `_action`: the context's customer comes before the semantic arguments, none of which is named
-- `customer_id`.
unfoldable pub act :
    SemanticDecision
    → ExecutionContext
    → AgentRequestType
    → Option String
    → Arguments
    → CompiledDecision
act decision context request_type tool semantic_arguments =
    record (defaults compiled_action decision.intent request_type) {
      selected_tool = tool;
      tool_arguments = ("customer_id", int context.effective_customer_id) ∷ semantic_arguments;
      reason = decision.reason;
    }
