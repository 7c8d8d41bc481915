-- ===== src/Agent/Compiler.antt =====
-- `DecisionCompiler` of sky-agent/app/agent/decision_compiler.py: from a semantic decision to a
-- tool and its arguments, a clarification or a rejection.
pub mod Texts
pub mod Decisions
pub mod Resolver
pub mod Safety
pub mod Binding
use cang_qiong_project.Common.{
  ℕ, String, Bool, true, false, ◌&&◌, ◌||◌, not, Option, none, some, [], ◌∷◌, ◌=ₛ◌, if◌then◌else◌,
  is_some,
}
use cang_qiong_project.Core.{ExecutionContext}
use cang_qiong_project.Models.{Session, Order}
use cang_qiong_project.Policies.{Value, int, text, null, Arguments}
use cang_qiong_project.Agent.Schemas.{
  Intent, customer_lookup, order_lookup, order_list, ticket_lookup, ticket_list, ticket_create,
  order_cancel, refund_request, human_escalation, memory_remember, memory_forget, read_action,
  write_action, knowledge_only, knowledge_and_action, memory_action, no_action, SemanticTarget,
  explicit_order, latest_order, explicit_ticket, SemanticDecision,
}
use cang_qiong_project.Agent.Target.{
  SemanticGrounding, TargetAdmissibility, requires_clarification, invalid,
  assess_target_admissibility,
}
use cang_qiong_project.Agent.Compiler.Texts.{
  TextOperations, contains_ticket_request, is_latest_order_request, is_contradictory_cancel,
  reason_is_user_supported,
}
use cang_qiong_project.Agent.Compiler.Resolver.{order_target, wrong_order_target}
use cang_qiong_project.Agent.Compiler.Decisions.{
  CompiledDecision, defaults, supported, missing, unsupported, missing_refund_reason,
  unsupported_refund_reason, action_tool, read_tool, knowledge_query_of, Route, action_route,
  read_route, knowledge_route, knowledge_and_action_route, memory_route, clarification_route,
  route_of, reject, clarify, clarify_reason, act,
}

-- `not value`, of a text that may be missing.
abbrev is_blank : Option String → Bool
is_blank none = true
is_blank (some t) = t =ₛ ""

abbrev or_empty : Option String → String
or_empty none = ""
or_empty (some t) = t

abbrev id_value : Option ℕ → Value
id_value none = null
id_value (some n) = int n

-- The members of `EscalationPriority`.
abbrev is_priority : String → Bool
is_priority p = p =ₛ "low" || p =ₛ "medium" || p =ₛ "high" || p =ₛ "urgent"

abbrev is_latest : Option SemanticTarget → Bool
is_latest (some latest_order) = true
is_latest _ = false

abbrev is_cancel : Intent → Bool
is_cancel order_cancel = true
is_cancel _ = false

abbrev is_knowledge : Route → Bool
is_knowledge knowledge_route = true
is_knowledge _ = false

abbrev is_refused : TargetAdmissibility → Bool
is_refused requires_clarification = true
is_refused invalid = true
is_refused _ = false

module _ (texts : TextOperations) (s : Session) (d : SemanticDecision) (context : ExecutionContext)
    (user_message : String) where
  abbrev order_of_target : Option ℕ
  order_of_target = order_target s context.effective_customer_id context.tenant_id d.target

  abbrev write_with : Arguments → CompiledDecision
  write_with arguments = act d context write_action (action_tool d.intent) arguments

  abbrev read_with : Arguments → CompiledDecision
  read_with arguments = act d context read_action (read_tool d.intent) arguments

  compile_cancel : Option ℕ → CompiledDecision
  unfolding clarify act
  compile_cancel none = clarify texts d "A specific order is required."
  compile_cancel (some id) = write_with (("order_id", int id) ∷ [])

  -- A refund; a restored action keeps the reason that it was stored with.
  compile_refund : Bool → Option ℕ → CompiledDecision
  unfolding clarify clarify_reason act reason_is_user_supported
  compile_refund restored none = clarify texts d "A specific order is required."
  compile_refund restored (some id) =
      if d.reason =ₛ ""
      then clarify_reason texts d "A refund reason is required." missing false missing_refund_reason
      else if not restored && not (reason_is_user_supported texts d.reason user_message)
      then clarify_reason texts d "The refund reason must come from the customer request."
          unsupported true unsupported_refund_reason
      else record (write_with (("order_id", int id) ∷ ("reason", text d.reason) ∷ [])) {
        refund_reason_support_status = supported;
        refund_reason_validation_invoked = true;
      }

  create_ticket_for : Option ℕ → CompiledDecision
  unfolding act
  create_ticket_for order_id = write_with (
      ("order_id", id_value order_id)
      ∷ ("category", text (or_empty d.category))
      ∷ ("description", text (or_empty d.description))
      ∷ [])

  ticket_for_order : Option ℕ → CompiledDecision
  unfolding clarify create_ticket_for
  ticket_for_order none = clarify texts d "The referenced order could not be resolved."
  ticket_for_order (some id) = create_ticket_for (some id)

  ticket_for_target : Option SemanticTarget → CompiledDecision
  unfolding reject create_ticket_for ticket_for_order
  ticket_for_target none = create_ticket_for none
  ticket_for_target (some (explicit_ticket id)) =
      reject d "Ticket creation received a ticket target."
  ticket_for_target (some _) = ticket_for_order order_of_target

  compile_ticket : CompiledDecision
  unfolding clarify ticket_for_target contains_ticket_request
  compile_ticket =
      if is_blank d.category || is_blank d.description
      then clarify texts d "Ticket category and description are required."
      else if not (user_message =ₛ "") && not (contains_ticket_request texts user_message)
      then clarify texts d "The customer must explicitly request a support ticket."
      else ticket_for_target d.target

  escalate_for : Option ℕ → Option ℕ → CompiledDecision
  unfolding act
  escalate_for ticket_id order_id = write_with (
      ("ticket_id", id_value ticket_id)
      ∷ ("order_id", id_value order_id)
      ∷ ("reason", text d.reason)
      ∷ ("priority", text (or_empty d.priority))
      ∷ ("summary", text (or_empty d.summary))
      ∷ [])

  escalate_order : Option ℕ → CompiledDecision
  unfolding clarify escalate_for
  escalate_order none = clarify texts d "The referenced order could not be resolved."
  escalate_order (some id) = escalate_for none (some id)

  escalate_target : Option SemanticTarget → CompiledDecision
  unfolding escalate_for escalate_order
  escalate_target none = escalate_for none none
  escalate_target (some (explicit_ticket id)) = escalate_for (some id) none
  escalate_target (some _) = escalate_order order_of_target

  compile_escalation : CompiledDecision
  unfolding clarify reject escalate_target
  compile_escalation =
      if d.reason =ₛ "" || is_blank d.priority || is_blank d.summary
      then clarify texts d "Escalation details are required."
      else if not (is_priority (or_empty d.priority))
      then reject d "Unsupported escalation priority."
      else escalate_target d.target

  -- `_compile_action`
  compile_action : Intent → Bool → CompiledDecision
  unfolding reject compile_cancel compile_refund compile_ticket compile_escalation
  compile_action order_cancel restored =
      if wrong_order_target d.target
      then reject d "Order action received a ticket target."
      else compile_cancel order_of_target
  compile_action refund_request restored =
      if wrong_order_target d.target
      then reject d "Order action received a ticket target."
      else compile_refund restored order_of_target
  compile_action ticket_create restored = compile_ticket
  compile_action human_escalation restored = compile_escalation
  compile_action _ restored = reject d "Executable semantic intent is unsupported."

  without_target : String → CompiledDecision
  unfolding reject act
  without_target reason = elim d.target [ none ↦ read_with [] | some _ ↦ reject d reason ]

  read_order : Option ℕ → CompiledDecision
  unfolding clarify act
  read_order none = clarify texts d "A specific order is required."
  read_order (some id) = read_with (("order_id", int id) ∷ [])

  read_ticket : Option SemanticTarget → CompiledDecision
  unfolding clarify reject act
  read_ticket none = clarify texts d "A specific ticket is required."
  read_ticket (some (explicit_ticket id)) = read_with (("ticket_id", int id) ∷ [])
  read_ticket (some _) = reject d "Ticket lookup received a non-ticket target."

  -- `_compile_read`
  compile_read : Intent → CompiledDecision
  unfolding clarify reject without_target read_order read_ticket is_latest_order_request
  compile_read customer_lookup = without_target "Customer lookup does not accept a target."
  compile_read order_list = without_target "Order list does not accept a target."
  compile_read ticket_list = without_target "Ticket list does not accept a target."
  compile_read order_lookup =
      if wrong_order_target d.target
      then reject d "Order lookup received a ticket target."
      else if is_latest d.target && not (is_latest_order_request texts user_message)
      then clarify texts d "A latest-order reference is not grounded in the current request."
      else read_order order_of_target
  compile_read ticket_lookup = read_ticket d.target
  compile_read _ = reject d "Read semantic intent is unsupported."

  -- `_compile_knowledge`
  compile_knowledge : CompiledDecision
  unfolding clarify
  compile_knowledge =
      if d.clarification_required && is_blank d.knowledge_query
      then clarify texts d "The knowledge request needs clarification."
      else record (defaults no_action d.intent knowledge_only) {
        requires_retrieval = d.requires_retrieval;
        knowledge_query = d.knowledge_query;
        reason = d.reason;
      }

  explain_order : Option ℕ → CompiledDecision
  unfolding clarify act
  explain_order none = clarify texts d "A specific order is required."
  explain_order (some id) =
      record (act d context knowledge_and_action (some "get_order") (("order_id", int id) ∷ [])) {
        requires_retrieval = true;
        knowledge_query =
            if not d.requires_retrieval || is_blank d.knowledge_query
            then some (knowledge_query_of d.intent)
            else d.knowledge_query;
      }

  -- `_compile_knowledge_and_action`
  compile_knowledge_and_action : CompiledDecision
  unfolding reject explain_order
  compile_knowledge_and_action =
      if wrong_order_target d.target
      then reject d "Knowledge-and-action request received a ticket target."
      else explain_order order_of_target

  remember_or_forget : CompiledDecision
  remember_or_forget = record (defaults no_action d.intent memory_action) {
    memory_candidate = d.memory_candidate;
    memory_key = d.memory_key;
    reason = d.reason;
  }

  -- `_compile_memory`
  compile_memory : Intent → CompiledDecision
  unfolding clarify remember_or_forget
  compile_memory memory_remember =
      if is_some d.memory_candidate
      then remember_or_forget
      else clarify texts d "A specific memory is required."
  compile_memory memory_forget =
      if is_blank d.memory_key
      then clarify texts d "A memory key is required."
      else remember_or_forget
  compile_memory _ = remember_or_forget

  -- The branches of `compile` behind the test of the target.
  compile_route : Route → Bool → CompiledDecision
  unfolding clarify compile_action compile_read compile_knowledge compile_knowledge_and_action
      compile_memory is_contradictory_cancel
  compile_route knowledge_route restored = compile_knowledge
  compile_route action_route restored =
      if is_cancel d.intent && is_contradictory_cancel texts user_message
      then clarify texts d "The cancellation request is contradictory and needs clarification."
      else compile_action d.intent restored
  compile_route read_route restored = compile_read d.intent
  compile_route knowledge_and_action_route restored = compile_knowledge_and_action
  compile_route memory_route restored = compile_memory d.intent
  compile_route clarification_route restored = clarify texts d "The request needs clarification."

  -- `compile`
  unfoldable pub compile : Option SemanticGrounding → Bool → CompiledDecision
  unfolding clarify compile_route assess_target_admissibility
  compile grounding restored =
      if is_knowledge (route_of d.intent)
      then compile_route (route_of d.intent) restored
      else if is_refused (assess_target_admissibility d.intent d.target grounding)
      then clarify texts d "The request needs a specific, authorized target."
      else compile_route (route_of d.intent) restored
