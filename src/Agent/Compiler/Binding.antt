-- ===== src/Agent/Compiler/Binding.antt =====
-- Which tool sky-agent/app/agent/decision_compiler.py gives a decision, and for which customer.
use cang_qiong_project.Common.{
  ℕ, String, ◌≡◌, refl, Bool, true, false, ◌&&◌, not, Option, none, some, [], ◌∷◌, arith, ◌=ₛ◌,
  if◌then◌else◌, get,
}
use cang_qiong_project.Core.{ExecutionContext}
use cang_qiong_project.Models.{Session}
use cang_qiong_project.Policies.{text, int, Arguments}
use cang_qiong_project.Agent.Schemas.{
  write_action, Intent, AgentRequestType, order_cancel, refund_request, explicit_order,
  latest_order, explicit_ticket, SemanticTarget, SemanticDecision, compiled_action, CompileStatus,
  ticket_create, human_escalation, customer_lookup, order_lookup, order_list, ticket_lookup,
  ticket_list, refund_eligibility, cancellation_explanation,
}
use cang_qiong_project.Agent.Target.{SemanticGrounding}
use cang_qiong_project.Agent.Compiler.Texts.{TextOperations, reason_is_user_supported}
use cang_qiong_project.Agent.Compiler.{
  compile, compile_cancel, compile_refund, ticket_for_order, ticket_for_target, compile_ticket,
  escalate_order, escalate_target, compile_escalation, compile_action, without_target, read_order,
  read_ticket, compile_read, compile_knowledge, explain_order, compile_knowledge_and_action,
  remember_or_forget, compile_memory, compile_route,
}
use cang_qiong_project.Agent.Compiler.Decisions.{
  action_route, read_route, knowledge_route, knowledge_and_action_route, memory_route,
  clarification_route, missing, unsupported, missing_refund_reason, unsupported_refund_reason,
  CompiledDecision, RefundReasonSupportStatus, CompilerClarificationCause, supported, clarify,
  clarify_reason, reject, act, action_tool, read_tool, Route, route_of,
}

-- The one tool that an intent may lead to.
abbrev pub tool_of : Intent → Option String
tool_of order_cancel = some "cancel_order"
tool_of refund_request = some "request_refund"
tool_of ticket_create = some "create_support_ticket"
tool_of human_escalation = some "escalate_to_human"
tool_of customer_lookup = some "get_customer"
tool_of order_lookup = some "get_order"
tool_of order_list = some "get_customer_orders"
tool_of ticket_lookup = some "get_ticket"
tool_of ticket_list = some "get_customer_tickets"
tool_of refund_eligibility = some "get_order"
tool_of cancellation_explanation = some "get_order"
tool_of _ = none

abbrev pub is_compiled : CompileStatus → Bool
is_compiled compiled_action = true
is_compiled _ = false

module _ (texts : TextOperations) (s : Session) (d : SemanticDecision) (context : ExecutionContext)
    (user_message : String) where
  -- The tool and the customer that a result may have.
  IsBound : CompiledDecision → Type 0
  IsBound c =
      (c.selected_tool ≡ (if is_compiled c.status then tool_of d.intent else none))
      × (get "customer_id" c.tool_arguments
          ≡ (if is_compiled c.status then some (int context.effective_customer_id) else none))

  IsBound-if :
      (b : Bool) (x y : CompiledDecision) → IsBound x → IsBound y → IsBound (if b then x else y)
  IsBound-if true x y p q = p
  IsBound-if false x y p q = q

  clarify-IsBound : (reason : String) → IsBound (clarify texts d reason)
  unfolding clarify IsBound
  clarify-IsBound reason = (refl, refl)

  clarify_reason-IsBound :
      (reason : String) (status : RefundReasonSupportStatus) (invoked : Bool)
      (cause : CompilerClarificationCause)
      → IsBound (clarify_reason texts d reason status invoked cause)
  unfolding clarify_reason IsBound
  clarify_reason-IsBound reason status invoked cause = (refl, refl)

  reject-IsBound : (reason : String) → IsBound (reject d reason)
  unfolding reject IsBound
  reject-IsBound reason = (refl, refl)

  act-IsBound :
      (request_type : AgentRequestType) (tool : Option String) (a : Arguments)
      → tool ≡ tool_of d.intent
      → IsBound (act d context request_type tool a)
  unfolding act IsBound
  act-IsBound request_type tool a e = (e, refl)

  module _ (e : action_tool d.intent ≡ tool_of d.intent) where
    cancel-IsBound : (o : Option ℕ) → IsBound (compile_cancel texts s d context user_message o)
    unfolding compile_cancel
    cancel-IsBound none = clarify-IsBound _
    cancel-IsBound (some id) = act-IsBound _ _ _ e

    supported-IsBound :
        (c : CompiledDecision)
        → IsBound c
        → IsBound (record c {
          refund_reason_support_status = supported;
          refund_reason_validation_invoked = true;
        })
    unfolding IsBound
    supported-IsBound c h = h

    refund-IsBound :
        (restored : Bool) (o : Option ℕ)
        → IsBound (compile_refund texts s d context user_message restored o)
    unfolding compile_refund
    refund-IsBound restored none = clarify-IsBound _
    refund-IsBound restored (some id) =
        IsBound-if (d.reason =ₛ "") _ _
          (clarify_reason-IsBound "A refund reason is required." missing false
            missing_refund_reason)
          (IsBound-if (not restored && not (reason_is_user_supported texts d.reason user_message)) _
            _
            (clarify_reason-IsBound "The refund reason must come from the customer request."
              unsupported true unsupported_refund_reason)
            (supported-IsBound
              (act d context write_action (action_tool d.intent)
                (("order_id", int id) ∷ ("reason", text d.reason) ∷ []))
              (act-IsBound _ _ _ e)))

    ticket_for_order-IsBound :
        (o : Option ℕ) → IsBound (ticket_for_order texts s d context user_message o)
    unfolding ticket_for_order
    ticket_for_order-IsBound none = clarify-IsBound _
    ticket_for_order-IsBound (some id) = act-IsBound _ _ _ e

    ticket_for_target-IsBound :
        (t : Option SemanticTarget) → IsBound (ticket_for_target texts s d context user_message t)
    unfolding ticket_for_target
    ticket_for_target-IsBound none = act-IsBound _ _ _ e
    ticket_for_target-IsBound (some (explicit_ticket id)) = reject-IsBound _
    ticket_for_target-IsBound (some (explicit_order id)) = ticket_for_order-IsBound _
    ticket_for_target-IsBound (some latest_order) = ticket_for_order-IsBound _

    ticket-IsBound : IsBound (compile_ticket texts s d context user_message)
    unfolding compile_ticket
    ticket-IsBound = grind (arith, clarify-IsBound, ticket_for_target-IsBound)

    escalate_order-IsBound :
        (o : Option ℕ) → IsBound (escalate_order texts s d context user_message o)
    unfolding escalate_order
    escalate_order-IsBound none = clarify-IsBound _
    escalate_order-IsBound (some id) = act-IsBound _ _ _ e

    escalate_target-IsBound :
        (t : Option SemanticTarget) → IsBound (escalate_target texts s d context user_message t)
    unfolding escalate_target
    escalate_target-IsBound none = act-IsBound _ _ _ e
    escalate_target-IsBound (some (explicit_ticket id)) = act-IsBound _ _ _ e
    escalate_target-IsBound (some (explicit_order id)) = escalate_order-IsBound _
    escalate_target-IsBound (some latest_order) = escalate_order-IsBound _

    escalation-IsBound : IsBound (compile_escalation texts s d context user_message)
    unfolding compile_escalation
    escalation-IsBound = grind (arith, clarify-IsBound, reject-IsBound, escalate_target-IsBound)

  action-IsBound :
      (i : Intent) (restored : Bool)
      → d.intent ≡ i
      → IsBound (compile_action texts s d context user_message i restored)
  unfolding compile_action
  action-IsBound order_cancel restored e =
      let h = cancel-IsBound (rw e refl) in grind (arith, reject-IsBound, h)
  action-IsBound refund_request restored e =
      let h = refund-IsBound (rw e refl) in grind (arith, reject-IsBound, h)
  action-IsBound ticket_create restored e = ticket-IsBound (rw e refl)
  action-IsBound human_escalation restored e = escalation-IsBound (rw e refl)
  action-IsBound _ restored e = reject-IsBound _

  module _ (e : read_tool d.intent ≡ tool_of d.intent) where
    without_target-IsBound :
        (reason : String) → IsBound (without_target texts s d context user_message reason)
    unfolding without_target
    without_target-IsBound reason = grind (arith, reject-IsBound, act-IsBound, e)

    read_order-IsBound : (o : Option ℕ) → IsBound (read_order texts s d context user_message o)
    unfolding read_order
    read_order-IsBound none = clarify-IsBound _
    read_order-IsBound (some id) = act-IsBound _ _ _ e

    read_ticket-IsBound :
        (t : Option SemanticTarget) → IsBound (read_ticket texts s d context user_message t)
    unfolding read_ticket
    read_ticket-IsBound none = clarify-IsBound _
    read_ticket-IsBound (some (explicit_ticket id)) = act-IsBound _ _ _ e
    read_ticket-IsBound (some (explicit_order id)) = reject-IsBound _
    read_ticket-IsBound (some latest_order) = reject-IsBound _

  read-IsBound :
      (i : Intent) → d.intent ≡ i → IsBound (compile_read texts s d context user_message i)
  unfolding compile_read
  read-IsBound customer_lookup e = without_target-IsBound (rw e refl) _
  read-IsBound order_list e = without_target-IsBound (rw e refl) _
  read-IsBound ticket_list e = without_target-IsBound (rw e refl) _
  read-IsBound order_lookup e =
      let h = read_order-IsBound (rw e refl) in grind (arith, clarify-IsBound, reject-IsBound, h)
  read-IsBound ticket_lookup e = read_ticket-IsBound (rw e refl) d.target
  read-IsBound _ e = reject-IsBound _

  explain-IsBound :
      some "get_order" ≡ tool_of d.intent
      → (o : Option ℕ) → IsBound (explain_order texts s d context user_message o)
  unfolding explain_order IsBound act
  explain-IsBound e none = unfold clarify in (refl, refl)
  explain-IsBound e (some id) = (e, refl)

  knowledge-IsBound : IsBound (compile_knowledge texts s d context user_message)
  unfolding compile_knowledge IsBound
  knowledge-IsBound = grind (arith, clarify-IsBound)

  memory-IsBound : (i : Intent) → IsBound (compile_memory texts s d context user_message i)
  unfolding compile_memory remember_or_forget IsBound clarify
  memory-IsBound i = ground arith

  explained_tool :
      (i : Intent) → route_of i ≡ knowledge_and_action_route → some "get_order" ≡ tool_of i
  explained_tool _ h = ground arith

  route-IsBound :
      (r : Route) (restored : Bool)
      → route_of d.intent ≡ r
      → IsBound (compile_route texts s d context user_message r restored)
  unfolding compile_route
  route-IsBound action_route restored e =
      let h = action-IsBound d.intent restored refl in grind (arith, clarify-IsBound, h)
  route-IsBound read_route restored e = read-IsBound d.intent refl
  route-IsBound knowledge_route restored e = knowledge-IsBound
  route-IsBound knowledge_and_action_route restored e =
      let h = explain-IsBound (explained_tool d.intent e) in
      unfold compile_knowledge_and_action in grind (arith, reject-IsBound, h)
  route-IsBound memory_route restored e = memory-IsBound d.intent
  route-IsBound clarification_route restored e = clarify-IsBound "The request needs clarification."

  compile-IsBound :
      (grounding : Option SemanticGrounding) (restored : Bool)
      → IsBound (compile texts s d context user_message grounding restored)
  unfolding compile
  compile-IsBound grounding restored =
      let h = route-IsBound (route_of d.intent) restored refl in grind (arith, clarify-IsBound, h)

  -- The tool of a compiled decision is the one of its intent, and its arguments name the customer
  -- of the context, whatever the decision says. Every other result has no tool and names none.
  pub tool_is_of_intent :
      (grounding : Option SemanticGrounding) (restored : Bool)
      → let c = compile texts s d context user_message grounding restored in
        (c.selected_tool ≡ (if is_compiled c.status then tool_of d.intent else none))
        × (get "customer_id" c.tool_arguments
            ≡ (if is_compiled c.status then some (int context.effective_customer_id) else none))
  unfolding IsBound
  tool_is_of_intent grounding restored = compile-IsBound grounding restored
