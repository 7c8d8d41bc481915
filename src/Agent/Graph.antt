-- ===== src/Agent/Graph.antt =====
-- The graph of sky-agent/app/agent/graph.py: its nodes, its edges and the functions that choose
-- among them. What a node does to the state is a parameter here.
pub mod Ends
pub mod Linked
pub mod Gates
pub mod Acts
use cang_qiong_project.Common.{
  ℕ, zero, suc, Bool, true, false, Option, none, some, List, [], ◌∷◌, if◌then◌else◌,
}
use cang_qiong_project.Agent.Schemas.{
  Intent, memory_remember, memory_forget, AgentRequestType, informational, unclear, knowledge_only,
  CompileStatus, clarification_required,
}
use cang_qiong_project.Policies.{PolicyOutcome, allow, require_confirmation, require_human, deny}

-- `workflow_resumed` is the text "resumed", which `ResumeStatus` has too.
pub data ConfirmationStatus : Type 0 where
  normal confirmed no_pending resume_unavailable resume_suspended : ConfirmationStatus
  inspect_interruption rejected expired ambiguous ownership_error : ConfirmationStatus
  interrupted workflow_resumed blocked other : ConfirmationStatus

pub data ResumeStatus : Type 0 where
  resumed inspect_resume waiting_for_fields reset : ResumeStatus

-- `resume_unavailable_status` is the text "resume_unavailable", `workflow_restored` "resumed".
pub data InterruptionStatus : Type 0 where
  suspended superseded continued : InterruptionStatus
  resume_unavailable_status resume_denied workflow_restored security_blocked : InterruptionStatus

-- The fields of `AgentState` that the edges read; `error` and `security` tell whether the category
-- and the signal are there.
pub record AgentState : Type 0 where
  pub error : Bool
  pub security : Bool
  pub confirmation_status : Option ConfirmationStatus
  pub workflow_active : Bool
  pub workflow_resume_status : Option ResumeStatus
  pub workflow_interruption_pending : Bool
  pub workflow_interruption_status : Option InterruptionStatus
  pub compilation_resumed : Bool
  pub compile_status : Option CompileStatus
  pub intent : Option Intent
  pub request_type : Option AgentRequestType
  pub requires_retrieval : Bool
  pub policy_outcome : Option PolicyOutcome

-- `end` is `END`.
pub data Node : Type 0 where
  load_context security_boundary retrieve_memory check_pending_action : Node
  restore_pending_action restore_suspended_workflow resume_workflow : Node
  understand_request handle_workflow_interruption compile_decision : Node
  select_tool_or_response validate_tool memory_action retrieve_knowledge : Node
  evaluate_policy inspect_risk policy_revalidation create_pending_action : Node
  execute_tool execute_confirmed_action execute_human_escalation respond end : Node

after_context : AgentState → Node
after_context s = if s.error then respond else security_boundary

after_security_boundary : AgentState → Node
after_security_boundary s = if s.security then respond else retrieve_memory

by_confirmation : ConfirmationStatus → Bool → Node
by_confirmation resume_suspended active = restore_suspended_workflow
by_confirmation inspect_interruption active = understand_request
by_confirmation normal active = if active then resume_workflow else understand_request
by_confirmation confirmed active = restore_pending_action
by_confirmation _ active = respond

after_pending : AgentState → Node
unfolding by_confirmation
after_pending s = elim s.confirmation_status [
  | none ↦ by_confirmation normal s.workflow_active
  | some c ↦ by_confirmation c s.workflow_active
]

by_resume : Option ResumeStatus → Node
by_resume (some resumed) = compile_decision
by_resume (some inspect_resume) = understand_request
by_resume (some waiting_for_fields) = respond
by_resume _ = understand_request

after_workflow_resume : AgentState → Node
unfolding by_resume
after_workflow_resume s = by_resume s.workflow_resume_status

after_understanding : AgentState → Node
after_understanding s =
    if s.error
    then respond
    else if s.workflow_interruption_pending
    then handle_workflow_interruption
    else compile_decision

by_interruption : Option InterruptionStatus → Node
by_interruption (some suspended) = compile_decision
by_interruption (some superseded) = compile_decision
by_interruption _ = respond

after_workflow_interruption : AgentState → Node
unfolding by_interruption
after_workflow_interruption s = by_interruption s.workflow_interruption_status

after_pending_restore : AgentState → Node
after_pending_restore s = if s.compilation_resumed then compile_decision else respond

abbrev needs_clarification : Option CompileStatus → Bool
needs_clarification (some clarification_required) = true
needs_clarification _ = false

abbrev is_memory_intent : Option Intent → Bool
is_memory_intent (some memory_remember) = true
is_memory_intent (some memory_forget) = true
is_memory_intent _ = false

abbrev needs_no_tool : Option AgentRequestType → Bool
needs_no_tool (some informational) = true
needs_no_tool (some unclear) = true
needs_no_tool (some knowledge_only) = true
needs_no_tool _ = false

after_selection : AgentState → Node
after_selection s =
    if s.error
    then respond
    else if needs_clarification s.compile_status
    then respond
    else if is_memory_intent s.intent
    then memory_action
    else if needs_no_tool s.request_type
    then (if s.requires_retrieval then retrieve_knowledge else respond)
    else validate_tool

abbrev pub is_confirmed : Option ConfirmationStatus → Bool
is_confirmed (some confirmed) = true
is_confirmed _ = false

after_validation : AgentState → Node
after_validation s =
    if s.error
    then respond
    else if is_confirmed s.confirmation_status
    then policy_revalidation
    else evaluate_policy

by_outcome : Option PolicyOutcome → Node
by_outcome none = respond
by_outcome (some deny) = respond
by_outcome (some allow) = execute_tool
by_outcome (some require_confirmation) = create_pending_action
by_outcome (some require_human) = execute_human_escalation

after_policy : AgentState → Node
unfolding by_outcome
after_policy s = if s.error then respond else by_outcome s.policy_outcome

after_revalidation : AgentState → Node
after_revalidation s = if s.error then respond else execute_confirmed_action

after_execution : AgentState → Node
after_execution s =
    if s.error then respond else if s.requires_retrieval then retrieve_knowledge else respond

-- The edges of `build_graph`: the node that follows, by the state that a node leaves.
unfoldable pub next : Node → AgentState → Node
unfolding after_context after_security_boundary after_pending after_workflow_resume
    after_understanding after_workflow_interruption after_pending_restore after_selection
    after_validation after_policy after_revalidation after_execution
next load_context s = after_context s
next security_boundary s = after_security_boundary s
next retrieve_memory s = check_pending_action
next check_pending_action s = after_pending s
next restore_pending_action s = after_pending_restore s
next resume_workflow s = after_workflow_resume s
next restore_suspended_workflow s = respond
next understand_request s = after_understanding s
next handle_workflow_interruption s = after_workflow_interruption s
next compile_decision s = select_tool_or_response
next select_tool_or_response s = after_selection s
next validate_tool s = after_validation s
next evaluate_policy s = inspect_risk
next inspect_risk s = after_policy s
next policy_revalidation s = after_revalidation s
next execute_tool s = after_execution s
next create_pending_action s = respond
next memory_action s = respond
next execute_confirmed_action s = respond
next execute_human_escalation s = respond
next retrieve_knowledge s = respond
next respond s = end
next end s = end

-- A run from a node, as the nodes that it executes with the states that they leave; with no fuel
-- it is cut off. `effect` is what each node does.
unfoldable pub run :
    (Node → AgentState → AgentState) → ℕ → Node → AgentState → List (Node × AgentState)
unfolding next
run effect fuel end s = []
run effect zero n s = []
run effect (suc fuel) n s =
    let s' = effect n s in let rest = run effect fuel (next n s') s' in (n, s') ∷ rest
