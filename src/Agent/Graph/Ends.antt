-- ===== src/Agent/Graph/Ends.antt =====
-- Every run of the graph of sky-agent/app/agent/graph.py ends, with a reply.
use cang_qiong_project.Common.{
  ℕ, zero, suc, ◌≤◌, ◌<◌, ◌≡◌, refl, inl, inr, Bool, true, false, List, [], ◌∷◌, arith,
  if◌then◌else◌, Bool-cases,
}
use cang_qiong_project.Agent.Graph.{
  AgentState, Node, load_context, security_boundary, retrieve_memory, check_pending_action,
  restore_pending_action, restore_suspended_workflow, resume_workflow, understand_request,
  handle_workflow_interruption, compile_decision, select_tool_or_response, validate_tool,
  memory_action, retrieve_knowledge, evaluate_policy, inspect_risk, policy_revalidation,
  create_pending_action, execute_tool, execute_confirmed_action, execute_human_escalation, respond,
  end, next, run,
}

-- A bound of the nodes that are left.
pub left : Node → ℕ
left load_context = 15
left security_boundary = 14
left retrieve_memory = 13
left check_pending_action = 12
left resume_workflow = 11
left restore_suspended_workflow = 10
left restore_pending_action = 10
left understand_request = 10
left handle_workflow_interruption = 9
left compile_decision = 8
left select_tool_or_response = 7
left validate_tool = 6
left evaluate_policy = 5
left policy_revalidation = 5
left inspect_risk = 4
left execute_tool = 3
left execute_confirmed_action = 3
left execute_human_escalation = 3
left create_pending_action = 3
left memory_action = 3
left retrieve_knowledge = 2
left respond = 1
left end = 0

abbrev pub is_end : Node → Bool
is_end end = true
is_end _ = false

pub run-step :
    (effect : Node → AgentState → AgentState) (fuel : ℕ) (n : Node) (s : AgentState)
    → is_end n ≡ false
    → run effect (suc fuel) n s
      ≡ (n, effect n s) ∷ run effect fuel (next n (effect n s)) (effect n s)
unfolding run
run-step effect fuel end s h = ground arith
run-step effect fuel _ s h = refl

-- The last node of a run, or the node given for an empty one.
abbrev pub last_node : Node → List (Node × AgentState) → Node
last_node d [] = d
last_node d ((n, s) ∷ r) = last_node n r

left-positive : (n : Node) → is_end n ≡ false → 0 < left n
unfolding left
left-positive end h = ground arith
left-positive _ h = omega arith

end_follows_respond :
    (n : Node) (s : AgentState)
    → is_end n ≡ false
    → (if is_end (next n s) then n else respond) ≡ respond
unfolding next
end_follows_respond _ s h = ground arith

-- Every edge goes down.
left-next : (n : Node) (s : AgentState) → is_end n ≡ false → left (next n s) < left n
unfolding next left
left-next _ s h = ground arith

pub run_end :
    (effect : Node → AgentState → AgentState) (fuel : ℕ) (n : Node) (s : AgentState)
    → is_end n ≡ true
    → run effect fuel n s ≡ []
unfolding run
run_end effect fuel end s h = refl
run_end effect fuel _ s h = ground arith

last_node-run :
    (effect : Node → AgentState → AgentState) (fuel : ℕ) (n : Node) (s : AgentState) (d : Node)
    → left n ≤ fuel
    → last_node d (run effect fuel n s) ≡ (if is_end n then d else respond)
last_node-run effect zero n s d h = elim (Bool-cases (is_end n)) [
  | inl e ↦ rw (run_end effect 0 n s e, e)
  | inr e ↦ absurd omega (arith, left-positive n e)
]
last_node-run effect (suc fuel) n s d h = elim (Bool-cases (is_end n)) [
  | inl e ↦ rw (run_end effect (suc fuel) n s e, e)
  | inr e ↦
      let s' = effect n s in
      rw (
        run-step effect fuel n s e,
        e,
        last_node-run effect fuel (next n s') s' n (omega (arith, left-next n s' e)),
        end_follows_respond n s' e,
      )
]

run_enough :
    (effect : Node → AgentState → AgentState) (f g : ℕ) (n : Node) (s : AgentState)
    → left n ≤ f
    → left n ≤ g
    → run effect f n s ≡ run effect g n s
run_enough effect zero g n s h k = elim (Bool-cases (is_end n)) [
  | inl e ↦ rw (run_end effect 0 n s e, run_end effect g n s e)
  | inr e ↦ absurd omega (arith, left-positive n e)
]
run_enough effect (suc f) zero n s h k = elim (Bool-cases (is_end n)) [
  | inl e ↦ rw (run_end effect (suc f) n s e, run_end effect 0 n s e)
  | inr e ↦ absurd omega (arith, left-positive n e)
]
run_enough effect (suc f) (suc g) n s h k = elim (Bool-cases (is_end n)) [
  | inl e ↦ rw (run_end effect (suc f) n s e, run_end effect (suc g) n s e)
  | inr e ↦
      let s' = effect n s in
      rw (
        run-step effect f n s e,
        run-step effect g n s e,
        run_enough effect f g (next n s') s' (omega (arith, left-next n s' e))
            (omega (arith, left-next n s' e)),
      )
]

-- Whatever the nodes do to the state, a run from `load_context` with fuel for fifteen nodes or more
-- ends with `respond`, and it is the run with fuel for fifteen.
pub run_ends_with_respond :
    (effect : Node → AgentState → AgentState) (fuel : ℕ) (s : AgentState)
    → 15 ≤ fuel
    → (last_node end (run effect fuel load_context s) ≡ respond)
      × (run effect fuel load_context s ≡ run effect 15 load_context s)
unfolding left
run_ends_with_respond effect fuel s h = (
  last_node-run effect fuel load_context s end h,
  run_enough effect fuel 15 load_context s h (omega arith),
)
