-- ===== src/Agent/Graph/Acts.antt =====
-- How often a run of sky-agent/app/agent/graph.py visits the nodes that act on business data.
use cang_qiong_project.Common.{
  ℕ, zero, suc, ◌+◌, ◌≤◌, ◌≡◌, inl, inr, false, List, [], ◌∷◌, arith, Bool-cases,
}
use cang_qiong_project.Agent.Graph.{
  AgentState, Node, load_context, restore_suspended_workflow, memory_action, retrieve_knowledge,
  create_pending_action, execute_tool, execute_confirmed_action, execute_human_escalation, respond,
  end, next, run,
}
use cang_qiong_project.Agent.Graph.Ends.{is_end, run-step, run_end}
use cang_qiong_project.Agent.Graph.Linked.{run_zero}

-- The nodes that call a tool, or that store a pending action.
abbrev pub acts : Node → ℕ
acts execute_tool = 1
acts execute_confirmed_action = 1
acts execute_human_escalation = 1
acts create_pending_action = 1
acts _ = 0

abbrev pub count_acts : List (Node × AgentState) → ℕ
count_acts [] = 0
count_acts ((n, s) ∷ r) = acts n + count_acts r

-- A bound of the acts that are left.
acts_left : Node → ℕ
acts_left retrieve_knowledge = 0
acts_left memory_action = 0
acts_left restore_suspended_workflow = 0
acts_left respond = 0
acts_left end = 0
acts_left _ = 1

acts_left-next :
    (n : Node) (s : AgentState) → is_end n ≡ false → acts n + acts_left (next n s) ≤ acts_left n
unfolding next acts_left
acts_left-next _ s h = ground arith

count_acts-run :
    (effect : Node → AgentState → AgentState) (fuel : ℕ) (n : Node) (s : AgentState)
    → count_acts (run effect fuel n s) ≤ acts_left n
count_acts-run effect zero n s = rw (run_zero effect n s) (omega arith)
count_acts-run effect (suc fuel) n s = elim (Bool-cases (is_end n)) [
  | inl e ↦ rw (run_end effect (suc fuel) n s e) (omega arith)
  | inr e ↦
      let s' = effect n s in
      rw (run-step effect fuel n s e)
        (omega (arith, acts_left-next n s' e, count_acts-run effect fuel (next n s') s'))
]

-- In every run of the graph, whatever its nodes do to the state, the nodes `execute_tool`,
-- `execute_confirmed_action`, `execute_human_escalation` and `create_pending_action` are visited at
-- most once, all four taken together.
pub run_acts_at_most_once :
    (effect : Node → AgentState → AgentState) (fuel : ℕ) (s : AgentState)
    → count_acts (run effect fuel load_context s) ≤ 1
unfolding acts_left
run_acts_at_most_once effect fuel s = count_acts-run effect fuel load_context s
