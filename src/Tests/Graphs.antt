-- ===== src/Tests/Graphs.antt =====
-- The graph at concrete runs.
use cang_qiong_project.Common.{
  ◌≤◌, ◌≡◌, refl, true, false, none, some, List, [], ◌∷◌, ◌++◌, map, arith,
}
use cang_qiong_project.Policies.{allow}
use cang_qiong_project.Agent.Schemas.{read_action, order_lookup, compiled_action}
use cang_qiong_project.Agent.Graph.{
  AgentState, Node, load_context, security_boundary, retrieve_memory, check_pending_action,
  restore_pending_action, understand_request, compile_decision, select_tool_or_response,
  validate_tool, evaluate_policy, inspect_risk, policy_revalidation, execute_tool,
  execute_confirmed_action, respond, end, run, is_confirmed, confirmed, normal,
}
use cang_qiong_project.Agent.Graph.Ends.{last_node, run_ends_with_respond}
use cang_qiong_project.Agent.Graph.Gates.{execute_tool_is_gated, confirmed_action_is_gated}
use cang_qiong_project.Agent.Graph.Acts.{count_acts, run_acts_at_most_once}

-- Nodes that leave the state as it is.
abbrev keep : Node → AgentState → AgentState
keep n s = s

abbrev reading : AgentState
reading = record {
  error = false;
  security = false;
  confirmation_status = some normal;
  workflow_active = false;
  workflow_resume_status = none;
  workflow_interruption_pending = false;
  workflow_interruption_status = none;
  compilation_resumed = true;
  compile_status = some compiled_action;
  intent = some order_lookup;
  request_type = some read_action;
  requires_retrieval = false;
  policy_outcome = some allow;
}

abbrev confirming : AgentState
confirming = record reading { confirmation_status = some confirmed }

abbrev at : AgentState → Node → Node × AgentState
at s n = (n, s)

abbrev before_reading : List (Node × AgentState)
before_reading = map (at reading) (
    load_context ∷ security_boundary ∷ retrieve_memory ∷ check_pending_action ∷ understand_request
    ∷ compile_decision ∷ select_tool_or_response ∷ [])

reading_runs :
    run keep 15 load_context reading
    ≡ before_reading
      ++ (validate_tool, reading)
        ∷ (evaluate_policy, reading)
        ∷ (inspect_risk, reading)
        ∷ (execute_tool, reading)
        ∷ (respond, reading)
        ∷ []
unfolding run
reading_runs = refl

abbrev to_reading : List (Node × AgentState)
to_reading =
    before_reading
    ++ (validate_tool, reading) ∷ (evaluate_policy, reading) ∷ (inspect_risk, reading) ∷ []

execute_tool_is_gated_example :
    (before : List (Node × AgentState)) × (t : AgentState) × (u : AgentState) × (v : AgentState)
    × (to_reading ≡ before ++ (validate_tool, t) ∷ (evaluate_policy, u) ∷ (inspect_risk, v) ∷ [])
    × (t.error ≡ false)
    × (is_confirmed t.confirmation_status ≡ false)
    × (v.error ≡ false)
    × (v.policy_outcome ≡ some allow)
execute_tool_is_gated_example =
    execute_tool_is_gated keep 15 reading to_reading reading ((respond, reading) ∷ []) reading_runs

abbrev before_confirming : List (Node × AgentState)
before_confirming = map (at confirming) (
    load_context ∷ security_boundary ∷ retrieve_memory ∷ check_pending_action
    ∷ restore_pending_action ∷ compile_decision ∷ select_tool_or_response ∷ [])

confirming_runs :
    run keep 15 load_context confirming
    ≡ before_confirming
      ++ (validate_tool, confirming)
        ∷ (policy_revalidation, confirming)
        ∷ (execute_confirmed_action, confirming)
        ∷ (respond, confirming)
        ∷ []
unfolding run
confirming_runs = refl

abbrev to_confirming : List (Node × AgentState)
to_confirming =
    before_confirming ++ (validate_tool, confirming) ∷ (policy_revalidation, confirming) ∷ []

confirmed_action_is_gated_example :
    (before : List (Node × AgentState)) × (t : AgentState) × (u : AgentState) × (to_confirming
      ≡ before ++ (validate_tool, t) ∷ (policy_revalidation, u) ∷ [])
    × (t.error ≡ false)
    × (is_confirmed t.confirmation_status ≡ true)
    × (u.error ≡ false)
confirmed_action_is_gated_example =
    confirmed_action_is_gated keep 15 confirming to_confirming confirming
      ((respond, confirming) ∷ []) confirming_runs

run_ends_with_respond_example :
    (last_node end (run keep 20 load_context reading) ≡ respond)
    × (run keep 20 load_context reading ≡ run keep 15 load_context reading)
run_ends_with_respond_example = run_ends_with_respond keep 20 reading (omega arith)

run_acts_at_most_once_example : count_acts (run keep 15 load_context reading) ≤ 1
run_acts_at_most_once_example = run_acts_at_most_once keep 15 reading
