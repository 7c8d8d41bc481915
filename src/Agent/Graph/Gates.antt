-- ===== src/Agent/Graph/Gates.antt =====
-- What has come before the nodes of sky-agent/app/agent/graph.py that act on business data.
use cang_qiong_project.Common.{
  ℕ, ◌≡◌, ap, ◌∙◌, subst, ◌≢◌, true, false, some, List, [], ◌∷◌, ◌++◌, arith,
}
use cang_qiong_project.Policies.{allow}
use cang_qiong_project.Agent.Graph.{
  AgentState, Node, load_context, validate_tool, evaluate_policy, inspect_risk, policy_revalidation,
  execute_tool, execute_confirmed_action, next, run, is_confirmed,
}
use cang_qiong_project.Agent.Graph.Linked.{Linked, Linked-run, Linked-at, last_of, run-head, join}

before_execute_tool :
    (n : Node) (s : AgentState)
    → next n s ≡ execute_tool
    → (n ≡ inspect_risk) × (s.error ≡ false) × (s.policy_outcome ≡ some allow)
unfolding next
before_execute_tool _ s h = ground arith

before_inspect_risk : (n : Node) (s : AgentState) → next n s ≡ inspect_risk → n ≡ evaluate_policy
unfolding next
before_inspect_risk _ s h = ground arith

before_evaluate_policy :
    (n : Node) (s : AgentState)
    → next n s ≡ evaluate_policy
    → (n ≡ validate_tool) × (s.error ≡ false) × (is_confirmed s.confirmation_status ≡ false)
unfolding next
before_evaluate_policy _ s h = ground arith

before_execute_confirmed :
    (n : Node) (s : AgentState)
    → next n s ≡ execute_confirmed_action
    → (n ≡ policy_revalidation) × (s.error ≡ false)
unfolding next
before_execute_confirmed _ s h = ground arith

before_policy_revalidation :
    (n : Node) (s : AgentState)
    → next n s ≡ policy_revalidation
    → (n ≡ validate_tool) × (s.error ≡ false) × (is_confirmed s.confirmation_status ≡ true)
unfolding next
before_policy_revalidation _ s h = ground arith

module _ (effect : Node → AgentState → AgentState) (fuel : ℕ) (s : AgentState) where
  -- The node before the last of a prefix of the run, and the prefix that it ends.
  record IsBefore (xs : List (Node × AgentState)) (b : Node) (ys : List (Node × AgentState))
      : Type 0 where
    before : List (Node × AgentState)
    node : Node
    left : AgentState
    ends : xs ≡ before ++ (node, left) ∷ []
    leads : next node left ≡ b
    runs : run effect fuel load_context s ≡ before ++ (node, left) ∷ ys

  -- Each node of a run but the first has a node before it, whose edge leads to it.
  node-IsBefore :
      (xs : List (Node × AgentState)) (b : Node) (u : AgentState) (ys : List (Node × AgentState))
      → load_context ≢ b
      → run effect fuel load_context s ≡ xs ++ (b, u) ∷ ys
      → IsBefore xs b ((b, u) ∷ ys)
  node-IsBefore [] b u ys n h = absurd (n (run-head effect fuel s b u ys h))
  node-IsBefore (x ∷ xs) b u ys n h =
      let found = last_of x xs in
      let runs = join (x ∷ xs) found.0 ((b, u) ∷ ys) (found.1, found.2) _ h found.3 in
      record {
        before = found.0;
        node = found.1;
        left = found.2;
        ends = found.3;
        leads =
            Linked-at found.0 found.1 found.2 b u ys
              (subst Linked runs (Linked-run effect fuel load_context s));
        runs = runs;
      }

  named :
      {xs ys : List (Node × AgentState)} {b : Node} (i : IsBefore xs b ys) (a : Node)
      → i.node ≡ a
      → xs ≡ i.before ++ (a, i.left) ∷ []
  named i a e = i.ends ∙ ap (λ x. i.before ++ (x, i.left) ∷ []) e

  -- Wherever the node `execute_tool` stands in a run of the graph, it stands directly behind
  -- `validate_tool`, `evaluate_policy` and `inspect_risk`: the validation left no error and not
  -- the status `confirmed`, and the inspection left no error and the policy's outcome `allow`.
  pub execute_tool_is_gated :
      (xs : List (Node × AgentState)) (w : AgentState) (ys : List (Node × AgentState))
      → run effect fuel load_context s ≡ xs ++ (execute_tool, w) ∷ ys
      → (before : List (Node × AgentState)) × (t : AgentState) × (u : AgentState) × (v : AgentState)
        × (xs ≡ before ++ (validate_tool, t) ∷ (evaluate_policy, u) ∷ (inspect_risk, v) ∷ [])
        × (t.error ≡ false)
        × (is_confirmed t.confirmation_status ≡ false)
        × (v.error ≡ false)
        × (v.policy_outcome ≡ some allow)
  execute_tool_is_gated xs w ys h =
      let third = node-IsBefore xs execute_tool w ys (λ e. ground (arith, e)) h in
      let allowed = before_execute_tool third.node third.left third.leads in
      let second =
        node-IsBefore third.before third.node third.left ((execute_tool, w) ∷ ys)
          (λ e. ground (arith, e, allowed.0)) third.runs in
      let evaluated = before_inspect_risk second.node second.left (second.leads ∙ allowed.0) in
      let first =
        node-IsBefore second.before second.node second.left
          ((third.node, third.left) ∷ (execute_tool, w) ∷ ys) (λ e. ground (arith, e, evaluated))
          second.runs in
      let valid = before_evaluate_policy first.node first.left (first.leads ∙ evaluated) in
      (
        first.before,
        first.left,
        second.left,
        third.left,
        join second.before first.before _ (validate_tool, first.left) xs
            (join third.before second.before _ (evaluate_policy, second.left) xs
              (named third inspect_risk allowed.0) (named second evaluate_policy evaluated))
            (named first validate_tool valid.0),
        valid.1,
        valid.2,
        allowed.1,
        allowed.2,
      )

  -- Wherever the node `execute_confirmed_action` stands in a run of the graph, it stands directly
  -- behind `validate_tool`, which left no error and the status `confirmed`, and
  -- `policy_revalidation`, which left no error.
  pub confirmed_action_is_gated :
      (xs : List (Node × AgentState)) (w : AgentState) (ys : List (Node × AgentState))
      → run effect fuel load_context s ≡ xs ++ (execute_confirmed_action, w) ∷ ys
      → (before : List (Node × AgentState)) × (t : AgentState) × (u : AgentState) × (xs
          ≡ before ++ (validate_tool, t) ∷ (policy_revalidation, u) ∷ [])
        × (t.error ≡ false)
        × (is_confirmed t.confirmation_status ≡ true)
        × (u.error ≡ false)
  confirmed_action_is_gated xs w ys h =
      let second = node-IsBefore xs execute_confirmed_action w ys (λ e. ground (arith, e)) h in
      let revalidated = before_execute_confirmed second.node second.left second.leads in
      let first =
        node-IsBefore second.before second.node second.left ((execute_confirmed_action, w) ∷ ys)
          (λ e. ground (arith, e, revalidated.0)) second.runs in
      let valid = before_policy_revalidation first.node first.left (first.leads ∙ revalidated.0) in
      (
        first.before,
        first.left,
        second.left,
        join second.before first.before _ (validate_tool, first.left) xs
            (named second policy_revalidation revalidated.0) (named first validate_tool valid.0),
        valid.1,
        valid.2,
        revalidated.1,
      )
