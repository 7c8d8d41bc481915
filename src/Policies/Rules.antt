-- ===== src/Policies/Rules.antt =====
-- `evaluate_default_policy` of sky-agent/app/policies/rules.py.
pub mod Gate
use cang_qiong_project.Common.{
  ℕ, String, Bool, true, false, not, Option, none, some, List, [], ◌∷◌, leb, ◌==◌, if◌then◌else◌,
  get,
}
use cang_qiong_project.Core.{ExecutionContext}
use cang_qiong_project.Tools.{ToolMetadata, risk_number, get_tool}
use cang_qiong_project.Policies.{
  PolicyOutcome, allow, require_confirmation, require_human, deny, Value, int, text, texts, null,
  Arguments, PolicyDecision,
}

-- The argument names another customer than the context.
unfoldable pub is_foreign : Option Value → ℕ → Bool
is_foreign none customer_id = false
is_foreign (some null) customer_id = false
is_foreign (some (int n)) customer_id = not (n == customer_id)
is_foreign (some (text s)) customer_id = true
is_foreign (some (texts ts)) customer_id = true

decide : PolicyOutcome → String → Option ℕ → String → List String → PolicyDecision
decide outcome tool_name risk_level reason conditions = record {
  outcome = outcome;
  tool_name = tool_name;
  risk_level = risk_level;
  reasons = reason ∷ [];
  required_conditions = conditions;
}

-- The decision on a registered tool.
evaluate_registered : String → ExecutionContext → Arguments → ℕ → PolicyDecision
unfolding is_foreign decide
evaluate_registered tool_name context arguments risk_level =
    if context.effective_customer_id == 0
    then decide deny tool_name (some risk_level) "known_customer_required"
        ("authenticated_customer" ∷ [])
    else if is_foreign (get "customer_id" arguments) context.effective_customer_id
    then decide deny tool_name (some risk_level) "ownership_required" ("customer_ownership" ∷ [])
    else if leb risk_level 1
    then decide allow tool_name (some risk_level) "risk_policy_allows_automatic_execution" []
    else if risk_level == 2
    then decide require_confirmation tool_name (some risk_level) "customer_impacting_write"
        ("explicit_confirmation" ∷ "pre_execution_revalidation" ∷ [])
    else decide require_human tool_name (some risk_level) "human_controlled_action"
        ("dedicated_human_path" ∷ [])

unfoldable pub evaluate_default_policy : String → ExecutionContext → Arguments → PolicyDecision
unfolding evaluate_registered decide
evaluate_default_policy tool_name context arguments = elim (get_tool tool_name) [
  | none ↦ decide deny tool_name none "unknown_tool" []
  | some metadata ↦
      evaluate_registered tool_name context arguments (risk_number metadata.risk_level)
]
