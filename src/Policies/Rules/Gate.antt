-- ===== src/Policies/Rules/Gate.antt =====
-- What sky-agent/app/policies/rules.py lets through.
use cang_qiong_project.Common.{
  ◌≤◌, ◌<◌, String, ◌≡◌, ◌↔◌, ◌⊎◌, inl, inr, true, false, none, some, arith, eq_iff, Option-cases,
  get,
}
use cang_qiong_project.Core.{ExecutionContext}
use cang_qiong_project.Tools.{ToolMetadata, read, risk_number, get_tool}
use cang_qiong_project.Policies.{PolicyOutcome, allow, deny, Arguments}
use cang_qiong_project.Policies.Rules.{is_foreign, evaluate_default_policy}

-- The registered tools of a risk up to 1.
low_risk_is_harmless :
    (name : String) (m : ToolMetadata)
    → get_tool name ≡ some m
    → risk_number m.risk_level ≤ 1
    → (m.operation_type ≡ read) ⊎ (name ≡ "create_support_ticket")
unfolding get_tool risk_number
low_risk_is_harmless name m h low = ground (arith, eq_iff "create_support_ticket" name)

module _ (tool_name : String) (context : ExecutionContext) (arguments : Arguments) where
  abbrev outcome : PolicyOutcome
  outcome = (evaluate_default_policy tool_name context arguments).outcome

  -- Where the outcome of the policy is `allow`, the tool is registered, and it only reads or it is
  -- the creation of a support ticket; the customer is known and the arguments name no other.
  pub allowed_is_harmless :
      outcome ≡ allow
      → ((m : ToolMetadata) × (get_tool tool_name ≡ some m)
          × ((m.operation_type ≡ read) ⊎ (tool_name ≡ "create_support_ticket")))
        × (0 < context.effective_customer_id)
        × (is_foreign (get "customer_id" arguments) context.effective_customer_id ≡ false)
  unfolding evaluate_default_policy
  allowed_is_harmless h = elim (Option-cases (get_tool tool_name)) [
    | inl e ↦ absurd (ground (arith, e))
    | inr (m, e) ↦ (
      (m, e, low_risk_is_harmless tool_name m e (ground (arith, e))),
      ground (arith, e),
      ground (arith, e),
    )
  ]

  -- The policy denies exactly the unknown tools, the contexts of no customer, and the arguments
  -- that name a customer other than the context's.
  denied_iff : (outcome ≡ deny) ↔ (
      (get_tool tool_name ≡ none)
      ⊎ (context.effective_customer_id ≡ 0)
      ⊎ (is_foreign (get "customer_id" arguments) context.effective_customer_id ≡ true))
  unfolding evaluate_default_policy
  denied_iff = ground arith
