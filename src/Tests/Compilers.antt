-- ===== src/Tests/Compilers.antt =====
-- The compiler at concrete decisions.
use cang_qiong_project.Common.{
  ℕ, String, ◌≡◌, refl, ◌≢◌, ◌⊎◌, true, false, none, some, List, [], ◌∷◌, ◌=ₛ◌, ◌==◌, if◌then◌else◌,
  any, get,
}
use cang_qiong_project.Policies.{int, text}
use cang_qiong_project.Agent.Schemas.{
  order_cancel, refund_request, explicit_order, SemanticDecision, compiled_action, write_action,
}
use cang_qiong_project.Agent.Target.{SemanticGrounding, validate_semantic_grounding}
use cang_qiong_project.Agent.Compiler.Texts.{TextOperations, reason_is_user_supported}
use cang_qiong_project.Agent.Compiler.Decisions.{CompiledDecision}
use cang_qiong_project.Agent.Compiler.Resolver.{order_target}
use cang_qiong_project.Agent.Compiler.{compile}
use cang_qiong_project.Agent.Compiler.Safety.{
  compiled_refund_is_supported, destructive_target_is_named,
}
use cang_qiong_project.Agent.Compiler.Binding.{tool_is_of_intent, tool_of, is_compiled}
use cang_qiong_project.Tests.Admissions.{accepted_context}
use cang_qiong_project.Tests.Business.{shop}

-- Texts of one word.
abbrev plain : TextOperations
plain = record { casefold = λ t. t; collapse = λ t. t; words = λ t. t ∷ []; is_in = λ a b. a =ₛ b }

abbrev message : String
message = "broken"

abbrev refund_decision : SemanticDecision
refund_decision = record {
  intent = refund_request;
  request_type = write_action;
  target = some (explicit_order 1);
  reason = "broken";
  category = none;
  description = none;
  priority = none;
  summary = none;
  clarification_required = false;
  requires_retrieval = false;
  knowledge_query = none;
  memory_candidate = none;
  memory_key = none;
}

abbrev compiled_refund : CompiledDecision
compiled_refund = compile plain shop refund_decision accepted_context message none false

refund_compiles : compiled_refund.status ≡ compiled_action
unfolding compile order_target reason_is_user_supported
refund_compiles = refl

compiled_refund_is_supported_example :
    ((refund_decision.reason =ₛ "") ≡ false)
    × (reason_is_user_supported plain refund_decision.reason message ≡ true)
    × (get "reason" compiled_refund.tool_arguments ≡ some (text refund_decision.reason))
compiled_refund_is_supported_example =
    compiled_refund_is_supported plain shop refund_decision accepted_context message none refl
      refund_compiles

abbrev cancel_decision : SemanticDecision
cancel_decision = record refund_decision { intent = order_cancel }

-- The message names the order 1.
abbrev ids : String → List ℕ
ids t = 1 ∷ []

abbrev cancel_grounding : SemanticGrounding
cancel_grounding = validate_semantic_grounding ids cancel_decision.target message

abbrev compiled_cancel : CompiledDecision
compiled_cancel =
    compile plain shop cancel_decision accepted_context message (some cancel_grounding) false

cancel_compiles : compiled_cancel.status ≡ compiled_action
unfolding compile order_target validate_semantic_grounding
cancel_compiles = refl

destructive_target_is_named_example :
    (id : ℕ) × (cancel_decision.target ≡ some (explicit_order id))
    × (get "order_id" compiled_cancel.tool_arguments ≡ some (int id))
    × ((any (λ n. n == id) (ids message) ≡ true)
        ⊎ (some cancel_grounding
            ≢ some (validate_semantic_grounding ids cancel_decision.target message)))
destructive_target_is_named_example =
    destructive_target_is_named plain shop cancel_decision accepted_context message ids
      (some cancel_grounding) false refl cancel_compiles

tool_is_of_intent_example :
    (compiled_refund.selected_tool
      ≡ (if is_compiled compiled_refund.status then tool_of refund_request else none))
    × (get "customer_id" compiled_refund.tool_arguments ≡ (
        if is_compiled compiled_refund.status
        then some (int accepted_context.effective_customer_id)
        else none))
tool_is_of_intent_example =
    tool_is_of_intent plain shop refund_decision accepted_context message none false
