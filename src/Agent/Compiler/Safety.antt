-- ===== src/Agent/Compiler/Safety.antt =====
-- What sky-agent/app/agent/decision_compiler.py lets a model's decision become.
use cang_qiong_project.Common.{
  ℕ, String, ◌≡◌, refl, ap, ◌∙◌, subst, ◌≢◌, ◌⊎◌, inl, inr, Bool, true, false, Option, none, some,
  List, arith, ◌=ₛ◌, ◌==◌, Bool-cases, any, get,
}
use cang_qiong_project.Core.{ExecutionContext}
use cang_qiong_project.Models.{Session}
use cang_qiong_project.Policies.{int, text}
use cang_qiong_project.Agent.Schemas.{
  refund_request, explicit_order, latest_order, explicit_ticket, SemanticTarget, SemanticDecision,
  compiled_action,
}
use cang_qiong_project.Agent.Target.{SemanticGrounding, validate_semantic_grounding, is_destructive}
use cang_qiong_project.Agent.Compiler.Texts.{TextOperations, reason_is_user_supported}
use cang_qiong_project.Agent.Compiler.Resolver.{order_target}
use cang_qiong_project.Agent.Compiler.{compile}

module _ (texts : TextOperations) (s : Session) (d : SemanticDecision) (context : ExecutionContext)
    (user_message : String) where
  -- A refund that is compiled, and is not restored from an earlier turn, gives as its reason the
  -- decision's, which is not empty and is supported by the user's message.
  pub compiled_refund_is_supported :
      (grounding : Option SemanticGrounding)
      → d.intent ≡ refund_request
      → (compile texts s d context user_message grounding false).status ≡ compiled_action
      → let c = compile texts s d context user_message grounding false in
        ((d.reason =ₛ "") ≡ false)
        × (reason_is_user_supported texts d.reason user_message ≡ true)
        × (get "reason" c.tool_arguments ≡ some (text d.reason))
  unfolding compile
  compiled_refund_is_supported grounding refund compiled = ground arith

  -- A number that the message does not name leaves its grounding unfit.
  unnamed-refused :
      (ids : String → List ℕ) (restored : Bool) (id : ℕ)
      → d.target ≡ some (explicit_order id)
      → is_destructive d.intent ≡ true
      → any (λ n. n == id) (ids user_message) ≡ false
      → let grounding = validate_semantic_grounding ids (some (explicit_order id)) user_message in
        (compile texts s d context user_message (some grounding) restored).status ≢ compiled_action
  unfolding compile validate_semantic_grounding
  unnamed-refused ids restored id e h q compiled = ground arith

  destructive-by_target :
      (grounding : Option SemanticGrounding) (restored : Bool) (t : Option SemanticTarget)
      → d.target ≡ t
      → is_destructive d.intent ≡ true
      → let c = compile texts s d context user_message grounding restored in
        c.status ≡ compiled_action
        → (id : ℕ) × (d.target ≡ some (explicit_order id))
          × (get "order_id" c.tool_arguments ≡ some (int id))
  unfolding compile order_target
  destructive-by_target grounding restored (some (explicit_order id)) e h compiled =
      (id, e, ground arith)
  destructive-by_target grounding restored none e h compiled = absurd (ground arith)
  destructive-by_target grounding restored (some latest_order) e h compiled = absurd (ground arith)
  destructive-by_target grounding restored (some (explicit_ticket id)) e h compiled =
      absurd (ground arith)

  -- Whatever grounding it is given, `compile` makes a cancellation or a refund an action only for an
  -- order that the decision names by its number, and the tool gets that number. If the grounding is
  -- the one that `validate_semantic_grounding` finds for the target in the user's message, then the
  -- number stands in that message.
  pub destructive_target_is_named :
      (ids : String → List ℕ) (grounding : Option SemanticGrounding) (restored : Bool)
      → is_destructive d.intent ≡ true
      → let c = compile texts s d context user_message grounding restored in
        c.status ≡ compiled_action
        → (id : ℕ) × (d.target ≡ some (explicit_order id))
          × (get "order_id" c.tool_arguments ≡ some (int id))
          × ((any (λ n. n == id) (ids user_message) ≡ true)
              ⊎ (grounding ≢ some (validate_semantic_grounding ids d.target user_message)))
  destructive_target_is_named ids grounding restored h compiled =
      let found = destructive-by_target grounding restored d.target refl h compiled in
      (
        found.0,
        found.1,
        found.2,
        elim (Bool-cases (any (λ n. n == found.0) (ids user_message))) [
          | inl q ↦ inl q
          | inr q ↦ inr (λ g.
              let own =
                g ∙ ap (λ t. some (validate_semantic_grounding ids t user_message)) found.1 in
              unnamed-refused ids restored found.0 found.1 h q (
                subst
                  (λ o.
                    (compile texts s d context user_message o restored).status ≡ compiled_action)
                  own compiled))
        ],
      )
