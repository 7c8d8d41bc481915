-- ===== src/Agent/Messages.antt =====
-- The readings of a message in sky-agent/app/agent/nodes/workflow_lifecycle.py. Python's text
-- operations and the searches of its regular expressions are parameters.
use cang_qiong_project.Common.{
  ℕ, String, Bool, true, false, ◌&&◌, ◌||◌, not, Option, none, some, List, [], ◌∷◌, ◌=ₛ◌,
  if◌then◌else◌, is_some, any,
}
use cang_qiong_project.Agent.Schemas.{Intent, order_cancel, refund_request, parse_intent}

-- A field for each regular expression, with the text that it is searched in.
pub record Patterns : Type 0 where
  -- `_normalize`, `" ".join(_.casefold().split())` and `_.strip().endswith("?")`
  pub normalize : String → String
  pub folded : String → String
  pub ends_with_question_mark : String → Bool
  -- `_.strip()`, and the number that a follow-up with an order's number names
  pub strip : String → String
  pub order_number : String → Option ℕ
  -- what follows the first marker of a mixed request, stripped and without its leading adverb
  pub mixed_request_suffix : String → Option String
  pub question_prefix : String → Bool
  pub confirmation_like_prefix : String → Bool
  pub explicit_replacement : String → Bool
  pub override_marker : String → Bool
  pub pending_override_marker : String → Bool
  pub pending_override_object : String → Bool
  pub role_override_marker : String → Bool
  pub impersonation_override_marker : String → Bool
  pub impersonation_object : String → Bool
  pub bounded_override_marker : String → Bool
  pub turkish_override_marker : String → Bool
  pub authority_claim_marker : String → Bool
  pub refund_marker : String → Bool
  pub cancel_marker : String → Bool
  pub turkish_refund_marker : String → Bool
  pub turkish_cancel_marker : String → Bool
  pub refund_replacement : String → Bool
  pub cancel_replacement : String → Bool
  pub approval_without_confirmation : String → Bool
  -- `_NEGATED_REFUND` and the text without its matches
  pub negated_refund : String → Bool
  pub without_negated_refund : String → String
  pub knowledge_marker : String → Bool
  pub conflicting_action_marker : String → Bool
  pub cross_customer_marker : String → Bool
  pub cross_customer_resource : String → Bool
  pub indirect_scope_subject : String → Bool
  pub indirect_scope_authority : String → Bool

abbrev pub resume_phrases : List String
resume_phrases =
    "continue" ∷ "resume" ∷ "continue my request" ∷ "resume my request"
    ∷ "continue the previous request" ∷ "resume the previous request" ∷ "continue with my refund"
    ∷ "continue with the refund" ∷ "continue my refund" ∷ "resume my refund" ∷ "resume the refund"
    ∷ "continue refund request" ∷ "resume refund request" ∷ "continue with my cancellation"
    ∷ "continue with the cancellation" ∷ "continue cancellation" ∷ "resume my cancellation"
    ∷ "resume the cancellation" ∷ "continue cancellation request" ∷ "resume cancellation request"
    ∷ "please continue" ∷ "proceed" ∷ "go ahead" ∷ "önceki isteğe devam et" ∷ "isteğime devam et"
    ∷ "iade işlemine devam et" ∷ "iptal işlemine devam et" ∷ []

abbrev memory_summary_phrases : List String
memory_summary_phrases =
    "what do you remember about me" ∷ "what information do you remember about me"
    ∷ "what preferences do you remember about me" ∷ "what do you remember" ∷ []

unfoldable pub is_resume_request : Patterns → String → Bool
is_resume_request re message = any (λ p. p =ₛ re.normalize message) resume_phrases

unfoldable pub is_memory_summary_request : Patterns → String → Bool
is_memory_summary_request re message = any (λ p. p =ₛ re.normalize message) memory_summary_phrases

unfoldable pub is_instruction_override_attempt : Patterns → String → Bool
is_instruction_override_attempt re message =
    let text = re.folded message in
    if re.bounded_override_marker text || re.turkish_override_marker text
    then true
    else if re.impersonation_override_marker text && re.impersonation_object text
    then true
    else if re.role_override_marker text
    then true
    else if re.override_marker text
    then re.refund_marker text || re.cancel_marker text
    else if re.pending_override_marker text
    then re.pending_override_object text
    else re.refund_marker text && re.approval_without_confirmation text

-- A test of the text after the marker, where there is one that is not empty.
with_suffix : (String → Bool) → Option String → Bool
with_suffix test none = false
with_suffix test (some suffix) = not (suffix =ₛ "") && test suffix

unfoldable pub is_interruption_candidate : Patterns → String → Bool
unfolding is_instruction_override_attempt with_suffix
is_interruption_candidate re message =
    let text = re.normalize message in
    let suffix = re.mixed_request_suffix text in
    let has_question =
      re.ends_with_question_mark message
      || re.question_prefix text
      || with_suffix re.question_prefix suffix in
    if text =ₛ ""
    then false
    else if is_instruction_override_attempt re text
    then true
    else if re.confirmation_like_prefix text
    then is_some suffix && (has_question || with_suffix re.explicit_replacement suffix)
      || re.explicit_replacement text
    else has_question || re.explicit_replacement text || is_some suffix

unfoldable pub is_authority_claim_attempt : Patterns → String → Bool
is_authority_claim_attempt re message = re.authority_claim_marker (re.normalize message)

unfoldable pub has_conflicting_intents : Patterns → String → Bool
has_conflicting_intents re message =
    let text = re.normalize message in
    if not (re.negated_refund text) || not (re.knowledge_marker text)
    then false
    else re.conflicting_action_marker (re.without_negated_refund text)

unfoldable pub is_cross_customer_access_attempt : Patterns → String → Bool
is_cross_customer_access_attempt re message =
    let text = re.normalize message in
    (re.cross_customer_marker text
      || re.indirect_scope_subject text && re.indirect_scope_authority text)
    && re.cross_customer_resource text

by_previous : Patterns → String → Option Intent → Option Intent
by_previous re text (some order_cancel) =
    if (re.refund_marker text || re.turkish_refund_marker text) && re.refund_replacement text
    then some refund_request
    else none
by_previous re text (some refund_request) =
    if (re.cancel_marker text || re.turkish_cancel_marker text) && re.cancel_replacement text
    then some order_cancel
    else none
by_previous re text _ = none

-- The previous intent is the text of a pending action.
unfoldable pub explicit_replacement_intent : Patterns → String → Option String → Option Intent
unfolding by_previous parse_intent
explicit_replacement_intent re message none = none
explicit_replacement_intent re message (some previous) =
    by_previous re (re.normalize message) (parse_intent previous)
