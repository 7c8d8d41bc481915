-- ===== src/Policies/Confirmation.antt =====
-- sky-agent/app/policies/confirmation.py: the answer to a pending action, its expiry and its owner.
-- Times are whole nanoseconds. `normalized` stands for the text operations of the parser.
pub mod Owner
use cang_qiong_project.Common.{
  ℕ, ◌+◌, String, Bool, ◌&&◌, not, List, [], ◌∷◌, ◌=ₛ◌, leb, ◌==◌, if◌then◌else◌, any, ◌>>=◌,
}
use cang_qiong_project.Core.{ExecutionContext, actor_eq}
use cang_qiong_project.Policies.{PendingAction, PendingActionStatus}

pub data Answer : Type 0 where
  confirms rejects ambiguous : Answer

abbrev pub confirmations : List String
confirmations =
    "yes" ∷ "confirm" ∷ "confirmed" ∷ "proceed" ∷ "do it" ∷ "yes proceed" ∷ "yes please"
    ∷ "yes please proceed" ∷ "yes please proceed with the refund"
    ∷ "yes please proceed with the refund request" ∷ "i confirm" ∷ "ı confirm"
    ∷ "proceed with the refund" ∷ "proceed with the refund request" ∷ "go ahead" ∷ "please continue"
    ∷ "approved" ∷ "evet" ∷ "onaylıyorum" ∷ "onayla" ∷ "devam et" ∷ "işlemi onaylıyorum" ∷ []

abbrev pub rejections : List String
rejections =
    "no" ∷ "cancel" ∷ "never mind" ∷ "don't do it" ∷ "do not do it" ∷ "don't proceed"
    ∷ "do not proceed" ∷ "no cancel it" ∷ "stop" ∷ "hayır" ∷ "iptal" ∷ "iptal et" ∷ "vazgeçtim"
    ∷ "onaylamıyorum" ∷ []

unfoldable pub parse_confirmation : (String → String) → String → Answer
parse_confirmation normalized message =
    let words = normalized message in
    if any (λ p. p =ₛ words) confirmations
    then confirms
    else if any (λ p. p =ₛ words) rejections
    then rejects
    else ambiguous

-- The difference of the times is written as a sum.
unfoldable pub is_expired : PendingAction → ℕ → ℕ → Bool
is_expired action now ttl = leb (action.created_at + ttl) now

abbrev pub transition : PendingAction → PendingActionStatus → PendingAction
transition action status = record action { status = status }

unfoldable pub belongs_to_context : PendingAction → ExecutionContext → Bool
belongs_to_context action context =
    action.conversation_id =ₛ context.conversation_id
    && action.tenant_id =ₛ context.tenant_id
    && action.actor_id =ₛ context.principal.actor_id
    && actor_eq action.actor_type context.principal.actor_type
    && action.effective_customer_id == context.effective_customer_id
