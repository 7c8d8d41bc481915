-- ===== src/Agent/Target.antt =====
-- sky-agent/app/agent/semantic_grounding.py and target_admissibility.py: whether the target of a
-- semantic decision may be used. `user_domain_ids` gives the positive numbers in a message.
use cang_qiong_project.Common.{
  ℕ, String, Bool, true, false, Option, none, some, List, ◌==◌, if◌then◌else◌, any,
}
use cang_qiong_project.Agent.Schemas.{
  Intent, order_cancel, refund_request, SemanticTarget, explicit_order, latest_order,
  explicit_ticket,
}

pub data GroundingStatus : Type 0 where
  grounded symbolic ungrounded not_applicable invalid_target : GroundingStatus

pub data ReferenceType : Type 0 where
  to_order to_latest_order to_ticket : ReferenceType

pub record SemanticGrounding : Type 0 where
  pub status : GroundingStatus
  pub reference_type : Option ReferenceType
  pub trusted_source : Option String

-- The grounding of a number that the target names.
ground_number : List ℕ → ReferenceType → ℕ → SemanticGrounding
ground_number ids type id =
    if any (λ n. n == id) ids
    then record {
      status = grounded;
      reference_type = some type;
      trusted_source = some "current_user_message";
    }
    else record { status = ungrounded; reference_type = some type; trusted_source = none }

unfoldable pub validate_semantic_grounding :
    (String → List ℕ) → Option SemanticTarget → String → SemanticGrounding
unfolding ground_number
validate_semantic_grounding user_domain_ids none message = record {
  status = not_applicable;
  reference_type = none;
  trusted_source = none;
}
validate_semantic_grounding user_domain_ids (some latest_order) message = record {
  status = symbolic;
  reference_type = some to_latest_order;
  trusted_source = none;
}
validate_semantic_grounding user_domain_ids (some (explicit_order id)) message =
    ground_number (user_domain_ids message) to_order id
validate_semantic_grounding user_domain_ids (some (explicit_ticket id)) message =
    ground_number (user_domain_ids message) to_ticket id

pub data TargetAdmissibility : Type 0 where
  admissible admissible_symbolic_read requires_clarification invalid : TargetAdmissibility

-- `DESTRUCTIVE_TARGET_INTENTS`
abbrev pub is_destructive : Intent → Bool
is_destructive order_cancel = true
is_destructive refund_request = true
is_destructive _ = false

abbrev is_unfounded : Option SemanticGrounding → Bool
is_unfounded none = false
is_unfounded (some g) = elim g.status [ ungrounded ↦ true | invalid_target ↦ true | _ ↦ false ]

unfoldable pub assess_target_admissibility :
    Intent → Option SemanticTarget → Option SemanticGrounding → TargetAdmissibility
assess_target_admissibility intent none grounding =
    if is_destructive intent then requires_clarification else admissible
assess_target_admissibility intent (some latest_order) grounding =
    if is_destructive intent then requires_clarification else admissible_symbolic_read
assess_target_admissibility intent (some _) grounding =
    if is_unfounded grounding then requires_clarification else admissible
