-- ===== src/Policies.antt =====
-- sky-agent/app/policies: the decision on a tool, and the confirmation of a pending action.
pub mod Rules
pub mod Confirmation
use cang_qiong_project.Common.{ℕ, String, Option, List}
use cang_qiong_project.Core.{ActorType}

pub data PolicyOutcome : Type 0 where
  allow require_confirmation require_human deny : PolicyOutcome

pub data PendingActionStatus : Type 0 where
  pending confirmed rejected expired executed failed : PendingActionStatus

-- A value of `dict[str, Any]`, as far as the tools' arguments hold them.
pub data Value : Type 0 where
  int : ℕ → Value
  text : String → Value
  texts : List String → Value
  null : Value

abbrev pub Arguments : Type 0
Arguments = List (String × Value)

-- A field of the policy inputs: a value, or a dictionary of values.
pub data Input : Type 0 where
  value : Value → Input
  nested : Arguments → Input

abbrev pub PolicyInputs : Type 0
PolicyInputs = List (String × Input)

pub record PendingAction : Type 0 where
  pub action_id : String
  pub conversation_id : String
  pub tenant_id : String
  pub actor_id : String
  pub actor_type : ActorType
  pub effective_customer_id : ℕ
  pub tool_name : String
  pub arguments : Arguments
  pub risk_level : ℕ
  pub intent : Option String
  pub collected_entities : Arguments
  pub validation_context : Arguments
  pub policy_inputs : PolicyInputs
  pub policy_inputs_hash : Option String
  pub created_at : ℕ
  pub status : PendingActionStatus

-- `risk_level` is `none` for the -1 of an unknown tool.
pub record PolicyDecision : Type 0 where
  pub outcome : PolicyOutcome
  pub tool_name : String
  pub risk_level : Option ℕ
  pub reasons : List String
  pub required_conditions : List String
