-- ===== src/Agent/State.antt =====
-- sky-agent/app/agent/state.py: the state that the nodes read and write. The fields of retrieval,
-- memory, the provider and the audit trace are left out, and so is the number of the restored
-- fields. A field that is missing is `none`, the empty list or `false`; times are whole nanoseconds.
use cang_qiong_project.Common.{
  String, Bool, true, false, Option, none, some, List, [], ◌∷◌, if◌then◌else◌,
}
use cang_qiong_project.Core.{ExecutionContext}
use cang_qiong_project.Policies.{Arguments, PolicyInputs, PendingAction, PolicyDecision}
use cang_qiong_project.Agent.Schemas.{
  Intent, AgentRequestType, SemanticDecision, AgentErrorCategory,
}
use cang_qiong_project.Agent.Graph.{ConfirmationStatus, ResumeStatus, InterruptionStatus}

pub data Role : Type 0 where
  user assistant : Role

pub record ConversationMessage : Type 0 where
  pub role : Role
  pub content : String

pub data WorkflowLifecycleState : Type 0 where
  active waiting_confirmation suspended superseded completed cancelled : WorkflowLifecycleState

pub record SuspendedWorkflow : Type 0 where
  pub intent : Intent
  pub pending_action : Option PendingAction
  pub pending_workflow_decision : Option SemanticDecision
  pub collected_entities : Arguments
  pub tool_arguments : Arguments
  pub missing_required_fields : List String
  pub validation_context : Arguments
  pub policy_inputs : PolicyInputs
  pub source_state : WorkflowLifecycleState
  pub workflow_id : String
  pub superseded_by : Option String

pub data ToolExecutionStatus : Type 0 where
  awaiting executed failed : ToolExecutionStatus

pub record AgentState : Type 0 where
  pub execution_context : Option ExecutionContext
  pub messages : List ConversationMessage
  pub intent : Option Intent
  pub request_type : Option AgentRequestType
  pub semantic_decision : Option SemanticDecision
  pub grounding_status : String
  pub grounding_reference_type : Option String
  pub grounding_trusted_source : Option String
  pub target_validation_status : String
  pub selected_tool : Option String
  pub tool_arguments : Arguments
  pub pending_action : Option PendingAction
  pub policy_decision : Option PolicyDecision
  pub confirmation_status : Option ConfirmationStatus
  pub action_id : Option String
  pub requires_retrieval : Bool
  pub last_error : Option String
  pub error_category : Option AgentErrorCategory
  pub failure_category : Option String
  pub recovery_action : Option String
  pub decision_reason : Option String
  pub agent_run_id : String
  pub tool_execution_status : Option ToolExecutionStatus
  pub write_outcome_unknown : Bool
  pub replay_detected : Bool
  pub idempotency_outcome : Option String
  pub security_signal : Option String
  pub previous_intent : Option Intent
  pub pending_workflow_decision : Option SemanticDecision
  pub missing_required_fields : List String
  pub collected_entities : Arguments
  pub workflow_active : Bool
  pub workflow_resume_status : Option ResumeStatus
  pub workflow_state : Option WorkflowLifecycleState
  pub workflow_interruption_pending : Bool
  pub workflow_interruption_status : Option InterruptionStatus
  pub previous_workflow_intent : Option Intent
  pub interruption_intent : Option Intent
  pub workflow_resume_source : Option String
  pub suspended_workflow : Option SuspendedWorkflow
  pub superseded_workflow : Option SuspendedWorkflow
  pub workflow_id : Option String
  pub previous_workflow_id : Option String
  pub superseded_by : Option String
  pub workflow_transition : Option String
  pub workflow_interruption_type : Option String
  pub workflow_tool_arguments : Arguments
  pub workflow_validation_context : Arguments
  pub workflow_policy_inputs : PolicyInputs
  pub pending_action_restored : Bool
  pub compilation_resumed : Bool

is_user : Role → Bool
is_user user = true
is_user assistant = false

last_user : List ConversationMessage → Option String
unfolding is_user
last_user [] = none
last_user (m ∷ ms) = elim (last_user ms) [
  | some content ↦ some content
  | none ↦ if is_user m.role then some m.content else none
]

-- `_latest_user_message`
unfoldable pub latest_user_message : AgentState → String
unfolding last_user
latest_user_message s = elim (last_user s.messages) [ some content ↦ content | none ↦ "" ]
