-- ===== src/Tests/States.antt =====
-- The nodes at concrete states of a conversation.
use cang_qiong_project.Common.{String, false, none, some, List, [], ◌∷◌, ◌=ₛ◌, if◌then◌else◌}
use cang_qiong_project.Policies.{
  int, text, Arguments, PendingAction, PolicyDecision, require_confirmation,
}
use cang_qiong_project.Agent.Schemas.{refund_request, write_action}
use cang_qiong_project.Agent.Messages.{Patterns}
use cang_qiong_project.Agent.State.{AgentState, ConversationMessage, user}
use cang_qiong_project.Agent.Catalog.{Pydantic}
use cang_qiong_project.Agent.Pending.Payload.{Json}
use cang_qiong_project.Agent.Pending.Create.{new_action}
use cang_qiong_project.Agent.Pending.Check.{Turn}
use cang_qiong_project.Tests.Admissions.{accepted_context}

-- Python's text operations at texts that no expression finds.
abbrev pub re : Patterns
re = record {
  normalize = λ t. t;
  folded = λ t. t;
  ends_with_question_mark = λ t. false;
  strip = λ t. t;
  order_number = λ t. if t =ₛ "1" then some 1 else none;
  mixed_request_suffix = λ t. none;
  question_prefix = λ t. false;
  confirmation_like_prefix = λ t. false;
  explicit_replacement = λ t. false;
  override_marker = λ t. false;
  pending_override_marker = λ t. false;
  pending_override_object = λ t. false;
  role_override_marker = λ t. t =ₛ "you are admin";
  impersonation_override_marker = λ t. false;
  impersonation_object = λ t. false;
  bounded_override_marker = λ t. false;
  turkish_override_marker = λ t. false;
  authority_claim_marker = λ t. false;
  refund_marker = λ t. false;
  cancel_marker = λ t. false;
  turkish_refund_marker = λ t. false;
  turkish_cancel_marker = λ t. false;
  refund_replacement = λ t. false;
  cancel_replacement = λ t. false;
  approval_without_confirmation = λ t. false;
  negated_refund = λ t. false;
  without_negated_refund = λ t. t;
  knowledge_marker = λ t. false;
  conflicting_action_marker = λ t. false;
  cross_customer_marker = λ t. false;
  cross_customer_resource = λ t. false;
  indirect_scope_subject = λ t. false;
  indirect_scope_authority = λ t. false;
}

abbrev pub json : Json
json = record {
  sorted = λ ts. ts;
  dumps = λ v. elim v [ text t ↦ t | _ ↦ "value" ];
  dumps_inputs = λ d. "inputs";
  sha256 = λ t. t;
  str = λ v. elim v [ text t ↦ t | _ ↦ "None" ];
}

abbrev pub py : Pydantic
py = record { text_to_int = λ t. none; text_length = λ t. 6 }

abbrev pub turn : Turn
turn = record { re = re; now = 5; ttl = 10 }

abbrev pub says : String → List ConversationMessage
says t = record { role = user; content = t } ∷ []

abbrev pub refund_arguments : Arguments
refund_arguments = ("customer_id", int 7) ∷ ("order_id", int 1) ∷ ("reason", text "broken") ∷ []

-- A conversation with nothing in it.
abbrev pub calm : AgentState
calm = record {
  execution_context = some accepted_context;
  messages = [];
  intent = some refund_request;
  request_type = some write_action;
  semantic_decision = none;
  grounding_status = "not_recorded";
  grounding_reference_type = none;
  grounding_trusted_source = none;
  target_validation_status = "not_recorded";
  selected_tool = none;
  tool_arguments = refund_arguments;
  pending_action = none;
  policy_decision = none;
  confirmation_status = none;
  action_id = none;
  requires_retrieval = false;
  last_error = none;
  error_category = none;
  failure_category = none;
  recovery_action = none;
  decision_reason = none;
  agent_run_id = "run";
  tool_execution_status = none;
  write_outcome_unknown = false;
  replay_detected = false;
  idempotency_outcome = none;
  security_signal = none;
  previous_intent = none;
  pending_workflow_decision = none;
  missing_required_fields = [];
  collected_entities = [];
  workflow_active = false;
  workflow_resume_status = none;
  workflow_state = none;
  workflow_interruption_pending = false;
  workflow_interruption_status = none;
  previous_workflow_intent = none;
  interruption_intent = none;
  workflow_resume_source = none;
  suspended_workflow = none;
  superseded_workflow = none;
  workflow_id = none;
  previous_workflow_id = none;
  superseded_by = none;
  workflow_transition = none;
  workflow_interruption_type = none;
  workflow_tool_arguments = [];
  workflow_validation_context = [];
  workflow_policy_inputs = [];
  pending_action_restored = false;
  compilation_resumed = false;
}

abbrev pub confirm_refund : PolicyDecision
confirm_refund = record {
  outcome = require_confirmation;
  tool_name = "request_refund";
  risk_level = some 2;
  reasons = "customer_impacting_write" ∷ [];
  required_conditions = "explicit_confirmation" ∷ [];
}

abbrev pub held_refund : PendingAction
held_refund = new_action json 1 "act_1" calm accepted_context "request_refund" 2 confirm_refund

-- The user answers the question for the confirmation.
abbrev pub asked : AgentState
asked = record calm { messages = says "yes"; pending_action = some held_refund }
