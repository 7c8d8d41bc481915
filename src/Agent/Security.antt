-- ===== src/Agent/Security.antt =====
-- The security boundary of sky-agent/app/agent/nodes/understand_request.py. `memory_signal` is the
-- reading of the message by the memory's policy; the fields of the memory are left out.
use cang_qiong_project.Common.{
  String, ◌≡◌, refl, ◌≢◌, ◌⊎◌, inl, inr, true, false, Option, none, some, List, [], arith,
  if◌then◌else◌, Bool-cases, is_some,
}
use cang_qiong_project.Policies.{PendingAction, PendingActionStatus}
use cang_qiong_project.Policies.Confirmation.{transition}
use cang_qiong_project.Agent.Schemas.{
  unknown, unclear, plain_decision, policy_denied, ownership_violation,
}
use cang_qiong_project.Agent.Graph.{ConfirmationStatus, security_blocked, blocked}
use cang_qiong_project.Agent.Messages.{
  Patterns, is_instruction_override_attempt, is_authority_claim_attempt,
  is_cross_customer_access_attempt,
}
use cang_qiong_project.Agent.State.{AgentState, ConversationMessage, latest_user_message, cancelled}
use cang_qiong_project.Agent.Pending.Check.{Turn, is_pending, check_pending}
use cang_qiong_project.Agent.Pending.Check.Confirms.{confirmed-IsConfirmable}

-- A pending action is rejected, any other stays.
reject_pending : Option PendingAction → Option PendingAction
reject_pending none = none
reject_pending (some action) =
    some
      (if is_pending action.status then transition action PendingActionStatus.rejected else action)

-- `_security_block`
security_block : AgentState → String → AgentState
unfolding reject_pending
security_block s signal = record s {
  semantic_decision = some (plain_decision unknown unclear signal);
  intent = some unknown;
  request_type = some unclear;
  selected_tool = none;
  tool_arguments = [];
  pending_action = reject_pending s.pending_action;
  pending_workflow_decision = none;
  missing_required_fields = [];
  workflow_active = false;
  workflow_interruption_pending = false;
  workflow_interruption_status = some security_blocked;
  workflow_state = some cancelled;
  suspended_workflow = none;
  superseded_workflow = none;
  confirmation_status =
      if is_some (reject_pending s.pending_action)
      then some ConfirmationStatus.rejected
      else some blocked;
  security_signal = some signal;
  decision_reason = some signal;
  error_category = some policy_denied;
  last_error = some "The request attempted to cross a deterministic authority boundary.";
}

-- `_ownership_block`
ownership_block : AgentState → AgentState
ownership_block s = record s {
  semantic_decision = some (plain_decision unknown unclear "cross_customer_access_attempt");
  intent = some unknown;
  request_type = some unclear;
  selected_tool = none;
  tool_arguments = [];
  pending_action = none;
  security_signal = some "cross_customer_access_attempt";
  decision_reason = some "cross_customer_access_attempt";
  error_category = some ownership_violation;
  last_error = some "The request crossed the authenticated customer scope.";
  workflow_active = false;
  workflow_state = some cancelled;
  confirmation_status = some blocked;
}

by_message : Patterns → AgentState → String → Option String → AgentState
unfolding security_block ownership_block
by_message re s message (some signal) = security_block s signal
by_message re s message none =
    if is_instruction_override_attempt re message
    then security_block s "instruction_override_attempt"
    else if is_authority_claim_attempt re message
    then security_block s "authority_claim_attempt"
    else if is_cross_customer_access_attempt re message
    then ownership_block s
    else record s { security_signal = none }

unfoldable pub detect_security_boundary :
    Patterns → (String → Option String) → AgentState → AgentState
unfolding by_message
detect_security_boundary re memory_signal s =
    by_message re s (latest_user_message s) (memory_signal (latest_user_message s))

-- No action is held that could still be confirmed.
NotPending : Option PendingAction → Type 0
NotPending o =
    (o ≡ none)
    ⊎ ((action : PendingAction) × (o ≡ some action) × (action.status ≢ PendingActionStatus.pending))

-- What a blocked message leaves: a signal, no tool and no workflow to go on with, an error, and
-- nothing that the next message `ms` could confirm.
pub record IsRevoked (s : AgentState) : Type 0 where
  pub signalled : is_some s.security_signal ≡ true
  pub no_tool : s.selected_tool ≡ none
  pub no_arguments : s.tool_arguments ≡ []
  pub unconfirmable :
      (turn : Turn) (ms : List ConversationMessage)
      → (check_pending turn (record s { messages = ms })).confirmation_status
        ≢ some ConfirmationStatus.confirmed
  pub inactive : s.workflow_active ≡ false
  pub failed : is_some s.error_category ≡ true

NotPending-reject : (o : Option PendingAction) → NotPending (reject_pending o)
unfolding NotPending reject_pending
NotPending-reject none = inl refl
NotPending-reject (some action) = inr (_, refl, λ e. ground arith)

NotPending-unconfirmable :
    (s : AgentState)
    → NotPending s.pending_action
    → (turn : Turn) (ms : List ConversationMessage)
    → (check_pending turn (record s { messages = ms })).confirmation_status
      ≢ some ConfirmationStatus.confirmed
unfolding NotPending
NotPending-unconfirmable s (inl e) turn ms h =
    let found = confirmed-IsConfirmable turn (record s { messages = ms }) h in
    absurd (ground (arith, e, found.1.held))
NotPending-unconfirmable s (inr (action, e, n)) turn ms h =
    let found = confirmed-IsConfirmable turn (record s { messages = ms }) h in
    n (ground (arith, e, found.1.held, found.1.is_pending))

security_block-IsRevoked : (s : AgentState) (signal : String) → IsRevoked (security_block s signal)
unfolding security_block
security_block-IsRevoked s signal = record {
  signalled = refl;
  no_tool = refl;
  no_arguments = refl;
  unconfirmable =
      NotPending-unconfirmable (security_block s signal) (NotPending-reject s.pending_action);
  inactive = refl;
  failed = refl;
}

ownership_block-IsRevoked : (s : AgentState) → IsRevoked (ownership_block s)
unfolding ownership_block NotPending
ownership_block-IsRevoked s = record {
  signalled = refl;
  no_tool = refl;
  no_arguments = refl;
  unconfirmable = NotPending-unconfirmable (ownership_block s) (inl refl);
  inactive = refl;
  failed = refl;
}

module _ (re : Patterns) (memory_signal : String → Option String) (s : AgentState) where
  abbrev message : String
  message = latest_user_message s

  -- The message is detected by none of the readings, and the state goes on without a signal.
  pub record IsPassed (r : AgentState) : Type 0 where
    pub no_memory : memory_signal message ≡ none
    pub no_override : is_instruction_override_attempt re message ≡ false
    pub no_claim : is_authority_claim_attempt re message ≡ false
    pub no_crossing : is_cross_customer_access_attempt re message ≡ false
    pub unchanged : r ≡ record s { security_signal = none }

  abbrev Answered : AgentState → Type 0
  Answered r = IsPassed r ⊎ IsRevoked r

  by_message-Answered :
      (signal : Option String)
      → memory_signal message ≡ signal
      → Answered (by_message re s message signal)
  unfolding by_message
  by_message-Answered (some signal) m = inr (security_block-IsRevoked s signal)
  by_message-Answered none m = elim (Bool-cases (is_instruction_override_attempt re message)) [
    | inl o ↦ rw o (inr (security_block-IsRevoked s _))
    | inr o ↦ elim (Bool-cases (is_authority_claim_attempt re message)) [
      | inl c ↦ rw (o, c) (inr (security_block-IsRevoked s _))
      | inr c ↦ elim (Bool-cases (is_cross_customer_access_attempt re message)) [
        | inl x ↦ rw (o, c, x) (inr (ownership_block-IsRevoked s))
        | inr x ↦
            rw (o, c, x)
              (inl (record {
                no_memory = m;
                no_override = o;
                no_claim = c;
                no_crossing = x;
                unchanged = refl;
              }))
      ]
    ]
  ]

  -- The security boundary lets a message pass only if no reading of it detects an attempt: neither
  -- the memory's policy nor the readings for an override of the instructions, a claim of authority
  -- and an access to another customer; then only the signal of the state is cleared. In every other
  -- case it raises a signal and leaves no tool and no arguments, no active workflow, an error
  -- category, and no action that any message of the next turn could confirm.
  pub security_boundary_revokes :
      IsPassed (detect_security_boundary re memory_signal s)
      ⊎ IsRevoked (detect_security_boundary re memory_signal s)
  unfolding detect_security_boundary
  security_boundary_revokes = by_message-Answered (memory_signal message) refl
