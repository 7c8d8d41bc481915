-- ===== src/Agent/Pending/Revalidate/Valid.antt =====
-- What holds of an action that sky-agent/app/agent/nodes/revalidate.py lets through.
use cang_qiong_project.Common.{
  ℕ, String, ◌≡◌, refl, sym, ap, subst, ◌≢◌, ◌⊎◌, inl, inr, Bool, true, false, not, Option, none,
  some, arith, ◌==◌, if◌then◌else◌, Result, ok, err, bind-ok, ok-inj, guard-ok,
}
use cang_qiong_project.Core.{ExecutionContext}
use cang_qiong_project.Models.{Session, Order}
use cang_qiong_project.Policies.{
  PolicyOutcome, PendingAction, PendingActionStatus, require_confirmation, allow,
}
use cang_qiong_project.Policies.Rules.{evaluate_default_policy}
use cang_qiong_project.Services.Idempotency.{ToolFailure}
use cang_qiong_project.Tools.Orders.{validate_cancel_order}
use cang_qiong_project.Tools.Refunds.{validate_refund_request}
use cang_qiong_project.Agent.State.{AgentState}
use cang_qiong_project.Agent.Catalog.{
  Pydantic, InputModel, ToolInput, cancel_input, refund_input, get_agent_tool_definition,
  model_validate, model_dump, customer_of, ValidationError,
}
use cang_qiong_project.Agent.Pending.Check.{is_owned}
use cang_qiong_project.Agent.Pending.Restore.{is_confirmed}
use cang_qiong_project.Agent.Pending.Payload.{
  Json, restore_pending_arguments, restore_policy_inputs, policy_input_diff, any_diff,
}
use cang_qiong_project.Agent.Pending.Revalidate.{
  Failed, or_failed, owned_context, or_unregistered, or_invalid_arguments, require, check_outcome,
  check_business, revalidate_action, failed, concluded, revalidate_held, revalidate,
  AgentErrorCategory,
}

-- The order of the input is in the state that its tool needs.
pub data IsExecutable (db : Session) (tenant : String) : ToolInput → Type 0 where
  is_cancellation :
      {r : _} (o : Order)
      → validate_cancel_order db r tenant ≡ ok o
      → IsExecutable db tenant (cancel_input r)
  is_refund :
      {r : _}
      → validate_refund_request db r tenant ≡ ok tt
      → IsExecutable db tenant (refund_input r)

or_failed-ok {ℓ} :
    {A : Type ℓ} (message : ToolFailure → String) (x : Result ToolFailure A)
    → or_failed message x ≡ ok tt
    → (a : A) × (x ≡ ok a)
unfolding or_failed
or_failed-ok message (ok a) h = (a, refl)
or_failed-ok message (err e) h = absurd cc

not-true : (b : Bool) → not b ≡ true → b ≡ false
not-true b h = ground arith

same-number : (n m : ℕ) → (n == m) ≡ true → n ≡ m
same-number n m h = ground arith

require-ok : (b : Bool) (c : AgentErrorCategory) (m : String) → require b c m ≡ ok tt → b ≡ true
unfolding require
require-ok true c m h = refl
require-ok false c m h = absurd cc

business-IsExecutable :
    (message : ToolFailure → String) (db : Session) (tenant : String) (i : ToolInput)
    → check_business message db tenant i ≡ ok tt
    → IsExecutable db tenant i
unfolding check_business
business-IsExecutable message db tenant (cancel_input r) h =
    let (o, e) = or_failed-ok message _ h in is_cancellation o e
business-IsExecutable message db tenant (refund_input r) h =
    let (u, e) = or_failed-ok message _ h in is_refund e
business-IsExecutable message db tenant _ h = absurd cc

-- What the node has established of an action and of the input that it is executed with.
pub record IsRevalidated (py : Pydantic) (json : Json) (db : Session) (action : PendingAction)
    (input : ToolInput) (context : ExecutionContext) : Type 0 where
  pub model : InputModel
  pub owned : is_owned action (some context) ≡ true
  pub registered : get_agent_tool_definition action.tool_name ≡ some model
  pub confirmed_arguments : model_validate py model (restore_pending_arguments action) ≡ ok input
  pub unchanged :
      any_diff (
        policy_input_diff json action.policy_inputs
          (restore_policy_inputs json action context (model_dump input)))
      ≡ false
  pub own : customer_of input ≡ context.effective_customer_id
  pub allowed :
      ((evaluate_default_policy action.tool_name context (model_dump input)).outcome ≡ allow)
      ⊎ ((evaluate_default_policy action.tool_name context (model_dump input)).outcome
          ≡ require_confirmation)
  pub executable : IsExecutable db context.tenant_id input

outcome-allowed :
    (o : PolicyOutcome) → check_outcome o ≡ ok tt → (o ≡ allow) ⊎ (o ≡ require_confirmation)
unfolding check_outcome
outcome-allowed allow h = inl refl
outcome-allowed require_confirmation h = inr refl
outcome-allowed _ h = absurd cc

unregistered-ok : (o : Option InputModel) (m : InputModel) → or_unregistered o ≡ ok m → o ≡ some m
unfolding or_unregistered
unregistered-ok none m h = absurd cc
unregistered-ok (some n) m h = ap some (ok-inj h)

invalid-ok :
    (x : Result ValidationError ToolInput) (i : ToolInput)
    → or_invalid_arguments x ≡ ok i
    → x ≡ ok i
unfolding or_invalid_arguments
invalid-ok (ok j) i h = ap ok (ok-inj h)
invalid-ok (err e) i h = absurd cc

owned-ok :
    (action : PendingAction) (o : Option ExecutionContext) (c : ExecutionContext)
    → owned_context action o ≡ ok c
    → (o ≡ some c) × (is_owned action (some c) ≡ true)
unfolding owned_context
owned-ok action none c h = absurd cc
owned-ok action (some d) c h =
    let (e, same) = guard-ok _ d _ c h in
    (ap some same, subst (λ x. is_owned action (some x) ≡ true) same e)

confirmed-status :
    (status : PendingActionStatus)
    → is_confirmed status ≡ true
    → status ≡ PendingActionStatus.confirmed
confirmed-status status h = ground arith

module _ (py : Pydantic) (json : Json) (message : ToolFailure → String) (db : Session) where
  revalidate_action-ok :
      (o : Option ExecutionContext) (action : PendingAction) (r : ToolInput × ExecutionContext)
      → revalidate_action py json message db o action ≡ ok r
      → (o ≡ some r.1) × IsRevalidated py json db action r.0 r.1
  unfolding revalidate_action
  revalidate_action-ok o action r h =
      let (c, ec, h1) = bind-ok (owned_context action o) _ _ h in
      let (m, em, h2) =
        bind-ok (or_unregistered (get_agent_tool_definition action.tool_name)) _ _ h1 in
      let (i, ei, h3) =
        bind-ok (or_invalid_arguments (model_validate py m (restore_pending_arguments action))) _ _
          h2 in
      let (u1, e1, h4) = bind-ok (require _ _ _) _ _ h3 in
      let (u2, e2, h5) = bind-ok (require _ _ _) _ _ h4 in
      let (u3, e3, h6) = bind-ok (check_outcome _) _ _ h5 in
      let (u4, e4, h7) = bind-ok (check_business _ _ _ _) _ _ h6 in
      subst (λ r. (o ≡ some r.1) × IsRevalidated py json db action r.0 r.1) (ok-inj h7)
        ((
          (owned-ok action o c ec).0,
          record {
            model = m;
            owned = (owned-ok action o c ec).1;
            registered = unregistered-ok _ m em;
            confirmed_arguments = invalid-ok _ i ei;
            unchanged = not-true _ (require-ok _ _ _ e1);
            own = same-number _ _ (require-ok _ _ _ e2);
            allowed = outcome-allowed _ e3;
            executable = business-IsExecutable message db c.tenant_id i e4;
          },
        ))

  -- What the node hands to the execution.
  pub record IsReady (s : AgentState) (action : PendingAction) (r : AgentState) : Type 0 where
    pub confirmed : action.status ≡ PendingActionStatus.confirmed
    pub context : ExecutionContext
    pub input : ToolInput
    pub authenticated : s.execution_context ≡ some context
    pub valid : IsRevalidated py json db action input context
    pub tool : r.selected_tool ≡ some action.tool_name
    pub arguments : r.tool_arguments ≡ model_dump input
    pub kept : r.pending_action ≡ s.pending_action

  failed-error :
      (s : AgentState) (f : Failed) → (failed py json message db s f).error_category ≢ none
  unfolding failed
  failed-error s f h = absurd cc

  concluded-IsReady :
      (s : AgentState) (action : PendingAction) (x : Result Failed (ToolInput × ExecutionContext))
      → action.status ≡ PendingActionStatus.confirmed
      → revalidate_action py json message db s.execution_context action ≡ x
      → (concluded py json message db s action x).error_category ≡ none
      → IsReady s action (concluded py json message db s action x)
  unfolding concluded
  concluded-IsReady s action (err f) p e h = absurd (failed-error s f h)
  concluded-IsReady s action (ok (i, c)) p e h =
      let found = revalidate_action-ok s.execution_context action (i, c) e in
      record {
        confirmed = p;
        context = c;
        input = i;
        authenticated = found.0;
        valid = found.1;
        tool = refl;
        arguments = refl;
        kept = refl;
      }

  held-IsReady :
      (s : AgentState) (action : PendingAction) (b : Bool) (f : Failed)
      → is_confirmed action.status ≡ b
      → (if b
          then concluded py json message db s action
              (revalidate_action py json message db s.execution_context action)
          else failed py json message db s f).error_category
        ≡ none
      → IsReady s action (
          if b
          then concluded py json message db s action
              (revalidate_action py json message db s.execution_context action)
          else failed py json message db s f)
  held-IsReady s action true f e h =
      concluded-IsReady s action _ (confirmed-status action.status e) refl h
  held-IsReady s action false f e h = absurd (failed-error s f h)

  -- Where the node reports no error on the action that is held, the action is confirmed, belongs to
  -- the context, its tool is registered, its arguments are a valid input of the context's customer,
  -- the inputs of the policy are what they were when it was held, the policy does not refuse it, and
  -- its order is there, is the customer's and is in the state that the cancellation or the refund
  -- needs; the state that follows names this tool and this input.
  pub revalidated_action_is_valid :
      (s : AgentState) (action : PendingAction)
      → s.pending_action ≡ some action
      → (revalidate py json message db s).error_category ≡ none
      → IsReady s action (revalidate py json message db s)
  unfolding revalidate revalidate_held
  revalidated_action_is_valid s action e h =
      let same = ap (revalidate_held py json message db s) e in
      subst (IsReady s action) (sym same) (
        held-IsReady s action (is_confirmed action.status) _ refl
          (subst (λ r. r.error_category ≡ none) same h))
