-- ===== src/Agent/Workflow/RoundTrip.antt =====
-- What becomes of a workflow that is suspended and resumed, by
-- sky-agent/app/agent/nodes/workflow_lifecycle.py.
use cang_qiong_project.Common.{
  String, ◌≡◌, refl, sym, ap, ◌∙◌, subst, Bool, true, false, Option, none, some, arith,
}
use cang_qiong_project.Policies.{Value, PendingAction}
use cang_qiong_project.Agent.Schemas.{Intent}
use cang_qiong_project.Agent.State.{AgentState}
use cang_qiong_project.Agent.Pending.Check.{is_owned}
use cang_qiong_project.Agent.Workflow.{
  workflow_intent, current_intent, is_superseding_request, capture, capture_workflow,
}
use cang_qiong_project.Agent.Workflow.Interrupt.{
  goes_on, by_intents, leave_workflow, handle_workflow_interruption,
}
use cang_qiong_project.Agent.Workflow.Restore.{
  restore_held, restore_workflow, restore_suspended_workflow,
}

-- A workflow of the state `s` that its message interrupts for a while.
pub record IsSuspended (s : AgentState) (previous interruption : Intent) : Type 0 where
  pub of_workflow : workflow_intent s ≡ some previous
  pub of_message : current_intent s ≡ some interruption
  pub differs : goes_on previous interruption ≡ false
  pub temporary : is_superseding_request s.semantic_decision ≡ false

leaves-suspended :
    (s : AgentState) (previous interruption : Intent) (b : Bool)
    → b ≡ false
    → (leave_workflow s previous interruption b).suspended_workflow
      ≡ some (capture_workflow s previous)
unfolding leave_workflow
leaves-suspended s previous interruption true h = absurd (ground arith)
leaves-suspended s previous interruption false h = refl

IsSuspended-captured :
    (s : AgentState) (previous interruption : Intent)
    → IsSuspended s previous interruption
    → (handle_workflow_interruption s).suspended_workflow ≡ some (capture_workflow s previous)
unfolding handle_workflow_interruption by_intents
IsSuspended-captured s previous interruption w =
    ap (λ i. (by_intents s i (current_intent s)).suspended_workflow) w.of_workflow
    ∙ ap (λ i. (by_intents s (some previous) i).suspended_workflow) w.of_message
    ∙ rw w.differs (leaves-suspended s previous interruption _ w.temporary)

-- What is resumed of a workflow with a pending action.
pub record HoldsAction (r : AgentState) (action : PendingAction) (intent : Intent) : Type 0 where
  pub held : r.pending_action ≡ some action
  pub same_id : r.action_id ≡ some action.action_id
  pub same_tool : r.selected_tool ≡ some action.tool_name
  pub same_arguments : r.tool_arguments ≡ action.arguments
  pub same_entities : r.collected_entities ≡ action.collected_entities
  pub same_intent : r.intent ≡ some intent

-- What is resumed of a workflow that waits for fields.
pub record HoldsFields (r s : AgentState) (intent : Intent) : Type 0 where
  pub no_action : r.pending_action ≡ none
  pub same_decision : r.pending_workflow_decision ≡ s.pending_workflow_decision
  pub same_fields : r.missing_required_fields ≡ s.missing_required_fields
  pub same_arguments : r.tool_arguments ≡ s.workflow_tool_arguments
  pub same_entities : r.collected_entities ≡ s.collected_entities
  pub same_intent : r.intent ≡ some intent

module _ (str : Value → String) (s t : AgentState) (previous interruption : Intent) where
  abbrev held_again : Option PendingAction → AgentState
  held_again o = restore_held str t (capture s previous o) (capture s previous o).pending_action

  restore-captured :
      (o : Option PendingAction)
      → IsSuspended s previous interruption
      → s.pending_action ≡ o
      → t.suspended_workflow ≡ (handle_workflow_interruption s).suspended_workflow
      → restore_suspended_workflow str t ≡ held_again o
  unfolding restore_suspended_workflow restore_workflow capture_workflow
  restore-captured o w h e =
      ap (restore_workflow str t) (e ∙ IsSuspended-captured s previous interruption w)
      ∙ ap held_again h

  captured-HoldsAction :
      (action : PendingAction)
      → is_owned action t.execution_context ≡ true
      → HoldsAction
          (restore_held str t
            (capture s previous (some action))
            (capture s previous (some action)).pending_action)
          action
          previous
  unfolding restore_held capture
  captured-HoldsAction action o = rw o (record {
    held = refl;
    same_id = refl;
    same_tool = refl;
    same_arguments = refl;
    same_entities = refl;
    same_intent = refl;
  })

  -- A pending action survives an interruption: the message that interrupts it puts it away, and
  -- whatever happens until it is resumed, as long as the snapshot is kept and the action belongs to
  -- the context, the same action is pending again, with its key, its tool and its arguments.
  pub suspended_action_is_resumed :
      (action : PendingAction)
      → IsSuspended s previous interruption
      → s.pending_action ≡ some action
      → t.suspended_workflow ≡ (handle_workflow_interruption s).suspended_workflow
      → is_owned action t.execution_context ≡ true
      → HoldsAction (restore_suspended_workflow str t) action previous
  suspended_action_is_resumed action w h e o =
      subst (λ r. HoldsAction r action previous) (sym (restore-captured (some action) w h e))
        (captured-HoldsAction action o)

  captured-HoldsFields :
      HoldsFields
        (restore_held str t (capture s previous none) (capture s previous none).pending_action)
        s
        previous
  unfolding restore_held capture
  captured-HoldsFields = record {
    no_action = refl;
    same_decision = refl;
    same_fields = refl;
    same_arguments = refl;
    same_entities = refl;
    same_intent = refl;
  }

  -- A workflow that waits for fields survives an interruption: it is resumed with the decision, the
  -- fields that were missing and the entities that were collected.
  pub suspended_fields_are_resumed :
      IsSuspended s previous interruption
      → s.pending_action ≡ none
      → t.suspended_workflow ≡ (handle_workflow_interruption s).suspended_workflow
      → HoldsFields (restore_suspended_workflow str t) s previous
  suspended_fields_are_resumed w h e =
      subst (λ r. HoldsFields r s previous) (sym (restore-captured none w h e)) captured-HoldsFields
