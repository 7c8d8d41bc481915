-- ===== src/Agent/Errors/Answer.antt =====
-- The answers of sky-agent/app/agent/nodes/execute_tool.py to an exception of the tool, and the
-- node of sky-agent/app/agent/nodes/confirmed.py. The audit events and the rollback of the
-- session are left out.
use cang_qiong_project.Common.{
  String, ◌≡◌, refl, ap, ◌∙◌, ◌↔◌, Bool, true, false, ◌||◌, Option, none, some, arith,
  if◌then◌else◌, is_some,
}
use cang_qiong_project.Resilience.Failure.{
  Failure, FailureCategory, kind, Kind, of_resilience, of_tool, of_timeout, of_value, of_database,
  of_other,
}
use cang_qiong_project.Services.Idempotency.{ToolFailure}
use cang_qiong_project.Policies.{PendingAction, PendingActionStatus}
use cang_qiong_project.Agent.State.{AgentState, ToolExecutionStatus}
use cang_qiong_project.Agent.Schemas.{AgentErrorCategory}
use cang_qiong_project.Agent.Errors.Attribution.{unknown_outcome_is_attributed}
use cang_qiong_project.Agent.Errors.{
  tool, RuntimeError, failure, business, connection_error, failure_value, classify_runtime_error,
  is_unknown_write,
}

unknown_outcome : AgentState → AgentState
unknown_outcome s = record s {
  last_error = some "The write outcome could not be confirmed.";
  error_category = some AgentErrorCategory.unknown_write_outcome;
  failure_category = some "tool_timeout";
  recovery_action = some "no_replay";
  write_outcome_unknown = true;
  tool_execution_status = some ToolExecutionStatus.failed;
}

-- `RetryExhaustedError` and the other errors of the resilience controls.
unreachable : AgentState → RuntimeError → FailureCategory → AgentState
unfolding classify_runtime_error failure_value
unreachable s e c = record s {
  last_error = some "The selected dependency could not be reached reliably.";
  error_category = some (classify_runtime_error e tool).category;
  failure_category = some (failure_value c);
  recovery_action = some "fail_safely";
  tool_execution_status = some ToolExecutionStatus.failed;
}

-- The last two handlers, which differ in the text.
not_executed : AgentState → RuntimeError → String → AgentState
unfolding classify_runtime_error
not_executed s e message = record s {
  last_error = some message;
  error_category = some (classify_runtime_error e tool).category;
  failure_category = (classify_runtime_error e tool).failure_category;
  tool_execution_status = some ToolExecutionStatus.failed;
}

unclassified : String
unclassified = "The selected tool could not be executed."

answer_kind : AgentState → Failure → Kind → String → AgentState
unfolding unreachable not_executed unclassified
answer_kind s e (of_resilience c) text = unreachable s (failure e) c
answer_kind s e of_tool text = not_executed s (failure e) text
answer_kind s e _ text = not_executed s (failure e) unclassified

-- Every error of a tool but the `IntegrityError` is a `ToolError`.
is_tool_error : ToolFailure → Bool
is_tool_error ToolFailure.integrity_error = false
is_tool_error _ = true

-- The handlers of `execute_tool`; `text` is the text of the exception.
unfoldable pub answer_error : AgentState → RuntimeError → String → AgentState
unfolding unknown_outcome not_executed unclassified answer_kind kind is_unknown_write is_tool_error
answer_error s (failure e) text =
    if is_unknown_write (failure e) then unknown_outcome s else answer_kind s e (kind e) text
answer_error s (business e) text =
    not_executed s (business e) (if is_tool_error e then text else unclassified)
answer_error s connection_error text = not_executed s connection_error unclassified

final_status : Option ToolExecutionStatus → PendingActionStatus
final_status (some ToolExecutionStatus.executed) = PendingActionStatus.executed
final_status _ = PendingActionStatus.failed

conclude : Option PendingAction → AgentState → AgentState
unfolding final_status
conclude none r = r
conclude (some action) r = record r {
  pending_action = some (record action { status = final_status r.tool_execution_status });
}

-- `execute_confirmed`, around a node that executes the tool.
unfoldable pub execute_confirmed : (AgentState → AgentState) → AgentState → AgentState
unfolding conclude
execute_confirmed execute s = conclude s.pending_action (execute s)

-- What the handlers leave, by whether an outcome was unknown `before` and whether the exception
-- makes one `unknown`.
pub record IsFailed (r : AgentState) (before unknown : Bool) : Type 0 where
  pub stopped : r.tool_execution_status ≡ some ToolExecutionStatus.failed
  pub failed : is_some r.error_category ≡ true
  pub blamed : (r.error_category ≡ some AgentErrorCategory.unknown_write_outcome) ↔ (unknown ≡ true)
  pub marked : r.write_outcome_unknown ≡ (unknown || before)
  pub advised : (unknown ≡ true) → r.recovery_action ≡ some "no_replay"

blame_is_known :
    (e : RuntimeError)
    → is_unknown_write e ≡ false
    → (some (classify_runtime_error e tool).category
        ≡ some AgentErrorCategory.unknown_write_outcome)
      ↔ (false ≡ true)
blame_is_known e n = ground (arith, unknown_outcome_is_attributed e tool, n)

not_executed-IsFailed :
    (s : AgentState) (e : RuntimeError) (text : String)
    → is_unknown_write e ≡ false
    → IsFailed (not_executed s e text) s.write_outcome_unknown false
unfolding not_executed
not_executed-IsFailed s e text n = record {
  stopped = refl;
  failed = refl;
  blamed = blame_is_known e n;
  marked = refl;
  advised = λ t. ground arith;
}

unreachable-IsFailed :
    (s : AgentState) (e : RuntimeError) (c : FailureCategory)
    → is_unknown_write e ≡ false
    → IsFailed (unreachable s e c) s.write_outcome_unknown false
unfolding unreachable
unreachable-IsFailed s e c n = record {
  stopped = refl;
  failed = refl;
  blamed = blame_is_known e n;
  marked = refl;
  advised = λ t. ground arith;
}

answer_kind-IsFailed :
    (s : AgentState) (e : Failure) (k : Kind) (text : String)
    → is_unknown_write (failure e) ≡ false
    → IsFailed (answer_kind s e k text) s.write_outcome_unknown false
unfolding answer_kind
answer_kind-IsFailed s e (of_resilience c) text n = unreachable-IsFailed s (failure e) c n
answer_kind-IsFailed s e of_tool text n = not_executed-IsFailed s (failure e) text n
answer_kind-IsFailed s e of_timeout text n = not_executed-IsFailed s (failure e) _ n
answer_kind-IsFailed s e of_value text n = not_executed-IsFailed s (failure e) _ n
answer_kind-IsFailed s e of_database text n = not_executed-IsFailed s (failure e) _ n
answer_kind-IsFailed s e of_other text n = not_executed-IsFailed s (failure e) _ n

unknown_outcome-IsFailed :
    (s : AgentState) → IsFailed (unknown_outcome s) s.write_outcome_unknown true
unfolding unknown_outcome
unknown_outcome-IsFailed s = record {
  stopped = refl;
  failed = refl;
  blamed = (λ t. refl, λ t. refl);
  marked = refl;
  advised = λ t. refl;
}

either-IsFailed :
    {r r' : AgentState} (before b : Bool)
    → IsFailed r before true
    → (b ≡ false → IsFailed r' before false)
    → IsFailed (if b then r else r') before b
either-IsFailed before true h h' = h
either-IsFailed before false h h' = h' refl

answer_error-IsFailed :
    (s : AgentState) (e : RuntimeError) (text : String)
    → IsFailed (answer_error s e text) s.write_outcome_unknown (is_unknown_write e)
unfolding answer_error is_unknown_write
answer_error-IsFailed s (failure e) text =
    either-IsFailed s.write_outcome_unknown (is_unknown_write (failure e))
      (unknown_outcome-IsFailed s) (answer_kind-IsFailed s e (kind e) text)
answer_error-IsFailed s (business e) text = not_executed-IsFailed s (business e) _ refl
answer_error-IsFailed s connection_error text = not_executed-IsFailed s connection_error _ refl

conclude-IsFailed :
    (o : Option PendingAction) (r : AgentState) (before unknown : Bool)
    → IsFailed r before unknown
    → IsFailed (conclude o r) before unknown
unfolding conclude
conclude-IsFailed none r before unknown h = h
conclude-IsFailed (some action) r before unknown h = record {
  stopped = h.stopped;
  failed = h.failed;
  blamed = h.blamed;
  marked = h.marked;
  advised = h.advised;
}

conclude-failed :
    (action : PendingAction) (r : AgentState) (before unknown : Bool)
    → IsFailed r before unknown
    → (conclude (some action) r).pending_action
      ≡ some (record action { status = PendingActionStatus.failed })
unfolding conclude final_status
conclude-failed action r before unknown h =
    ap (λ status. some (record action { status = final_status status })) h.stopped

-- The action that is held when its tool raises an exception ends as failed, with nothing else of it
-- changed; the state has an error category and no executed tool.
-- The category is that of an unknown outcome exactly when the exception is an
-- `UnknownWriteOutcomeError`; then the outcome is marked as unknown and the advice is not to replay
-- the write, and otherwise the mark stays as it was.
pub failed_action_is_settled :
    (s : AgentState) (e : RuntimeError) (text : String) (action : PendingAction)
    → s.pending_action ≡ some action
    → ((execute_confirmed (λ t. answer_error t e text) s).pending_action
        ≡ some (record action { status = PendingActionStatus.failed }))
      × IsFailed
          (execute_confirmed (λ t. answer_error t e text) s)
          s.write_outcome_unknown
          (is_unknown_write e)
unfolding execute_confirmed
failed_action_is_settled s e text action held = (
  ap (λ o. (conclude o (answer_error s e text)).pending_action) held
      ∙ conclude-failed action (answer_error s e text) s.write_outcome_unknown (is_unknown_write e)
          failed,
  conclude-IsFailed s.pending_action (answer_error s e text) s.write_outcome_unknown
      (is_unknown_write e) failed,
)
  where
    failed : IsFailed (answer_error s e text) s.write_outcome_unknown (is_unknown_write e)
    failed = answer_error-IsFailed s e text
