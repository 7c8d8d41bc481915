-- ===== src/Resilience/Failure.antt =====
-- sky-agent/app/resilience/errors.py and classification.py.
use cang_qiong_project.Common.{ℕ, String, Bool, true, false, ◌=ₛ◌, if◌then◌else◌}

pub data FailureCategory : Type 0 where
  llm_timeout llm_unavailable llm_malformed_output : FailureCategory
  database_transient database_unavailable : FailureCategory
  tool_timeout tool_transient_failure tool_permanent_failure : FailureCategory
  retrieval_timeout retrieval_unavailable retrieval_empty : FailureCategory
  reranker_failure embedding_failure policy_failure memory_failure : FailureCategory
  unknown_dependency_failure circuit_open bulkhead_rejected rate_limited : FailureCategory
  retry_budget_exhausted : FailureCategory

-- The `Retry-After` header of an HTTP error, as `float` or `parsedate_to_datetime` reads it.
pub data RetryAfter : Type 0 where
  absent : RetryAfter
  seconds : ℕ → RetryAfter
  negative_seconds : RetryAfter
  http_date : ℕ → RetryAfter
  unreadable : RetryAfter

-- The exceptions that the handlers tell apart. The resilience errors come first.
pub data Failure : Type 0 where
  resilience : FailureCategory → Failure
  retry_exhausted : FailureCategory → ℕ → Failure
  circuit_open_error : String → Failure
  bulkhead_rejected_error : String → Failure
  rate_limit_exceeded : String → ℕ → Failure
  retry_budget_exhausted_error : String → Failure
  unknown_write_outcome : String → Failure
  timeout_error : Failure
  value_error : Failure
  type_error : Failure
  operational_error : Failure
  dbapi_error : Failure
  tool_error : Failure
  http_status_error : RetryAfter → Failure
  index_error : Failure
  assertion_error : Failure
  other_error : Failure

pub data Kind : Type 0 where
  of_resilience : FailureCategory → Kind
  of_timeout of_value of_database of_tool of_other : Kind

-- The `isinstance` tests of `classify_failure`; a resilience error carries its category.
unfoldable pub kind : Failure → Kind
kind (resilience c) = of_resilience c
kind (retry_exhausted c attempts) = of_resilience c
kind (circuit_open_error service) = of_resilience circuit_open
kind (bulkhead_rejected_error service) = of_resilience bulkhead_rejected
kind (rate_limit_exceeded scope after) = of_resilience rate_limited
kind (retry_budget_exhausted_error service) = of_resilience retry_budget_exhausted
kind (unknown_write_outcome tool) = of_resilience tool_timeout
kind timeout_error = of_timeout
kind value_error = of_value
kind type_error = of_value
kind operational_error = of_database
kind dbapi_error = of_database
kind tool_error = of_tool
kind (http_status_error after) = of_other
kind index_error = of_other
kind assertion_error = of_other
kind other_error = of_other

-- The tests on the dependency that follow the `isinstance` tests.
unfoldable pub by_dependency : String → String → FailureCategory
by_dependency dependency operation =
    if dependency =ₛ "retrieval"
    then retrieval_unavailable
    else if dependency =ₛ "memory"
    then memory_failure
    else if dependency =ₛ "policy"
    then policy_failure
    else if dependency =ₛ "llm"
    then llm_unavailable
    else if dependency =ₛ "tool"
    then (if operation =ₛ "read" then tool_transient_failure else tool_permanent_failure)
    else unknown_dependency_failure

classify_kind : Kind → String → String → FailureCategory
unfolding by_dependency
classify_kind (of_resilience c) dependency operation = c
classify_kind of_timeout dependency operation =
    if dependency =ₛ "llm"
    then llm_timeout
    else if dependency =ₛ "retrieval"
    then retrieval_timeout
    else if dependency =ₛ "tool"
    then tool_timeout
    else unknown_dependency_failure
classify_kind of_value dependency operation =
    if dependency =ₛ "llm"
    then llm_malformed_output
    else if dependency =ₛ "tool"
    then tool_permanent_failure
    else by_dependency dependency operation
classify_kind of_database dependency operation =
    if dependency =ₛ "database" then database_unavailable else database_transient
classify_kind of_tool dependency operation = tool_permanent_failure
classify_kind of_other dependency operation = by_dependency dependency operation

unfoldable pub classify_failure : Failure → String → String → FailureCategory
unfolding kind classify_kind
classify_failure error dependency operation = classify_kind (kind error) dependency operation

-- The set of the categories that may be tried again.
unfoldable pub is_replayable : FailureCategory → Bool
is_replayable llm_timeout = true
is_replayable llm_unavailable = true
is_replayable database_transient = true
is_replayable database_unavailable = true
is_replayable tool_timeout = true
is_replayable tool_transient_failure = true
is_replayable retrieval_timeout = true
is_replayable retrieval_unavailable = true
is_replayable embedding_failure = true
is_replayable _ = false

unfoldable pub is_retryable : FailureCategory → String → Bool
unfolding is_replayable
is_retryable category operation = if operation =ₛ "write" then false else is_replayable category
