-- ===== src/Agent/Errors.antt =====
-- sky-agent/app/agent/errors.py: the category that an exception has at the boundary where it is
-- observed.
pub mod Attribution
pub mod Answer
use cang_qiong_project.Common.{String, Bool, true, false, Option, none, some, if◌then◌else◌}
use cang_qiong_project.Resilience.Failure.{
  FailureCategory, Failure, Kind, of_resilience, of_timeout, of_value, of_database, of_tool,
  of_other, kind, classify_failure,
}
use cang_qiong_project.Services.Idempotency.{ToolFailure}
use cang_qiong_project.Agent.Schemas.{AgentErrorCategory}

pub data RuntimeFailureSource : Type 0 where
  llm tool dependency memory policy audit projection checkpoint runtime : RuntimeFailureSource

-- The values of the two members that `classify_runtime_error` passes on as a dependency.
abbrev dependency_of : RuntimeFailureSource → String
dependency_of llm = "llm"
dependency_of tool = "tool"
dependency_of _ = "database"

pub record RuntimeErrorClassification : Type 0 where
  pub category : AgentErrorCategory
  pub failure_category : Option String

-- An exception of a dependency, an error of a business tool, or a `ConnectionError`.
pub data RuntimeError : Type 0 where
  failure : Failure → RuntimeError
  business : ToolFailure → RuntimeError
  connection_error : RuntimeError

-- The text of a `FailureCategory`, which is a `StrEnum`.
unfoldable pub failure_value : FailureCategory → String
failure_value FailureCategory.llm_timeout = "llm_timeout"
failure_value FailureCategory.llm_unavailable = "llm_unavailable"
failure_value FailureCategory.llm_malformed_output = "llm_malformed_output"
failure_value FailureCategory.database_transient = "database_transient"
failure_value FailureCategory.database_unavailable = "database_unavailable"
failure_value FailureCategory.tool_timeout = "tool_timeout"
failure_value FailureCategory.tool_transient_failure = "tool_transient_failure"
failure_value FailureCategory.tool_permanent_failure = "tool_permanent_failure"
failure_value FailureCategory.retrieval_timeout = "retrieval_timeout"
failure_value FailureCategory.retrieval_unavailable = "retrieval_unavailable"
failure_value FailureCategory.retrieval_empty = "retrieval_empty"
failure_value FailureCategory.reranker_failure = "reranker_failure"
failure_value FailureCategory.embedding_failure = "embedding_failure"
failure_value FailureCategory.policy_failure = "policy_failure"
failure_value FailureCategory.memory_failure = "memory_failure"
failure_value FailureCategory.unknown_dependency_failure = "unknown_dependency_failure"
failure_value FailureCategory.circuit_open = "circuit_open"
failure_value FailureCategory.bulkhead_rejected = "bulkhead_rejected"
failure_value FailureCategory.rate_limited = "rate_limited"
failure_value FailureCategory.retry_budget_exhausted = "retry_budget_exhausted"

-- `UnknownWriteOutcomeError`
unfoldable pub is_unknown_write : RuntimeError → Bool
is_unknown_write (failure (Failure.unknown_write_outcome name)) = true
is_unknown_write _ = false

-- `_known_tool_category`; an `IntegrityError` is of the database.
unfoldable known_tool_category : ToolFailure → Option AgentErrorCategory
known_tool_category (ToolFailure.resource_not_found resource id) =
    some AgentErrorCategory.resource_not_found
known_tool_category (ToolFailure.ownership_error resource id customer) =
    some AgentErrorCategory.ownership_violation
known_tool_category (ToolFailure.invalid_state_transition id) =
    some AgentErrorCategory.invalid_state
known_tool_category ToolFailure.duplicate_action = some AgentErrorCategory.duplicate_action
known_tool_category ToolFailure.integrity_error = none

unfoldable llm_or_dependency : RuntimeFailureSource → AgentErrorCategory
llm_or_dependency llm = AgentErrorCategory.llm_error
llm_or_dependency _ = AgentErrorCategory.dependency_error

-- The tests on the source that follow the `isinstance` tests; the classification that the tool has
-- for the exception is given.
unfoldable by_source :
    RuntimeErrorClassification → RuntimeFailureSource → RuntimeErrorClassification
by_source of_the_tool llm = record {
  category = AgentErrorCategory.llm_error;
  failure_category = some "llm_unavailable";
}
by_source of_the_tool tool = of_the_tool
by_source of_the_tool dependency = record {
  category = AgentErrorCategory.dependency_error;
  failure_category = none;
}
by_source of_the_tool audit = record {
  category = AgentErrorCategory.dependency_error;
  failure_category = none;
}
by_source of_the_tool projection = record {
  category = AgentErrorCategory.dependency_error;
  failure_category = none;
}
by_source of_the_tool checkpoint = record {
  category = AgentErrorCategory.dependency_error;
  failure_category = none;
}
by_source of_the_tool _ = record {
  category = AgentErrorCategory.internal_error;
  failure_category = some "internal_error";
}

unfoldable tool_failure : RuntimeErrorClassification
tool_failure = record {
  category = AgentErrorCategory.tool_error;
  failure_category = some "tool_failure";
}

-- What the tool makes of an exception that is neither a `ToolError` nor a `ValueError`.
unfoldable internal_failure : RuntimeErrorClassification
internal_failure = record {
  category = AgentErrorCategory.internal_error;
  failure_category = some "internal_error";
}

unfoldable is_value_error : Failure → Bool
is_value_error Failure.value_error = true
is_value_error _ = false

-- A `TypeError` and the exceptions of no class that `classify_runtime_error` tests fall through.
unfoldable classify_kind : Failure → Kind → RuntimeFailureSource → RuntimeErrorClassification
unfolding failure_value llm_or_dependency by_source tool_failure internal_failure is_value_error
classify_kind e (of_resilience c) source = record {
  category = llm_or_dependency source;
  failure_category = some (failure_value c);
}
classify_kind e of_timeout source = record {
  category = llm_or_dependency source;
  failure_category = some (failure_value (classify_failure e (dependency_of source) "write"));
}
classify_kind e of_database source = record {
  category = AgentErrorCategory.dependency_error;
  failure_category = some (failure_value (classify_failure e "database" "write"));
}
classify_kind e of_tool source = by_source tool_failure source
classify_kind e of_value source =
    by_source (if is_value_error e then tool_failure else internal_failure) source
classify_kind e of_other source = by_source internal_failure source

unfoldable classify_business :
    ToolFailure → Option AgentErrorCategory → RuntimeFailureSource → RuntimeErrorClassification
unfolding by_source classify_kind
classify_business e (some c) source =
    by_source (record { category = c; failure_category = none }) source
classify_business e none source = classify_kind Failure.dbapi_error of_database source

unfoldable classify_connection : RuntimeFailureSource → RuntimeErrorClassification
classify_connection llm = record {
  category = AgentErrorCategory.llm_error;
  failure_category = some "llm_unavailable";
}
classify_connection _ = record {
  category = AgentErrorCategory.dependency_error;
  failure_category = some "unknown_dependency_failure";
}

unfoldable pub classify_runtime_error :
    RuntimeError → RuntimeFailureSource → RuntimeErrorClassification
unfolding kind failure_value known_tool_category classify_kind classify_business classify_connection
classify_runtime_error (failure (Failure.unknown_write_outcome name)) source = record {
  category = AgentErrorCategory.unknown_write_outcome;
  failure_category = some "tool_timeout";
}
classify_runtime_error (failure e) source = classify_kind e (kind e) source
classify_runtime_error (business e) source = classify_business e (known_tool_category e) source
classify_runtime_error connection_error source = classify_connection source
