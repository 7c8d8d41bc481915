-- ===== src/Agent/Errors/Attribution.antt =====
-- To whom sky-agent/app/agent/errors.py attributes an exception.
use cang_qiong_project.Common.{◌≡◌, ◌≢◌, ◌↔◌, true, arith}
use cang_qiong_project.Resilience.Failure.{Failure, Kind, kind}
use cang_qiong_project.Services.Idempotency.{ToolFailure}
use cang_qiong_project.Agent.Schemas.{AgentErrorCategory}
use cang_qiong_project.Agent.Errors.{
  RuntimeFailureSource, RuntimeError, failure, business, connection_error,
  RuntimeErrorClassification, is_unknown_write, classify_runtime_error, by_source, classify_kind,
  classify_connection, classify_business, known_tool_category, llm_or_dependency, tool_failure,
  internal_failure,
}

by_source-category :
    (c : RuntimeErrorClassification) (source : RuntimeFailureSource)
    → c.category ≢ AgentErrorCategory.unknown_write_outcome
    → (by_source c source).category ≢ AgentErrorCategory.unknown_write_outcome
unfolding by_source
by_source-category c source h = ground arith

classify_kind-category :
    (e : Failure) (k : Kind) (source : RuntimeFailureSource)
    → (classify_kind e k source).category ≢ AgentErrorCategory.unknown_write_outcome
unfolding classify_kind by_source llm_or_dependency tool_failure internal_failure
classify_kind-category e k source = ground arith

classify_business-category :
    (e : ToolFailure) (source : RuntimeFailureSource)
    → (classify_business e (known_tool_category e) source).category
      ≢ AgentErrorCategory.unknown_write_outcome
unfolding classify_business by_source known_tool_category classify_kind
classify_business-category e source = ground arith

classify_connection-category :
    (source : RuntimeFailureSource)
    → (classify_connection source).category ≢ AgentErrorCategory.unknown_write_outcome
unfolding classify_connection
classify_connection-category source = ground arith

-- An exception is categorised as an unknown outcome of a write exactly when it is an
-- `UnknownWriteOutcomeError`, whatever the source is.
pub unknown_outcome_is_attributed :
    (e : RuntimeError) (source : RuntimeFailureSource)
    → (classify_runtime_error e source).category ≡ AgentErrorCategory.unknown_write_outcome
      ↔ is_unknown_write e ≡ true
unfolding classify_runtime_error is_unknown_write
unknown_outcome_is_attributed (failure e) source =
    ground (arith, classify_kind-category e (kind e) source)
unknown_outcome_is_attributed (business e) source =
    ground (arith, classify_business-category e source)
unknown_outcome_is_attributed connection_error source =
    ground (arith, classify_connection-category source)
