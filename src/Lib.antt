-- ===== src/Lib.antt =====
-- The core of sky-agent, the customer-service agent of the CangQiong project (directory
-- sky-agent/app): a message becomes a semantic decision of a language model, the compiler makes a
-- tool call of it, the policy admits, delays or refuses the call, and the tool writes to the shop's
-- database once for each idempotency key. Calls of dependencies run under retries, circuits,
-- bulkheads and rate limits.
--
-- Parts and files:
-- - Common: Boolean tests, lists, results and dictionaries that all parts share.
-- - Core: `Principal` of sky-agent/app/auth/models.py and `ExecutionContext` with its validator, of
--   sky-agent/app/core/context.py. Core/Scope is about the contexts that are accepted.
-- - Models: the tables of sky-agent/app/models/entities.py. A `Session` holds their rows, newest
--   first, and the next primary key.
-- - Services: the lookups of sky-agent/app/services (Services/Lookup), and `execute_idempotent` of
--   sky-agent/app/services/idempotency.py (Services/Idempotency).
-- - Tools: the registry of sky-agent/app/tools, and the tools (Tools/Customers, Tools/Orders,
--   Tools/Refunds, Tools/Tickets, Tools/Escalations), with child files for what is proved of them.
-- - Policies: the decision of sky-agent/app/policies/rules.py on a tool call (Policies/Rules), and the
--   answers, the expiry and the owner of a pending action, of policies/confirmation.py
--   (Policies/Confirmation).
-- - Resilience: sky-agent/app/resilience. The exceptions and their classification (Failure), the
--   configuration (Config), the sliding windows (Window), one circuit (Circuit), the controller with
--   all its dictionaries (Control), and the retry loop (Retry, with its delays in Retry/Delay and one
--   attempt in Retry/Once).
-- - Agent: sky-agent/app/agent. The schemas (Agent/Schemas), the edges of graph.py (Agent/Graph), the
--   grounding and admissibility of a target (Agent/Target) and decision_compiler.py (Agent/Compiler).
--   Agent/State holds the fields of state.py that the nodes of agent/nodes read and write; a node is
--   a function from this state to the state that the source's update leaves. Agent/Messages reads
--   messages, Agent/Security is the security boundary, Agent/Catalog is tool_catalog.py with the
--   validation of arguments, Agent/Errors is errors.py with the answers of the nodes execute_tool and
--   confirmed to an exception (Agent/Errors/Answer), Agent/Pending the nodes of a pending action (check, create, restore,
--   revalidate, and the payload between them), and Agent/Workflow the interruption, the resumption
--   and the answers of a workflow.
-- - Tests: runs on concrete inputs.
--
-- How state and operations correspond. A function that changes state takes it and returns it beside
-- its result. An exception is the error of a `Result`; what was written before it stays in the state
-- that is returned, except in a savepoint, which is undone. A method of `ReliabilityController` runs
-- under its lock, so several threads are a list of operations in the order of the lock. The source
-- reads the clock before it takes the lock, so between threads the times of that list need not rise;
-- where a theorem asks for rising times, it says so. `Request` has one configuration and one clock
-- for the retry loop and its controller, which the source lets differ. `execute_idempotent`
-- takes two functions from sessions to sessions that stand for whatever other transactions commit
-- meanwhile: before its work reads, and before its rows are flushed.
--
-- Units and numbers. Python's integers are natural numbers here, and where a difference could fall
-- below 0 the comparison is written with a sum. Seconds are whole nanoseconds, backoffs whole
-- milliseconds, and ratios and random samples whole thousandths; their products are exact, where the
-- source rounds floats. A customer number that is not positive is 0.
--
-- Parameters stand for code outside the repository: the digests behind identities and payloads, the
-- clock, the random source, JSON, the coercions of Pydantic, and Python's text operations and regular
-- expressions. The operation of the retry loop is a parameter, as in the source, and so is what a
-- node of the graph does to the state, so that what holds of the graph holds for every body of its
-- nodes.
--
-- Fuel. A run of the graph has fuel; fifteen nodes are enough, since each edge lowers a bound that
-- starts at fifteen. The retry loop recurses on the attempts that are left.
--
-- Not modelled: metrics, tracing and logging, whose calls change none of this state; the part
-- of the node execute_tool that calls the tool and commits, and the nodes of replies, of retrieval and of memory; memory and retrieval;
-- the audit of decisions; the providers of language models; authentication and the API; the user
-- interface; the checkpoints and migrations of the database; and the Java modules of the repository.
pub mod Common
pub mod Core
pub mod Models
pub mod Services
pub mod Tools
pub mod Policies
pub mod Resilience
pub mod Agent
pub mod Tests
