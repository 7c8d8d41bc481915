-- ===== src/Agent.antt =====
-- sky-agent/app/agent: the graph of nodes, and the compiler of semantic decisions.
pub mod Schemas
pub mod Graph
pub mod State
pub mod Messages
pub mod Workflow
pub mod Security
pub mod Errors
pub mod Catalog
pub mod Pending
pub mod Target
pub mod Compiler
