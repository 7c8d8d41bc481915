-- ===== src/Agent/Pending.antt =====
-- sky-agent/app/agent/nodes: the nodes that hold a write back for the user's confirmation.
pub mod Check
pub mod Payload
pub mod Create
pub mod Restore
pub mod Revalidate
