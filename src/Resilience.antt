-- ===== src/Resilience.antt =====
-- sky-agent/app/resilience: failure categories, the per-replica controls and the retry loop.
pub mod Window
pub mod Failure
pub mod Config
pub mod Circuit
pub mod Control
pub mod Retry
