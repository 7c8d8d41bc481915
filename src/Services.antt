-- ===== src/Services.antt =====
-- sky-agent/app/services.
pub mod Idempotency
pub mod Lookup
