-- ===== src/Audit.antt =====
-- services/audit/app/main.py, the tamper-evident audit log.
pub mod Chain
pub mod Linked
pub mod Ingest
pub mod Partial
pub mod Tamper
mod Tests
pub mod Query
