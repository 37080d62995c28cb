-- ===== src/Reconcile.antt =====
-- services/mgmt-api/app/reconcile.py: the configuration, written into the database.
pub mod Sorting
pub mod Rows
pub mod Settling
pub mod Issuing
pub mod Mapping
pub mod Upsert
pub mod Passes
pub mod Idempotence
pub mod Loop
pub mod Served
mod Tests
