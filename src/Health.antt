-- ===== src/Health.antt =====
-- services/health/app/main.py, the health service.
pub mod Heartbeats
pub mod Latest
mod Tests
