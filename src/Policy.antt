-- ===== src/Policy.antt =====
-- services/policy/app/main.py, the attribute-based access policy service.
pub mod Engine
pub mod Decides
pub mod Conditions
pub mod Evaluation
pub mod Verdicts
pub mod Service
pub mod Failures
mod Tests
