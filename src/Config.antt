-- ===== src/Config.antt =====
-- services/vw-config/app/config_authority.py, the configuration authority.
pub mod Data
pub mod Semantic
pub mod Derived
pub mod Loader
pub mod Validity
pub mod Watcher
pub mod LastGood
pub mod Sample
mod Tests
pub mod DryRun
pub mod Api
pub mod Json
pub mod Handlers
pub mod Available
