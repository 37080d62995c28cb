-- ===== src/Bundle.antt =====
-- tools/bundlectl/bundlectl.py, the tool that signs, verifies, stages and compares bundles.
pub mod Archive
pub mod Verify
pub mod Commands
pub mod Accepts
pub mod Integrity
pub mod Export
pub mod Staging
pub mod Diff
pub mod Compared
mod Tests
