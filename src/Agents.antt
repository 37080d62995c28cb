-- ===== src/Agents.antt =====
-- agents: what the agents on the wall controllers and the source hosts share, and the agents.
pub mod Http
pub mod Retries
pub mod Wallctl
pub mod Encoder
pub mod Watchdog
pub mod Players
pub mod Sourcereg
pub mod Endpoint
pub mod Registered
mod Tests
