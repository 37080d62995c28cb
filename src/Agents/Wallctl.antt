-- ===== src/Agents/Wallctl.antt =====
-- agents/wallctl/vw_wallctl.py, the agent that runs a wall's tile players.
pub mod Settings
pub mod State
pub mod Tokens
pub mod Streams
pub mod Tiles
pub mod Layout
pub mod Players
pub mod Running
pub mod Rounds
pub mod Dark
pub mod Caches
mod Tests
