-- ===== src/Processes.antt =====
-- services/gateway/app and services/compositor/app: the two services that run GStreamer pipelines.
pub mod Table
pub mod Gateway
pub mod Compositor
pub mod Retained
pub mod Running
pub mod Access
pub mod Mosaic
pub mod Cells
mod Tests
