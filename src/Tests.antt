-- ===== src/Tests.antt =====
-- Runs of the models at concrete inputs, and the witnesses of the theorems.
mod Demo
mod DemoLaws
pub mod Buffers
mod Mail
mod Net
mod Connections
mod Forks
mod Files
mod Sessions
mod Replies
