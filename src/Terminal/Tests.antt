-- ===== src/Terminal/Tests.antt =====
-- Concrete runs of the terminal's code, and the theorems at them.
pub mod Session
pub mod Admission
pub mod Streams
pub mod Frames
pub mod Bridge
pub mod Input
pub mod Heartbeat
pub mod Agent
pub mod Native
