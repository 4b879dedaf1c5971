-- ===== src/Terminal.antt =====
-- The web terminal: apps/server/src/terminal-*.ts and apps/terminal-agent/src/*.ts.
pub mod Session
pub mod Platform
pub mod Lines
pub mod Admission
pub mod Chunks
pub mod Protocol
pub mod Wire
pub mod Agent
pub mod Bridge
pub mod Heartbeat
pub mod Tests
