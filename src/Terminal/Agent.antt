-- ===== src/Terminal/Agent.antt =====
-- The terminal agent, apps/terminal-agent/src.
pub mod Protocol
pub mod Output
pub mod Peer
pub mod Session
pub mod Native
