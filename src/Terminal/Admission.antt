-- ===== src/Terminal/Admission.antt =====
-- apps/server/src/terminal-session-admission.ts and terminal-websocket-admission.ts: who may
-- create a terminal session, and who may attach a WebSocket to it.
-- The owner check of the Cloudflare assertion is a parameter: the verifier's answer.
pub mod Header
pub mod Parsing
pub mod Gate
pub mod Policy
pub mod Upgrade
