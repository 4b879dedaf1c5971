-- ===== src/Terminal/Bridge.antt =====
-- apps/server/src/terminal-websocket-bridge.ts: the browser's WebSocket joined to the agent's
-- local socket. The closure's variables are a record, a callback is a step on an event, and what
-- the code does to the outside is logged, the newest first.
-- `Env` holds what the platform answers while one frame or event is handled: the clock, the
-- sockets' buffers, and which calls throw. A timer field says whether the timer is armed.
pub mod State
pub mod Finish
pub mod Handlers
pub mod Events
pub mod Log
pub mod Invariant
pub mod Handled
pub mod Reachable
pub mod Cleanup
pub mod Final
pub mod Input
pub mod Forwarding
