-- ===== src/Server.antt =====
-- apps/server/src/terminal-runtime.ts: what joins the owner's authentication, the registry of
-- sessions and the two gates.
pub mod Wiring
pub mod Requests
pub mod Admitting
pub mod Created
pub mod Kept
pub mod Traced
pub mod Tests
