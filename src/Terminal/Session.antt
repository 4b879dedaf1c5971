-- ===== src/Terminal/Session.antt =====
-- apps/server/src/terminal-session-security.ts: the in-memory registry of terminal sessions.
-- Times are whole milliseconds of the clock; a reading that `#readNow` refuses is `invalid`. The
-- default clock, performance.now(), also reads fractions of a millisecond, which are left out.
-- Tokens are texts, and the token factory is a stream: its n-th call in one `createSession`.
pub mod Boundary
pub mod Registry
pub mod Calls
pub mod Maps
pub mod History
pub mod Limits
pub mod Tokens
pub mod Lifetime
pub mod Slot
pub mod Refinement
