-- ===== src/Owner.antt =====
-- apps/server/src/cloudflare-access-owner-auth.ts: whether an assertion of Cloudflare Access comes
-- from the dashboard's owner.
pub mod Strings
pub mod Config
pub mod Constructed
pub mod Jwt
pub mod Claims
pub mod Keys
pub mod Verifier
pub mod Tests
