-- ===== src/Docker.antt =====
-- The agent's reading of Docker's events.
pub mod Stream
pub mod Reader
pub mod Tests
