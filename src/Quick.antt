-- ===== src/Quick.antt =====
-- apps/agent/src/quick-commands.ts: the commands that the dashboard may run on the host, and the
-- life of such a command's process.
pub mod Command
pub mod Child
pub mod Tests
