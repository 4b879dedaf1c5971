-- ===== src/Terminal/Wire/Decoding.antt =====
-- The server's line decoder against the loop that it shares with the agent's.
use dashboard_rpi.Terminal.Platform.{Platform}
