-- ===== src/Terminal/Heartbeat.antt =====
-- apps/server/src/terminal-websocket-heartbeat.ts: pings of the browser's WebSocket. A timer is
-- the time at which it fires, and the closure's variables are a record.
pub mod Beating
use dashboard_rpi.Common.{
  ℕ, ◌+◌, Bool, true, false, Option, none, some, List, [], ◌∷◌, leb, if◌then◌else◌,
}

abbrev pub interval_ms : ℕ
interval_ms = 25000

abbrev pub pong_timeout_ms : ℕ
pong_timeout_ms = 10000

-- `pings` and `terminations` count the calls of the socket's methods that did not throw, or that
-- were asked for.
pub record Heartbeat : Type 0 where
  pub closed : Bool
  pub heartbeat_timer : Option ℕ
  pub pong_timer : Option ℕ
  pub pings : ℕ
  pub terminations : ℕ

-- What can happen: a timer's callback, with whether `ping` throws, a pong, or the socket's end.
pub data Event : Type 0 where
  heartbeat_due : (ping_throws : Bool) → Event
  pong_due pong gone : Event

-- `stop`, which `close` and `error` call.
unfoldable pub stop : Heartbeat → Heartbeat
stop h =
    if h.closed then h else record h { closed = true; heartbeat_timer = none; pong_timer = none }

-- `terminate`.
unfoldable pub terminate : Heartbeat → Heartbeat
unfolding stop
terminate h = if h.closed then h else record (stop h) { terminations = h.terminations + 1 }

-- `scheduleHeartbeat`.
unfoldable pub schedule_heartbeat : ℕ → Heartbeat → Heartbeat
schedule_heartbeat now h =
    if h.closed then h else record h { heartbeat_timer = some (now + interval_ms) }

-- The callback of the heartbeat's timer.
unfoldable pub beat : ℕ → Bool → Heartbeat → Heartbeat
unfolding terminate schedule_heartbeat
beat now ping_throws h =
    if h.closed
    then record h { heartbeat_timer = none }
    else if ping_throws
    then terminate (record h { heartbeat_timer = none })
    else schedule_heartbeat now (record h {
      heartbeat_timer = none;
      pong_timer = some (now + pong_timeout_ms);
      pings = h.pings + 1;
    })

-- A timer that is due: armed for this time or an earlier one.
unfoldable pub is_due : ℕ → Option ℕ → Bool
is_due now none = false
is_due now (some d) = leb d now

unfoldable pub step : ℕ → Event → Heartbeat → Heartbeat
unfolding beat terminate stop is_due
step now (heartbeat_due ping_throws) h =
    if is_due now h.heartbeat_timer then beat now ping_throws h else h
step now pong_due h =
    if is_due now h.pong_timer then terminate (record h { pong_timer = none }) else h
step now pong h = if h.closed then h else record h { pong_timer = none }
step now gone h = stop h

unfoldable pub run : List (ℕ × Event) → Heartbeat → Heartbeat
unfolding step
run [] h = h
run ((now, e) ∷ es) h = run es (step now e h)

abbrev pub idle : Heartbeat
idle = record {
  closed = false;
  heartbeat_timer = none;
  pong_timer = none;
  pings = 0;
  terminations = 0;
}

-- `attachTerminalWebSocketHeartbeat`.
unfoldable pub attach : ℕ → Heartbeat
unfolding schedule_heartbeat
attach now = schedule_heartbeat now idle
