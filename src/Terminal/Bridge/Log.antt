-- ===== src/Terminal/Bridge/Log.antt =====
-- Tests of the log and the state of a bridge, which its theorems speak of.
use dashboard_rpi.Common.{◌+◌, Bool, true, false, ◌&&◌, ◌||◌, List, [], ◌∷◌, leb, Text, byte_length}
use dashboard_rpi.Terminal.Bridge.State.{
  max_websocket_buffer_bytes, max_websocket_frame_bytes, BridgeState, Effect, connecting,
  awaiting_ready, active, closing, closed, observed, sent, closed_websocket, terminated_websocket,
  local_destroyed, local_written,
}
use dashboard_rpi.Terminal.Bridge.Events.{
  Event, registry_call, browser_message, browser_close, browser_error, send_failed, exit_sent,
  local_connect, local_end, local_error_event, local_close, local_data, connect_timeout,
  ready_timeout, exit_send_timeout,
}
use dashboard_rpi.Terminal.Session.Calls.{Avoids}

-- Other callers of the registry do not issue the bridge's token again.
abbrev pub Allowed : Text → Event → Type 0
Allowed token (registry_call c) = Avoids token c
Allowed token (browser_message _ _ _) = Unit
Allowed token (browser_close _) = Unit
Allowed token browser_error = Unit
Allowed token (send_failed _) = Unit
Allowed token (exit_sent _ _) = Unit
Allowed token (local_connect _) = Unit
Allowed token (local_end _) = Unit
Allowed token (local_error_event _) = Unit
Allowed token (local_close _) = Unit
Allowed token (local_data _ _) = Unit
Allowed token (connect_timeout _) = Unit
Allowed token (ready_timeout _) = Unit
Allowed token exit_send_timeout = Unit

-- A frame that was sent was within its limit, and with it the WebSocket's buffer within its own.
abbrev pub effect_fits : Effect → Bool
effect_fits (sent frame amount) =
    leb (byte_length frame) max_websocket_frame_bytes
    && leb (byte_length frame + amount) max_websocket_buffer_bytes
effect_fits (observed _) = true
effect_fits (closed_websocket _ _) = true
effect_fits terminated_websocket = true
effect_fits local_destroyed = true
effect_fits (local_written _) = true

abbrev pub log_fits : List Effect → Bool
log_fits [] = true
log_fits (e ∷ log) = effect_fits e && log_fits log

-- Whether a frame went to the browser.
abbrev pub is_sent : Effect → Bool
is_sent (sent _ _) = true
is_sent (observed _) = false
is_sent (closed_websocket _ _) = false
is_sent terminated_websocket = false
is_sent local_destroyed = false
is_sent (local_written _) = false

abbrev pub has_sent : List Effect → Bool
has_sent [] = false
has_sent (e ∷ log) = is_sent e || has_sent log

-- Before the agent has said that it is ready.
abbrev pub is_early : BridgeState → Bool
is_early connecting = true
is_early awaiting_ready = true
is_early active = false
is_early closing = false
is_early closed = false

-- Between the connection to the agent and the end.
abbrev pub is_working : BridgeState → Bool
is_working connecting = false
is_working awaiting_ready = true
is_working active = true
is_working closing = false
is_working closed = false
