-- ===== src/Terminal/Bridge/Events.antt =====
-- The callbacks that terminal-websocket-bridge.ts registers, and its start.
use dashboard_rpi.Common.{
  ℕ, Bool, true, false, not, ◌||◌, Option, none, some, List, [], ◌∷◌, if◌then◌else◌, Text,
}
use dashboard_rpi.Common.Json.{Number}
use dashboard_rpi.Terminal.Platform.{Platform, Bytes}
use dashboard_rpi.Terminal.Session.Registry.{Sessions}
use dashboard_rpi.Terminal.Wire.{push_server, end_throws, serialize_terminal_local_open_frame}
use dashboard_rpi.Terminal.Bridge.State.{
  is_closing, emit, is_over, normalize_web_socket_close_code, Env, Bridge, WebSocketData,
  connecting, awaiting_ready, closed, local_unavailable, websocket_send_failed,
  local_protocol_error, local_ready_timeout, local_closed, local_connect_timeout, ws_open,
  local_connected, ws_error, ws_close, observed, closed_websocket, terminated_websocket, absent,
  open_socket,
}
use dashboard_rpi.Terminal.Bridge.Finish.{finish_quietly, fail_internal, write_local_frame}
use dashboard_rpi.Terminal.Bridge.Handlers.{handle_browser_message, handle_decoded}
use dashboard_rpi.Terminal.Session.Calls
use dashboard_rpi.Terminal.Session.Calls.{Call}

-- What can happen to a bridge. A `once` listener is gone after its first event. The registry is
-- shared: between the bridge's own steps others may call it.
pub data Event : Type 0 where
  browser_message : Env → WebSocketData → Bool → Event
  browser_close : Option Number → Event
  browser_error : Event
  send_failed : Env → Event
  exit_sent : Env → (error : Bool) → Event
  local_connect local_end local_error_event local_close : Env → Event
  local_data : (ℕ → Env) → Bytes → Event
  connect_timeout ready_timeout : Env → Event
  exit_send_timeout : Event
  registry_call : Call → Event

module _ (token : Text) where
  unfoldable pub start_local : Env → Option Text → Bridge → Bridge
  start_local env none b = b
  start_local env (some line) b = write_local_frame token env line b

  unfoldable pub on_connect : Env → Bridge → Bridge
  unfolding is_over
  on_connect env b =
      if not b.connect_listener
      then b
      else if is_over b.state
      then record b { connect_listener = false }
      else start_local env serialize_terminal_local_open_frame (
          emit (observed local_connected) (record b {
            connect_listener = false;
            connect_timer = false;
            state = awaiting_ready;
            ready_timer = true;
          }))

  unfoldable pub on_local_end : Env → Bridge → Bridge
  unfolding is_over
  on_local_end env b =
      if is_over b.state
      then b
      else if end_throws b.pending
      then fail_internal token env local_protocol_error b
      else fail_internal token env local_closed b

  unfoldable pub on_local_data : Platform → (ℕ → Env) → Bytes → Bridge → Bridge
  unfolding is_over
  on_local_data p envs chunk b =
      if is_over b.state then b else handle_decoded token envs (push_server p b.pending chunk) b

  -- The callback of the `send` of the exit frame.
  unfoldable pub on_exit_sent : Env → Bool → Bridge → Bridge
  unfolding is_closing
  on_exit_sent env error' b =
      if not (is_closing b.state)
      then b
      else emit
          (if error' || env.close_throws then terminated_websocket else closed_websocket 1000 none)
          (record b { exit_send_timer = false; state = closed })

  unfoldable pub on_browser_close : Option Number → Bridge → Bridge
  on_browser_close code b =
      if not b.close_listener
      then b
      else finish_quietly token (
          emit (observed (ws_close (normalize_web_socket_close_code code)))
            (record b { close_listener = false }))

  unfoldable pub on_browser_error : Bridge → Bridge
  on_browser_error b =
      if not b.error_listener
      then b
      else finish_quietly token (emit (observed ws_error) (record b { error_listener = false }))

  unfoldable pub on_exit_send_timeout : Bridge → Bridge
  unfolding is_closing
  on_exit_send_timeout b =
      if not b.exit_send_timer
      then b
      else if not (is_closing b.state)
      then record b { exit_send_timer = false }
      else emit terminated_websocket (record b { exit_send_timer = false; state = closed })

  -- A callback of a timer runs only while the timer is armed.
  unfoldable pub step : Platform → Event → Bridge → Bridge
  unfolding is_over
  step p (browser_message env data' is_binary) b =
      handle_browser_message token p env data' is_binary b
  step p (browser_close code) b = on_browser_close code b
  step p browser_error b = on_browser_error b
  step p (send_failed env) b = fail_internal token env websocket_send_failed b
  step p (exit_sent env error') b = on_exit_sent env error' b
  step p (local_connect env) b = on_connect env b
  step p (local_end env) b = on_local_end env b
  step p (local_error_event env) b =
      if is_over b.state then b else fail_internal token env local_unavailable b
  step p (local_close env) b = if is_over b.state then b else fail_internal token env local_closed b
  step p (local_data envs chunk) b = on_local_data p envs chunk b
  step p (connect_timeout env) b =
      if b.connect_timer
      then fail_internal token env local_connect_timeout (record b { connect_timer = false })
      else b
  step p (ready_timeout env) b =
      if b.ready_timer
      then fail_internal token env local_ready_timeout (record b { ready_timer = false })
      else b
  step p exit_send_timeout b = on_exit_send_timeout b
  step p (registry_call c) b = record b { sessions = Calls.step c b.sessions }

  unfoldable pub run : Platform → List Event → Bridge → Bridge
  run p [] b = b
  run p (e ∷ es) b = run p es (step p e b)

  abbrev pub initial : Sessions → Bridge
  initial m = record {
    state = connecting;
    local = absent;
    connect_timer = false;
    ready_timer = false;
    exit_send_timer = false;
    revoked = false;
    pending = [];
    connect_listener = false;
    close_listener = true;
    error_listener = true;
    sessions = m;
    log = observed ws_open ∷ [];
  }

  -- `attachTerminalWebSocketBridge`, given whether the connector throws.
  unfoldable pub attach : Env → (connector_throws : Bool) → Sessions → Bridge
  attach env connector_throws m =
      if connector_throws
      then fail_internal token env local_unavailable (initial m)
      else record (initial m) { local = open_socket; connect_timer = true; connect_listener = true }
