-- ===== src/Terminal/Bridge/Handlers.antt =====
-- The handlers of frames and messages of terminal-websocket-bridge.ts.
use dashboard_rpi.Common.{
  ℕ, ◌+◌, Bool, false, not, Option, none, some, List, [], ◌∷◌, if◌then◌else◌, Text,
}
use dashboard_rpi.Common.Json.{Number, pos}
use dashboard_rpi.Common.Stringify.{stringify}
use dashboard_rpi.Terminal.Platform.{Platform, Bytes}
use dashboard_rpi.Terminal.Session.Registry.{Sessions, Metadata, touch_claimed_at}
use dashboard_rpi.Terminal.Protocol.{
  ClientMessage, input, resize, ParseResult, parsed, refused, parse_terminal_client_message,
  ready_frame, output_frame, exit_frame,
}
use dashboard_rpi.Terminal.Wire.{
  LocalErrorCode, protocol_error, pty_unavailable, session_expired, output_overflow, ServerFrame,
  ready, output, exit, error, serialize_terminal_local_input_frame,
  serialize_terminal_local_resize_frame,
}
use dashboard_rpi.Terminal.Bridge.State.{
  emit, is_over, is_active, is_awaiting_ready, decode_web_socket_text, Env, Bridge, WebSocketData,
  active, output_overload, local_protocol_error, bridge_session_expired, bridge_pty_unavailable,
  not_ready, browser_protocol_error, observed_ready, observed,
}
use dashboard_rpi.Terminal.Bridge.Finish.{
  fail_policy, fail_overload, fail_internal, send_browser_frame, send_exit_frame_then_close,
  write_local_frame,
}

abbrev pub code_or_zero : Option ℕ → Number
code_or_zero none = pos 0
code_or_zero (some n) = pos n

abbrev pub signal_number : Option ℕ → Option Number
signal_number none = none
signal_number (some n) = some (pos n)

unfoldable pub message_line : ClientMessage → Option Text
message_line (input s) = serialize_terminal_local_input_frame s
message_line (resize cols rows) = serialize_terminal_local_resize_frame cols rows

module _ (token : Text) where
  -- `handleLocalError`.
  unfoldable pub handle_local_error : Env → LocalErrorCode → Bridge → Bridge
  handle_local_error env session_expired b = fail_policy token env bridge_session_expired b
  handle_local_error env output_overflow b = fail_overload token env output_overload b
  handle_local_error env protocol_error b = fail_internal token env local_protocol_error b
  handle_local_error env pty_unavailable b = fail_internal token env bridge_pty_unavailable b

  unfoldable pub handle_ready : Env → Sessions × Option Metadata → Bridge → Bridge
  handle_ready env (m, none) b =
      fail_policy token env bridge_session_expired (record b { sessions = m })
  handle_ready env (m, some _) b =
      send_browser_frame token env (stringify ready_frame)
        (emit (observed observed_ready) (record b { state = active; sessions = m }))

  -- The switch of `handleLocalFrame`.
  unfoldable pub dispatch_local_frame : Env → ServerFrame → Bridge → Bridge
  unfolding is_active is_awaiting_ready
  dispatch_local_frame env ready b =
      if not (is_awaiting_ready b.state)
      then fail_internal token env local_protocol_error b
      else handle_ready env (touch_claimed_at token env.now b.sessions)
          (record b { ready_timer = false })
  dispatch_local_frame env (output s) b =
      if not (is_active b.state)
      then fail_internal token env local_protocol_error b
      else send_browser_frame token env (stringify (output_frame s)) b
  dispatch_local_frame env (exit code signal) b =
      if not (is_active b.state)
      then fail_internal token env local_protocol_error b
      else send_exit_frame_then_close token env
          (stringify (exit_frame (code_or_zero code) (signal_number signal))) b
  dispatch_local_frame env (error code) b = handle_local_error env code b

  -- `handleLocalFrame`.
  unfoldable pub handle_local_frame : Env → ServerFrame → Bridge → Bridge
  unfolding is_over
  handle_local_frame env frame b = if is_over b.state then b else dispatch_local_frame env frame b

  -- The loop over the frames of one chunk.
  unfoldable pub handle_local_frames : (ℕ → Env) → ℕ → List ServerFrame → Bridge → Bridge
  handle_local_frames envs i [] b = b
  handle_local_frames envs i (frame ∷ frames) b =
      handle_local_frames envs (i + 1) frames (handle_local_frame (envs i) frame b)

  -- A serialised line is written; a serialiser that throws is a policy failure.
  unfoldable pub forward : Env → Option Text → Bridge → Bridge
  forward env none b = fail_policy token env browser_protocol_error b
  forward env (some line) b = write_local_frame token env line b

  unfoldable pub handle_touched : Env → ClientMessage → Sessions × Option Metadata → Bridge → Bridge
  handle_touched env message (m, none) b =
      fail_policy token env bridge_session_expired (record b { sessions = m })
  handle_touched env message (m, some _) b =
      forward env (message_line message) (record b { sessions = m })

  unfoldable pub handle_parsed : Env → ParseResult → Bridge → Bridge
  handle_parsed env (refused _) b = fail_policy token env browser_protocol_error b
  handle_parsed env (parsed message) b =
      handle_touched env message (touch_claimed_at token env.now b.sessions) b

  unfoldable pub handle_text : Platform → Env → Option Text → Bridge → Bridge
  handle_text p env none b = fail_policy token env browser_protocol_error b
  handle_text p env (some s) b =
      handle_parsed env (parse_terminal_client_message (p.json_parse s)) b

  -- `handleBrowserMessage`.
  unfoldable pub handle_browser_message : Platform → Env → WebSocketData → Bool → Bridge → Bridge
  unfolding is_over is_active
  handle_browser_message p env data' is_binary b =
      if is_over b.state
      then b
      else if not (is_active b.state)
      then fail_policy token env not_ready b
      else if is_binary
      then fail_policy token env browser_protocol_error b
      else handle_text p env (decode_web_socket_text p data') b

  unfoldable pub handle_decoded : (ℕ → Env) → Bytes × Option (List ServerFrame) → Bridge → Bridge
  handle_decoded envs (pending, none) b =
      fail_internal token (envs 0) local_protocol_error (record b { pending = pending })
  handle_decoded envs (pending, some frames) b =
      handle_local_frames envs 0 frames (record b { pending = pending })
