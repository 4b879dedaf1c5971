-- ===== src/Terminal/Bridge/Handled.antt =====
-- The handlers of terminal-websocket-bridge.ts, and what its variables have to do with one another.
use dashboard_rpi.Common.{ℕ, ◌+◌, Bool, false, Option, none, some, List, [], ◌∷◌, Text}
use dashboard_rpi.Common.Stringify.{stringify}
use dashboard_rpi.Terminal.Platform.{Platform, Bytes}
use dashboard_rpi.Terminal.Session.Registry.{Sessions, Metadata, has, touch_claimed_at}
use dashboard_rpi.Terminal.Protocol.{
  ClientMessage, ParseResult, parsed, refused, parse_terminal_client_message, ready_frame,
  output_frame, exit_frame,
}
use dashboard_rpi.Terminal.Wire.{
  protocol_error, pty_unavailable, session_expired, output_overflow, ServerFrame, ready, output,
  exit, error,
}
use dashboard_rpi.Terminal.Bridge.State.{
  is_closing, emit, is_over, is_active, is_awaiting_ready, decode_web_socket_text, Env, Bridge,
  WebSocketData, active, local_protocol_error, bridge_session_expired, not_ready,
  browser_protocol_error, observed_ready, observed,
}
use dashboard_rpi.Terminal.Bridge.Handlers.{
  handle_local_error, handle_ready, code_or_zero, signal_number, dispatch_local_frame,
  handle_local_frame, handle_local_frames, forward, message_line, handle_touched, handle_parsed,
  handle_text, handle_browser_message, handle_decoded,
}
use dashboard_rpi.Terminal.Session.Limits.{touch_claimed_at-bounded}
use dashboard_rpi.Common.{length, ◌≡◌, ◌≤◌, ◌⊎◌, arith, refl}
use dashboard_rpi.Terminal.Bridge.Invariant.{
  Control, finish-Control, send_browser_frame-Control, send_exit_frame_then_close-Control,
  write_local_frame-Control, touch-absent,
}

module _ (token : Text) where
  -- A new map that keeps the facts about the registry.
  abbrev Renews : Bridge → Sessions → Type 0
  Renews b m = (length m ≤ 1) × ((b.revoked ≡ false) ⊎ (has token m ≡ false))

  touched-Renews :
      (env : Env) (b : Bridge)
      → Control token b
      → Renews b (touch_claimed_at token env.now b.sessions).0
  touched-Renews env b c = ground (
    arith,
    touch_claimed_at-bounded token env.now b.sessions,
    touch-absent token env.now b.sessions,
  )

  handle_ready-Control :
      (env : Env) (r : Sessions × Option Metadata) (b : Bridge)
      → b.exit_send_timer ≡ false
      → b.connect_listener ≡ false
      → Renews b r.0
      → Control token b
      → Control token (handle_ready token env r b)
  unfolding handle_ready is_over is_closing
  handle_ready-Control env (m, none) b t l n c =
      finish-Control token env 1008 bridge_session_expired (record b { sessions = m })
        (ground arith)
  handle_ready-Control env (m, some _) b t l n c =
      send_browser_frame-Control token env (stringify ready_frame)
        (emit (observed observed_ready) (record b { state = active; sessions = m })) refl
        (ground arith)

  dispatch_local_frame-Control :
      (env : Env) (frame : ServerFrame) (b : Bridge)
      → Control token b
      → Control token (dispatch_local_frame token env frame b)
  unfolding dispatch_local_frame is_active is_awaiting_ready is_closing handle_local_error
  dispatch_local_frame-Control env ready b c = ground (
    arith,
    finish-Control token env 1011 local_protocol_error b,
    handle_ready-Control env (touch_claimed_at token env.now b.sessions)
        (record b { ready_timer = false }),
    touched-Renews env b c,
  )
  dispatch_local_frame-Control env (output s) b c = ground (
    arith,
    finish-Control token env 1011 local_protocol_error b,
    send_browser_frame-Control token env (stringify (output_frame s)) b,
  )
  dispatch_local_frame-Control env (exit code signal) b c = ground (
    arith,
    finish-Control token env 1011 local_protocol_error b,
    send_exit_frame_then_close-Control token env
        (stringify (exit_frame (code_or_zero code) (signal_number signal))) b,
  )
  dispatch_local_frame-Control env (error session_expired) b c = finish-Control token env _ _ b c
  dispatch_local_frame-Control env (error output_overflow) b c = finish-Control token env _ _ b c
  dispatch_local_frame-Control env (error protocol_error) b c = finish-Control token env _ _ b c
  dispatch_local_frame-Control env (error pty_unavailable) b c = finish-Control token env _ _ b c

  handle_local_frames-Control :
      (envs : ℕ → Env) (i : ℕ) (frames : List ServerFrame) (b : Bridge)
      → Control token b
      → Control token (handle_local_frames token envs i frames b)
  unfolding handle_local_frames handle_local_frame
  handle_local_frames-Control envs i [] b c = c
  handle_local_frames-Control envs i (frame ∷ frames) b c =
      handle_local_frames-Control envs (i + 1) frames _
        (ground (arith, dispatch_local_frame-Control (envs i) frame b))

  forward-Control :
      (env : Env) (line : Option Text) (b : Bridge)
      → Control token b
      → Control token (forward token env line b)
  unfolding forward
  forward-Control env none b c = finish-Control token env 1008 browser_protocol_error b c
  forward-Control env (some line) b c = write_local_frame-Control token env line b c

  handle_touched-Control :
      (env : Env) (message : ClientMessage) (r : Sessions × Option Metadata) (b : Bridge)
      → Renews b r.0
      → Control token b
      → Control token (handle_touched token env message r b)
  unfolding handle_touched
  handle_touched-Control env message (m, none) b n c =
      finish-Control token env 1008 bridge_session_expired (record b { sessions = m })
        (ground arith)
  handle_touched-Control env message (m, some _) b n c =
      forward-Control env (message_line message) (record b { sessions = m }) (ground arith)

  handle_text-Control :
      (p : Platform) (env : Env) (o : Option Text) (b : Bridge)
      → Control token b
      → Control token (handle_text token p env o b)
  unfolding handle_text handle_parsed
  handle_text-Control p env none b c = finish-Control token env 1008 browser_protocol_error b c
  handle_text-Control p env (some s) b c =
      parsed-Control (parse_terminal_client_message (p.json_parse s))
    where
      parsed-Control : (r : ParseResult) → Control token (handle_parsed token env r b)
      parsed-Control (refused _) = finish-Control token env 1008 browser_protocol_error b c
      parsed-Control (parsed message) =
          handle_touched-Control env message _ b (touched-Renews env b c) c

  pub handle_browser_message-Control :
      (p : Platform) (env : Env) (data' : WebSocketData) (is_binary : Bool) (b : Bridge)
      → Control token b
      → Control token (handle_browser_message token p env data' is_binary b)
  unfolding handle_browser_message
  handle_browser_message-Control p env data' is_binary b c = ground (
    arith,
    finish-Control token env 1008 not_ready b,
    finish-Control token env 1008 browser_protocol_error b,
    handle_text-Control p env (decode_web_socket_text p data') b,
  )

  pub handle_decoded-Control :
      (envs : ℕ → Env) (r : Bytes × Option (List ServerFrame)) (b : Bridge)
      → Control token b
      → Control token (handle_decoded token envs r b)
  unfolding handle_decoded
  handle_decoded-Control envs (pending, none) b c =
      finish-Control token (envs 0) 1011 local_protocol_error (record b { pending = pending })
        (ground arith)
  handle_decoded-Control envs (pending, some frames) b c =
      handle_local_frames-Control envs 0 frames (record b { pending = pending }) (ground arith)
