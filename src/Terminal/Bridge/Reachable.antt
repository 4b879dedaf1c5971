-- ===== src/Terminal/Bridge/Reachable.antt =====
-- The callbacks of terminal-websocket-bridge.ts, and what its variables have to do with one another.
use dashboard_rpi.Common.{Bool, true, false, Option, none, some, List, [], ◌∷◌, Text}
use dashboard_rpi.Terminal.Platform.{Platform}
use dashboard_rpi.Terminal.Session.Registry.{Sessions, has}
use dashboard_rpi.Terminal.Wire.{push_server, serialize_terminal_local_open_frame}
use dashboard_rpi.Terminal.Bridge.State.{
  is_closing, emit, is_over, normalize_web_socket_close_code, Env, Bridge, awaiting_ready,
  local_unavailable, websocket_send_failed, local_protocol_error, local_ready_timeout, local_closed,
  local_connect_timeout, local_connected, ws_error, ws_close, observed,
}
use dashboard_rpi.Terminal.Bridge.Events.{
  Event, registry_call, browser_message, browser_close, browser_error, send_failed, exit_sent,
  local_connect, local_end, local_error_event, local_close, local_data, connect_timeout,
  ready_timeout, exit_send_timeout, start_local, on_connect, on_local_end, on_local_data,
  on_exit_sent, on_browser_close, on_browser_error, on_exit_send_timeout, step, run, initial,
  attach,
}
use dashboard_rpi.Terminal.Session.Tokens.{Of, Of-Admits, Gone-Stable}
use dashboard_rpi.Terminal.Session.Limits.{step-bounded}
use dashboard_rpi.Terminal.Session.Calls.{Call, Avoids}
use dashboard_rpi.Terminal.Session.Calls
use dashboard_rpi.Terminal.Session.History.{step-All}
use dashboard_rpi.Common.{length, ◌≡◌, ◌≤◌, arith, All}
use dashboard_rpi.Terminal.Bridge.Invariant.{
  Control, finish-Control, finish_quietly-Control, write_local_frame-Control, absent-All,
  All-absent,
}
use dashboard_rpi.Terminal.Bridge.Log.{Allowed}
use dashboard_rpi.Terminal.Bridge.Handled.{handle_browser_message-Control, handle_decoded-Control}

module _ (token : Text) where
  start_local-Control :
      (env : Env) (line : Option Text) (b : Bridge)
      → Control token b
      → Control token (start_local token env line b)
  unfolding start_local
  start_local-Control env none b c = c
  start_local-Control env (some line) b c = write_local_frame-Control token env line b c

  on_connect-Control :
      (env : Env) (b : Bridge) → Control token b → Control token (on_connect token env b)
  unfolding on_connect is_closing
  on_connect-Control env b c = ground (
    arith,
    start_local-Control env serialize_terminal_local_open_frame (
        emit (observed local_connected) (record b {
          connect_listener = false;
          connect_timer = false;
          state = awaiting_ready;
          ready_timer = true;
        })),
  )

  call-absent :
      (call : Call) (m : Sessions)
      → Avoids token call
      → has token m ≡ false
      → has token (Calls.step call m) ≡ false
  call-absent call m a h = All-absent token _ (
      step-All (Of token (λ s. ⊥)) (Gone-Stable token) call m (Of-Admits token (λ s. ⊥) call a)
        (absent-All token m h))

  called :
      (call : Call) (b : Bridge)
      → Avoids token call
      → Control token b
      → Control token (record b { sessions = Calls.step call b.sessions })
  called call b a c = ground (arith, step-bounded call b.sessions, call-absent call b.sessions a)

  -- Every event keeps the variables in agreement with the state.
  step-Control :
      (p : Platform) (e : Event) (b : Bridge)
      → Allowed token e
      → Control token b
      → Control token (step token p e b)
  unfolding step on_browser_close on_browser_error on_exit_sent on_local_end on_local_data
      on_exit_send_timeout is_closing
  step-Control p (browser_message env data' is_binary) b a c =
      handle_browser_message-Control token p env data' is_binary b c
  step-Control p (browser_close code) b a c = ground (
    arith,
    finish_quietly-Control token (
        emit (observed (ws_close (normalize_web_socket_close_code code)))
          (record b { close_listener = false })),
  )
  step-Control p browser_error b a c = ground (
    arith,
    finish_quietly-Control token (emit (observed ws_error) (record b { error_listener = false })),
  )
  step-Control p (send_failed env) b a c = finish-Control token env 1011 websocket_send_failed b c
  step-Control p (exit_sent env error') b a c = ground arith
  step-Control p (local_connect env) b a c = on_connect-Control env b c
  step-Control p (local_end env) b a c = ground (
    arith,
    finish-Control token env 1011 local_protocol_error b,
    finish-Control token env 1011 local_closed b,
  )
  step-Control p (local_error_event env) b a c =
      ground (arith, finish-Control token env 1011 local_unavailable b)
  step-Control p (local_close env) b a c =
      ground (arith, finish-Control token env 1011 local_closed b)
  step-Control p (local_data envs chunk) b a c =
      ground (arith, handle_decoded-Control token envs (push_server p b.pending chunk) b)
  step-Control p (connect_timeout env) b a c = ground (
    arith,
    finish-Control token env 1011 local_connect_timeout (record b { connect_timer = false }),
  )
  step-Control p (ready_timeout env) b a c =
      ground (
        arith,
        finish-Control token env 1011 local_ready_timeout (record b { ready_timer = false }),
      )
  step-Control p exit_send_timeout b a c = ground arith
  step-Control p (registry_call call) b a c = called call b a c

  pub run-Control :
      (p : Platform) (es : List Event) (b : Bridge)
      → All (Allowed token) es
      → Control token b
      → Control token (run token p es b)
  unfolding run
  run-Control p [] b a c = c
  run-Control p (e ∷ es) b a c = run-Control p es (step token p e b) a.1 (step-Control p e b a.0 c)

  initial-Control : (m : Sessions) → length m ≤ 1 → Control token (initial token m)
  unfolding is_over is_closing
  initial-Control m h = ground arith

  pub attach-Control :
      (env : Env) (connector_throws : Bool) (m : Sessions)
      → length m ≤ 1
      → Control token (attach token env connector_throws m)
  unfolding attach is_over is_closing
  attach-Control env true m h =
      finish-Control token env 1011 local_unavailable (initial token m) (initial-Control m h)
  attach-Control env false m h = ground arith
