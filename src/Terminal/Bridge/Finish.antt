-- ===== src/Terminal/Bridge/Finish.antt =====
-- How terminal-websocket-bridge.ts ends, and its writes to either side.
use dashboard_rpi.Common.{ℕ, true, false, not, ◌||◌, Option, none, some, leb, if◌then◌else◌, Text}
use dashboard_rpi.Terminal.Session.Registry.{revoke}
use dashboard_rpi.Terminal.Bridge.State.{
  max_local_write_buffer_bytes, emit, unusable, is_closed, is_over, is_active, destroy_local,
  frame_refusal, Reason, Env, Bridge, closing, closed, local_unavailable, websocket_send_failed,
  local_protocol_error, local_backpressure, failed, observed, sent, closed_websocket,
  terminated_websocket, local_written, accepted, full, throws,
}

abbrev pub amount_of : Option ℕ → ℕ
amount_of none = 0
amount_of (some n) = n

module _ (token : Text) where
  -- `revokeSession`.
  unfoldable pub revoke_session : Bridge → Bridge
  revoke_session b =
      if b.revoked then b else record b { revoked = true; sessions = (revoke token b.sessions).0 }

  -- The part of `finish` that every end of the bridge runs.
  unfoldable pub shut : Bridge → Bridge
  shut b = destroy_local (
      revoke_session (record b {
        state = closed;
        connect_timer = false;
        ready_timer = false;
        exit_send_timer = false;
      }))

  -- `finish(false)`.
  unfoldable pub finish_quietly : Bridge → Bridge
  unfolding is_closed
  finish_quietly b = if is_closed b.state then b else shut b

  unfoldable pub close_websocket : Env → ℕ → Reason → Bridge → Bridge
  close_websocket env code reason b =
      emit (if env.close_throws then terminated_websocket else closed_websocket code (some reason))
        (emit (observed (failed code reason)) b)

  -- `finish(true, code, reason)`.
  unfoldable pub finish : Env → ℕ → Reason → Bridge → Bridge
  unfolding is_closed
  finish env code reason b =
      if is_closed b.state then b else close_websocket env code reason (shut b)

  abbrev pub fail_policy : Env → Reason → Bridge → Bridge
  fail_policy env reason b = finish env 1008 reason b

  abbrev pub fail_overload : Env → Reason → Bridge → Bridge
  fail_overload env reason b = finish env 1013 reason b

  abbrev pub fail_internal : Env → Reason → Bridge → Bridge
  fail_internal env reason b = finish env 1011 reason b

  -- `sendBrowserFrame`.
  unfoldable pub send_browser_frame : Env → Text → Bridge → Bridge
  unfolding is_over
  send_browser_frame env frame b = if is_over b.state then b else elim (frame_refusal env frame) [
    | some reason ↦ fail_overload env reason b
    | none ↦
        if env.send_throws
        then fail_internal env websocket_send_failed b
        else emit (sent frame (amount_of env.buffered_amount)) b
  ]

  unfoldable pub send_exit : Env → Text → Bridge → Bridge
  send_exit env frame b =
      let b' = destroy_local (
        revoke_session
          (record b { state = closing; connect_timer = false; ready_timer = false })) in
      if env.send_throws
      then emit terminated_websocket (record b' { state = closed; exit_send_timer = false })
      else emit (sent frame (amount_of env.buffered_amount)) (record b' { exit_send_timer = true })

  -- `sendExitFrameThenClose`.
  unfoldable pub send_exit_frame_then_close : Env → Text → Bridge → Bridge
  unfolding is_active
  send_exit_frame_then_close env frame b =
      if not (is_active b.state)
      then fail_internal env local_protocol_error b
      else elim (frame_refusal env frame) [
        | some reason ↦ fail_overload env reason b
        | none ↦ send_exit env frame b
      ]

  -- `writeLocalFrame`.
  unfoldable pub write_local_frame : Env → Text → Bridge → Bridge
  unfolding is_over unusable
  write_local_frame env line b =
      if is_over b.state || unusable b.local || env.writable_ended
      then fail_internal env local_unavailable b
      else if leb max_local_write_buffer_bytes env.writable_length
      then fail_overload env local_backpressure b
      else elim env.write [
        | throws ↦ fail_internal env local_unavailable b
        | full ↦ fail_overload env local_backpressure (emit (local_written line) b)
        | accepted ↦ emit (local_written line) b
      ]
