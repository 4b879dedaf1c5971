-- ===== src/Terminal/Bridge/Final.antt =====
-- What a closed bridge still does.
use dashboard_rpi.Common.{List, [], ◌∷◌, Text}
use dashboard_rpi.Terminal.Platform.{Platform}
use dashboard_rpi.Terminal.Bridge.State.{
  is_closing, is_closed, is_over, Effect, Bridge, closed, observed, sent, closed_websocket,
  terminated_websocket, local_destroyed, local_written,
}
use dashboard_rpi.Terminal.Bridge.Finish.{finish_quietly, finish}
use dashboard_rpi.Terminal.Bridge.Handlers.{handle_browser_message}
use dashboard_rpi.Terminal.Bridge.Events.{
  Event, registry_call, browser_message, browser_close, browser_error, send_failed, exit_sent,
  local_connect, local_end, local_error_event, local_close, local_data, connect_timeout,
  ready_timeout, exit_send_timeout, on_connect, on_local_end, on_local_data, on_exit_sent,
  on_browser_close, on_browser_error, on_exit_send_timeout, step, run,
}
use dashboard_rpi.Common.{◌≡◌, arith, refl, ◌∙◌}

-- What a bridge did to the outside: its log without the observations.
abbrev pub actions : List Effect → List Effect
actions [] = []
actions (observed o ∷ log) = actions log
actions (sent frame amount ∷ log) = sent frame amount ∷ actions log
actions (closed_websocket code reason ∷ log) = closed_websocket code reason ∷ actions log
actions (terminated_websocket ∷ log) = terminated_websocket ∷ actions log
actions (local_destroyed ∷ log) = local_destroyed ∷ actions log
actions (local_written line ∷ log) = local_written line ∷ actions log

-- The bridge is closed, and has done nothing since `b`.
abbrev pub IsQuiet : Bridge → Bridge → Type 0
IsQuiet b b' = (b'.state ≡ closed) × (actions b'.log ≡ actions b.log)

step-IsQuiet :
    (token : Text) (p : Platform) (e : Event) (b : Bridge)
    → b.state ≡ closed
    → IsQuiet b (step token p e b)
unfolding step handle_browser_message on_browser_close on_browser_error finish finish_quietly
    on_exit_sent on_connect on_local_end on_local_data on_exit_send_timeout is_closed is_over
    is_closing
step-IsQuiet token p (browser_message env data' is_binary) b h = ground arith
step-IsQuiet token p (browser_close code) b h = ground arith
step-IsQuiet token p browser_error b h = ground arith
step-IsQuiet token p (send_failed env) b h = ground arith
step-IsQuiet token p (exit_sent env error') b h = ground arith
step-IsQuiet token p (local_connect env) b h = ground arith
step-IsQuiet token p (local_end env) b h = ground arith
step-IsQuiet token p (local_error_event env) b h = ground arith
step-IsQuiet token p (local_close env) b h = ground arith
step-IsQuiet token p (local_data envs chunk) b h = ground arith
step-IsQuiet token p (connect_timeout env) b h = ground arith
step-IsQuiet token p (ready_timeout env) b h = ground arith
step-IsQuiet token p exit_send_timeout b h = ground arith
step-IsQuiet token p (registry_call call) b h = ground arith

-- A closed bridge stays closed, and whatever events still come, it sends nothing, writes nothing,
-- and closes nothing again.
pub run-IsQuiet :
    (token : Text) (p : Platform) (es : List Event) (b : Bridge)
    → b.state ≡ closed
    → IsQuiet b (run token p es b)
unfolding run
run-IsQuiet token p [] b h = (h, refl)
run-IsQuiet token p (e ∷ es) b h =
    let s = step-IsQuiet token p e b h in
    let r = run-IsQuiet token p es (step token p e b) s.0 in (r.0, r.1 ∙ s.1)
