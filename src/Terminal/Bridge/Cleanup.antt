-- ===== src/Terminal/Bridge/Cleanup.antt =====
-- What is left of a bridge of terminal-websocket-bridge.ts at its end, and what it has sent.
use dashboard_rpi.Common.{Bool, true, false, List, Text}
use dashboard_rpi.Terminal.Platform.{Platform}
use dashboard_rpi.Terminal.Session.Registry.{Sessions, has}
use dashboard_rpi.Terminal.Bridge.State.{is_closing, unusable, is_over, Env, Bridge, closing}
use dashboard_rpi.Terminal.Bridge.Events.{Event, run, attach}
use dashboard_rpi.Common.{length, ◌≡◌, ◌≤◌, ◌⊎◌, arith, All}
use dashboard_rpi.Terminal.Bridge.Invariant.{Control}
use dashboard_rpi.Terminal.Bridge.Log.{Allowed, log_fits, has_sent, is_early}
use dashboard_rpi.Terminal.Bridge.Reachable.{run-Control, attach-Control}

-- What is left of a bridge that is closing or closed.
pub record IsCleanedUp (token : Text) (b : Bridge) : Type 0 where
  pub token_gone : has token b.sessions ≡ false
  pub local_gone : unusable b.local ≡ true
  pub connect_timer_off : b.connect_timer ≡ false
  pub ready_timer_off : b.ready_timer ≡ false
  pub exit_timer_off : (b.state ≡ closing) ⊎ (b.exit_send_timer ≡ false)

-- From its start on a registry with at most one session, and through any events, with calls of
-- the registry by others in between that do not issue the token again: once the bridge is closing
-- or closed, its session is gone from the registry, its local socket is destroyed or was never
-- opened, the connect and ready timers are off, and so is the exit timer unless the exit frame is
-- still being sent.
pub run-IsCleanedUp :
    (token : Text) (p : Platform) (env : Env) (connector_throws : Bool) (m : Sessions)
    (es : List Event)
    → length m ≤ 1
    → All (Allowed token) es
    → is_over (run token p es (attach token env connector_throws m)).state ≡ true
    → IsCleanedUp token (run token p es (attach token env connector_throws m))
unfolding is_closing is_over
run-IsCleanedUp token p env connector_throws m es h a over =
    let c = run-Control token p es _ a (attach-Control token env connector_throws m h) in
    cleaned (run token p es (attach token env connector_throws m)) over c
  where
    cleaned : (b : Bridge) → is_over b.state ≡ true → Control token b → IsCleanedUp token b
    cleaned b over c = ground arith

-- From its start on a registry with at most one session, and through any events, with calls of
-- the registry by others in between that do not issue the token again: every frame that a bridge
-- has sent to the browser was at most 32 KiB, and with the bytes that waited in the WebSocket's
-- buffer before it at most 64 KiB.
pub run-log_fits :
    (token : Text) (p : Platform) (env : Env) (connector_throws : Bool) (m : Sessions)
    (es : List Event)
    → length m ≤ 1
    → All (Allowed token) es
    → log_fits (run token p es (attach token env connector_throws m)).log ≡ true
run-log_fits token p env connector_throws m es h a =
    (run-Control token p es _ a (attach-Control token env connector_throws m h)).fitting

-- From its start on a registry with at most one session, and through any events, with calls of
-- the registry by others in between that do not issue the token again: while a bridge still
-- connects to the agent or waits for its ready frame, it has sent the browser nothing.
pub run-silent :
    (token : Text) (p : Platform) (env : Env) (connector_throws : Bool) (m : Sessions)
    (es : List Event)
    → length m ≤ 1
    → All (Allowed token) es
    → is_early (run token p es (attach token env connector_throws m)).state ≡ true
    → has_sent (run token p es (attach token env connector_throws m)).log ≡ false
run-silent token p env connector_throws m es h a early =
    let c = (run-Control token p es _ a (attach-Control token env connector_throws m h)).silent in
    ground arith
