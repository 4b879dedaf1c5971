-- ===== src/Terminal/Tests/Bridge.antt =====
-- A bridge on concrete events.
use dashboard_rpi.Common.{
  utf8_width, byte_length, text_eq, ◌≡◌, refl, true, false, some, List, [], ◌∷◌, ◌++◌, arith, codes,
  All,
}
use dashboard_rpi.Common.Stringify.{stringify}
use dashboard_rpi.Common.Json.{pos}
use dashboard_rpi.Terminal.Session.Registry.{
  Sessions, at, revoke, remove, active_count, prune_expired,
}
use dashboard_rpi.Terminal.Session.Calls
use dashboard_rpi.Terminal.Session.Calls.{counts}
use dashboard_rpi.Terminal.Wire.{serialize_terminal_local_open_frame, open_frame}
use dashboard_rpi.Terminal.Bridge.State.{
  Env, Bridge, accepted, closed, string_data, is_over, is_closed, unusable, destroy_local,
}
use dashboard_rpi.Terminal.Bridge.Finish.{
  finish, shut, revoke_session, write_local_frame, finish_quietly, close_websocket,
}
use dashboard_rpi.Terminal.Bridge.Events.{
  start_local, on_connect, on_browser_close, step, Event, run, attach, local_connect, local_data,
  browser_message, browser_close, registry_call, ready_timeout,
}
use dashboard_rpi.Terminal.Bridge.Log.{Allowed, is_early, has_sent, log_fits}
use dashboard_rpi.Terminal.Bridge.Cleanup.{IsCleanedUp, run-IsCleanedUp, run-log_fits, run-silent}
use dashboard_rpi.Terminal.Bridge.Final.{IsQuiet, run-IsQuiet}
use dashboard_rpi.Terminal.Tests.Session.{token}
use dashboard_rpi.Terminal.Tests.Streams.{platform, ready_line}

abbrev pub env : Env
env = record {
  now = 3000;
  buffered_amount = some 0;
  send_throws = false;
  close_throws = false;
  writable_ended = false;
  writable_length = 0;
  write = accepted;
}

abbrev pub claimed : Sessions
claimed =
    (token, record { created_at = 1000; last_activity_at = 2000; transport_claimed_at = some 2000 })
    ∷ []

-- The agent does not answer in time, and the browser leaves.
abbrev unanswered : List Event
unanswered =
    local_connect env
    ∷ registry_call (counts (at 4000))
    ∷ ready_timeout env
    ∷ browser_close (some (pos 1000))
    ∷ []

-- The agent answers, a message arrives that the platform cannot parse, and the browser leaves.
abbrev visit : List Event
visit =
    local_connect env
    ∷ local_data (λ i. env) (ready_line ++ b'\n' ∷ [])
    ∷ registry_call (counts (at 4000))
    ∷ browser_message env (string_data (codes "?")) false
    ∷ browser_close (some (pos 1000))
    ∷ []

visit-Allowed : All (Allowed token) visit
visit-Allowed = (tt, (tt, (tt, (tt, (tt, tt)))))

unanswered-over :
    is_over (run token platform unanswered (attach token env false claimed)).state ≡ true
unfolding run attach step on_connect start_local write_local_frame finish shut revoke_session revoke
    remove destroy_local on_browser_close finish_quietly is_over is_closed unusable close_websocket
    serialize_terminal_local_open_frame byte_length utf8_width stringify open_frame Calls.step
    active_count prune_expired text_eq
unanswered-over = refl

run-IsCleanedUp_example :
    IsCleanedUp token (run token platform unanswered (attach token env false claimed))
run-IsCleanedUp_example =
    run-IsCleanedUp token platform env false claimed unanswered (omega arith)
      (tt, (tt, (tt, (tt, tt)))) unanswered-over

run-log_fits_example :
    log_fits (run token platform visit (attach token env false claimed)).log ≡ true
run-log_fits_example =
    run-log_fits token platform env false claimed visit (omega arith) visit-Allowed

abbrev begin : List Event
begin = local_connect env ∷ registry_call (counts (at 4000)) ∷ []

begin-early : is_early (run token platform begin (attach token env false claimed)).state ≡ true
unfolding run attach step on_connect start_local serialize_terminal_local_open_frame byte_length
    stringify utf8_width write_local_frame
begin-early = refl

run-silent_example :
    has_sent (run token platform begin (attach token env false claimed)).log ≡ false
run-silent_example =
    run-silent token platform env false claimed begin (omega arith) (tt, (tt, tt)) begin-early

abbrev over : Bridge
over = run token platform unanswered (attach token env false claimed)

over-closed : over.state ≡ closed
unfolding run attach step on_connect start_local write_local_frame finish shut revoke_session revoke
    remove destroy_local on_browser_close finish_quietly is_over is_closed unusable close_websocket
    serialize_terminal_local_open_frame byte_length utf8_width stringify open_frame Calls.step
    active_count prune_expired text_eq
over-closed = refl

run-IsQuiet_example : IsQuiet over (run token platform visit over)
run-IsQuiet_example = run-IsQuiet token platform visit over over-closed
