-- ===== src/Terminal/Tests/Agent.antt =====
-- An agent's session on concrete events.
use dashboard_rpi.Terminal.Wire.{end_throws}
use dashboard_rpi.Common.{
  ℕ, ◌≡◌, ◌⊎◌, refl, Bool, true, false, none, some, List, [], ◌∷◌, ◌++◌, codes, ltb,
}
use dashboard_rpi.Common.Json.{pos}
use dashboard_rpi.Terminal.Agent.Session.{
  shut, send_error, send_exit, end_output_when_flushed, close_session, is_closed,
}
use dashboard_rpi.Terminal.Agent.Session.Events.{
  on_input_end, Event, input_data, input_end, drain, pty_data, pty_exit, drain_due, step, run,
  start,
}
use dashboard_rpi.Terminal.Agent.Session.Queue.{
  Move, offers, drains, lines_of, moves, accepted, moves-lines,
}
use dashboard_rpi.Terminal.Agent.Session.Closing.{IsSound}
use dashboard_rpi.Terminal.Agent.Session.Ending.{run-IsSound, run-is_done}
use dashboard_rpi.Terminal.Tests.Streams.{platform, ready_line}

-- A stream that blocks from its second write on.
abbrev sink : ℕ → Bool
sink n = ltb n 1

abbrev offered : List Move
offered = offers (codes "one") ∷ offers (codes "two") ∷ offers (codes "three") ∷ drains ∷ []

moves-lines_example :
    lines_of (moves sink offered start) ≡ lines_of start ++ accepted sink offered start
moves-lines_example = moves-lines sink offered start

abbrev events : List Event
events =
    input_data (λ i. record { creates = true; pty_throws = false }) (ready_line ++ b'\n' ∷ [])
    ∷ pty_data (codes "$ ")
    ∷ drain
    ∷ pty_exit (some (pos 0)) none
    ∷ []

run-IsSound_example : IsSound (run sink platform events start)
run-IsSound_example = run-IsSound sink platform events

left-closed : is_closed (run sink platform (input_end ∷ []) start).state ≡ true
unfolding run is_closed step on_input_end end_throws close_session end_output_when_flushed send_exit
    send_error shut
left-closed = refl

run-is_done_example :
    ((run sink platform (input_end ∷ []) start).ended ≡ true)
    ⊎ ((step sink platform drain_due (run sink platform (input_end ∷ []) start)).done ≡ true)
run-is_done_example = run-is_done sink platform (input_end ∷ []) left-closed
