-- ===== src/Terminal/Agent/Session/Ending.antt =====
-- A session of local-session.ts from its start on, and its end.
use dashboard_rpi.Common.{ℕ, ◌≡◌, ◌⊎◌, Bool, true, List, arith}
use dashboard_rpi.Terminal.Platform.{Platform}
use dashboard_rpi.Terminal.Agent.Session.{Session, is_waiting, is_active, is_closed}
use dashboard_rpi.Terminal.Agent.Session.Events.{
  Event, drain_due, force_output_closed, step, run, start,
}
use dashboard_rpi.Terminal.Agent.Session.Soundness.{run-keeps}
use dashboard_rpi.Terminal.Agent.Session.Closing.{IsSound}

start-IsSound : IsSound start
unfolding is_waiting is_active is_closed
start-IsSound = ground arith

-- From its start on and through any events, whatever the output stream answers to the writes: the
-- queue's byte count is the sum of its lines and at most 64 KiB; lines wait only while the stream
-- blocks or the session is done; a destroyed stream means that it is done; a waiting session has its two timers and no PTY; an active one has its PTY, its
-- idle and its absolute timer; a closed one has no PTY and none of the three session timers, and its
-- output is over, was told to end, or will be cut off by the drain timer.
pub run-IsSound : (sink : ℕ → Bool) (p : Platform) (es : List Event) → IsSound (run sink p es start)
run-IsSound sink p es = run-keeps sink p es start start-IsSound

-- A session that is closed after any events from its start has either told its output to end, or is
-- done at the latest when the drain timer has fired.
pub run-is_done :
    (sink : ℕ → Bool) (p : Platform) (es : List Event)
    → is_closed (run sink p es start).state ≡ true
    → ((run sink p es start).ended ≡ true)
      ⊎ ((step sink p drain_due (run sink p es start)).done ≡ true)
unfolding step force_output_closed
run-is_done sink p es c = finishes (run sink p es start) (run-IsSound sink p es) c
  where
    finishes :
        (s : Session)
        → IsSound s
        → is_closed s.state ≡ true
        → (s.ended ≡ true) ⊎ ((step sink p drain_due s).done ≡ true)
    finishes s h c = let l = h.phased.leaving in ground arith
