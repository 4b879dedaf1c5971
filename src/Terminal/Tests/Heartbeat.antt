-- ===== src/Terminal/Tests/Heartbeat.antt =====
-- A heartbeat on concrete events.
use dashboard_rpi.Common.{ℕ, ◌≡◌, inr, refl, true, false, some, List, [], ◌∷◌, arith}
use dashboard_rpi.Terminal.Heartbeat.{Heartbeat, Event, heartbeat_due, pong_due, pong, run, attach}
use dashboard_rpi.Terminal.Heartbeat.Beating.{
  InTime, Timely, IsBeating, waits, run-IsBeating, run-silent_peer,
}

abbrev beats : List (ℕ × Event)
beats = (25000, heartbeat_due false) ∷ (25040, pong) ∷ (50000, heartbeat_due false) ∷ []

beats-Timely : Timely beats (attach 0)
unfolding run attach
beats-Timely = (
  ((λ d e. ground arith), λ d e. ground arith),
  (
    ((λ d e. ground arith), λ d e. ground arith),
    (((λ d e. ground arith), λ d e. ground arith), tt),
  ),
)

run-IsBeating_example : IsBeating (run beats (attach 0))
run-IsBeating_example = run-IsBeating 0 beats beats-Timely

-- A ping of time 25000 is out.
abbrev pinged : Heartbeat
pinged = record {
  closed = false;
  heartbeat_timer = some 50000;
  pong_timer = some 35000;
  pings = 1;
  terminations = 0;
}

pinged-IsBeating : IsBeating pinged
pinged-IsBeating = waits refl 50000 refl (inr (35000, refl, refl)) refl

abbrev silence : List (ℕ × Event)
silence = (35000, pong_due) ∷ []

silence-Timely : Timely silence pinged
silence-Timely = (((λ d e. ground arith), λ d e. ground arith), tt)

silence-late : InTime 40000 (run silence pinged)
unfolding run
silence-late = ((λ d e. absurd (ground arith)), λ d e. absurd (ground arith))

run-silent_peer_example : (run silence pinged).closed ≡ true
run-silent_peer_example =
    run-silent_peer 35000 40000 silence pinged pinged-IsBeating refl silence-Timely (tt, tt)
      silence-late (omega arith)
