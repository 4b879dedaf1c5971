-- ===== src/Terminal/Session/Calls.antt =====
-- Histories of calls of the registry's methods, each with its own reading of the clock.
use dashboard_rpi.Common.{ℕ, Option, List, [], ◌∷◌, Text, ◌≢◌}
use dashboard_rpi.Terminal.Session.Boundary.{Boundary}
use dashboard_rpi.Terminal.Session.Registry.{
  Sessions, Reading, create_session, claim_transport, touch, touch_claimed_transport, revoke,
  active_count,
}

pub data Call : Type 0 where
  creates : Reading → (ℕ → Text) → Boundary → Call
  claims : Reading → Boundary → Option Text → Call
  touches touches_claimed : Reading → Text → Call
  revokes : Text → Call
  counts : Reading → Call

-- The map after a call, whether it returned or threw.
unfoldable pub step : Call → Sessions → Sessions
step (creates reading factory input) m = (create_session reading factory input m).0
step (claims reading input token) m = (claim_transport reading input token m).0
step (touches reading token) m = (touch reading token m).0
step (touches_claimed reading token) m = (touch_claimed_transport reading token m).0
step (revokes token) m = (revoke token m).0
step (counts reading) m = (active_count reading m).0

unfoldable pub run : List Call → Sessions → Sessions
run [] m = m
run (c ∷ cs) m = run cs (step c m)

-- The call's token factory never yields the token.
abbrev pub Avoids : Text → Call → Type 0
Avoids t (creates reading factory input) = (n : ℕ) → factory n ≢ t
Avoids t (claims reading input token) = Unit
Avoids t (touches reading token) = Unit
Avoids t (touches_claimed reading token) = Unit
Avoids t (revokes token) = Unit
Avoids t (counts reading) = Unit
