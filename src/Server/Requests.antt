-- ===== src/Server/Requests.antt =====
-- The requests that the runtime answers: for a session, and for the WebSocket of one. A
-- verification runs without another in between; the gate's own part is one synchronous step.
use dashboard_rpi.Common.{Option, none, some, List, [], ◌∷◌, if◌then◌else◌, Text, ℕ}
use dashboard_rpi.Owner.Config.{Runtime}
use dashboard_rpi.Owner.Claims.{Result, refused, throws, Rejection}
use dashboard_rpi.Owner.Keys.{KeyCache, empty_cache}
use dashboard_rpi.Owner.Verifier.{Answers, verify_assertion}
use dashboard_rpi.Terminal.Session.Registry.{
  Sessions, Outcome, Reading, touch_claimed_transport, revoke,
}
use dashboard_rpi.Terminal.Admission.Header.{HeaderValue}
use dashboard_rpi.Terminal.Admission.Gate.{
  AuthResult, SessionStatus, WebSocketStatus, session_admission, websocket_admission,
}
use dashboard_rpi.Server.Wiring.{TerminalRuntime}

-- How the two gates read the verifier's answer.
unfoldable pub access_result : Result → AuthResult
access_result (Result.verified email subject) = AuthResult.verified
access_result (refused Rejection.key_unavailable) = AuthResult.key_unavailable
access_result (refused _) = AuthResult.rejected
access_result throws = AuthResult.failed

pub record State : Type 0 where
  pub cache : KeyCache
  pub sessions : Sessions

abbrev pub start : State
start = record { cache = empty_cache; sessions = [] }

unfoldable pub answered : KeyCache × Result → KeyCache × AuthResult
unfolding access_result
answered (cache, result) = (cache, access_result result)

-- The shared verifier, which is called only where the terminal is enabled.
unfoldable pub owner_answer :
    Runtime → TerminalRuntime → Answers → Option Text → KeyCache → KeyCache × AuthResult
unfolding answered
owner_answer r rt a assertion cache = elim rt.owner_auth_verifier [
  | none ↦ (cache, AuthResult.failed)
  | some c ↦
      if rt.terminal_enabled
      then answered (verify_assertion r c a assertion cache)
      else (cache, AuthResult.failed)
]

abbrev pub with_cache {ℓ} : {A : Type ℓ} → KeyCache → Sessions × A → State × A
with_cache cache (m, outcome) = (record { cache = cache; sessions = m }, outcome)

unfoldable pub session_answered :
    TerminalRuntime
    → Reading
    → (ℕ → Text)
    → (origin assertion : Option Text) → Sessions
    → KeyCache × AuthResult
    → State × Outcome SessionStatus
session_answered rt reading factory origin assertion m (cache, answer) =
    with_cache cache
      (session_admission rt.terminal_enabled (λ _. answer) reading factory origin assertion m)

-- A call of the runtime's `sessionAdmission`.
unfoldable pub session_request :
    Runtime
    → TerminalRuntime
    → Answers
    → Reading
    → (ℕ → Text)
    → (origin assertion : Option Text) → State
    → State × Outcome SessionStatus
unfolding owner_answer session_answered
session_request r rt a reading factory origin assertion st =
    session_answered rt reading factory origin assertion st.sessions
      (owner_answer r rt a assertion st.cache)

unfoldable pub websocket_answered :
    TerminalRuntime
    → Reading
    → (origin assertion : Option Text) → HeaderValue
    → Sessions
    → KeyCache × AuthResult
    → State × Outcome WebSocketStatus
websocket_answered rt reading origin assertion header m (cache, answer) =
    with_cache cache
      (websocket_admission rt.terminal_enabled (λ _. answer) reading origin assertion header m)

-- A call of the runtime's `websocketAdmission`.
unfoldable pub websocket_request :
    Runtime
    → TerminalRuntime
    → Answers
    → Reading
    → (origin assertion : Option Text) → HeaderValue
    → State
    → State × Outcome WebSocketStatus
unfolding owner_answer websocket_answered
websocket_request r rt a reading origin assertion header st =
    websocket_answered rt reading origin assertion header st.sessions
      (owner_answer r rt a assertion st.cache)

-- What happens to the state: requests, and what a bridge calls of the registry.
pub data Event : Type 0 where
  asks_session : Answers → Reading → (ℕ → Text) → (origin assertion : Option Text) → Event
  asks_websocket : Answers → Reading → (origin assertion : Option Text) → HeaderValue → Event
  touches : Reading → Text → Event
  revokes : Text → Event

unfoldable pub step : Runtime → TerminalRuntime → Event → State → State
unfolding session_request websocket_request
step r rt (asks_session a reading factory origin assertion) st =
    (session_request r rt a reading factory origin assertion st).0
step r rt (asks_websocket a reading origin assertion header) st =
    (websocket_request r rt a reading origin assertion header st).0
step r rt (touches reading token) st = record st {
  sessions = (touch_claimed_transport reading token st.sessions).0;
}
step r rt (revokes token) st = record st { sessions = (revoke token st.sessions).0 }

unfoldable pub run : Runtime → TerminalRuntime → List Event → State → State
run r rt [] st = st
run r rt (e ∷ es) st = run r rt es (step r rt e st)
