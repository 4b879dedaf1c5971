-- ===== src/Terminal/Admission/Gate.antt =====
-- apps/server/src/terminal-session-admission.ts, terminal-websocket-admission.ts and
-- terminal-session-route.ts. The Cloudflare verifier is a parameter that
-- answers for an assertion; a handler that throws is a rejected promise.
use dashboard_rpi.Common.{
  ℕ, Bool, true, not, Option, none, some, if◌then◌else◌, is_empty, Text, codes, text_eq,
}
use dashboard_rpi.Terminal.Session.Boundary.{
  Boundary, terminal_disabled, concurrency_limit, expected_origin, idle_timeout_ms, max_lifetime_ms,
}
use dashboard_rpi.Terminal.Session.Registry.{
  Sessions, Outcome, returned, thrown, Reading, CreateResult, ClaimResult, claimed, create_session,
  claim_transport,
}
use dashboard_rpi.Terminal.Admission.Header.{
  HeaderValue, absent, single, many, ParseResult, parsed, header_required, header_invalid,
  parse_terminal_websocket_protocol_header,
}

-- What `verifyAssertion` comes to: an identity, `KEY_UNAVAILABLE`, any other rejection, a throw.
pub data AuthResult : Type 0 where
  verified key_unavailable rejected failed : AuthResult

abbrev pub Verifier : Type 0
Verifier = Option Text → AuthResult

pub data SessionStatus : Type 0 where
  created : Text → ℕ → ℕ → SessionStatus
  terminal_unavailable admission_denied session_limit auth_unavailable : SessionStatus

unfoldable pub creation_status : CreateResult → SessionStatus
creation_status (CreateResult.created token meta) =
    SessionStatus.created token idle_timeout_ms max_lifetime_ms
creation_status (CreateResult.refused concurrency_limit) = session_limit
creation_status (CreateResult.refused terminal_disabled) = terminal_unavailable
creation_status (CreateResult.refused _) = admission_denied

unfoldable pub outcome_map : {A B : Type 0} → (A → B) → Sessions × Outcome A → Sessions × Outcome B
outcome_map f (m, returned a) = (m, returned (f a))
outcome_map f (m, thrown e) = (m, thrown e)

unfoldable pub admitted : Option Text → Boundary
admitted origin = record { terminal_enabled = true; owner_auth_verified = true; origin = origin }

-- The function that `createTerminalSessionAdmission` returns.
unfoldable pub session_admission :
    Bool
    → Verifier
    → Reading
    → (ℕ → Text)
    → (origin assertion : Option Text) → Sessions
    → Sessions × Outcome SessionStatus
unfolding outcome_map creation_status admitted
session_admission enabled verifier reading factory origin assertion m =
    if not enabled then (m, returned terminal_unavailable) else elim (verifier assertion) [
      | failed ↦ (m, returned auth_unavailable)
      | key_unavailable ↦ (m, returned auth_unavailable)
      | rejected ↦ (m, returned admission_denied)
      | verified ↦ outcome_map creation_status (create_session reading factory (admitted origin) m)
    ]

pub data WebSocketStatus : Type 0 where
  allowed : Text → WebSocketStatus
  terminal_unavailable admission_denied auth_unavailable : WebSocketStatus

unfoldable pub claim_status : Text → ClaimResult → WebSocketStatus
claim_status token (claimed meta) = allowed token
claim_status token (ClaimResult.refused _) = WebSocketStatus.admission_denied

unfoldable pub websocket_claim :
    Reading → Text → ParseResult → Sessions → Sessions × Outcome WebSocketStatus
unfolding outcome_map claim_status admitted
websocket_claim reading origin (parsed token) m =
    outcome_map (claim_status token)
      (claim_transport reading (admitted (some origin)) (some token) m)
websocket_claim reading origin header_required m = (m, returned WebSocketStatus.admission_denied)
websocket_claim reading origin header_invalid m = (m, returned WebSocketStatus.admission_denied)

unfoldable pub websocket_origin :
    Reading → Option Text → HeaderValue → Sessions → Sessions × Outcome WebSocketStatus
unfolding websocket_claim
websocket_origin reading none header m = (m, returned WebSocketStatus.admission_denied)
websocket_origin reading (some origin) header m =
    if is_empty origin
    then (m, returned WebSocketStatus.admission_denied)
    else if not (text_eq origin expected_origin)
    then (m, returned WebSocketStatus.admission_denied)
    else websocket_claim reading origin (parse_terminal_websocket_protocol_header header) m

-- The function that `createTerminalWebSocketAdmission` returns.
unfoldable pub websocket_admission :
    Bool
    → Verifier
    → Reading
    → (origin assertion : Option Text) → HeaderValue
    → Sessions
    → Sessions × Outcome WebSocketStatus
unfolding websocket_origin
websocket_admission enabled verifier reading origin assertion header m =
    if not enabled
    then (m, returned WebSocketStatus.terminal_unavailable)
    else elim (verifier assertion) [
      | failed ↦ (m, returned WebSocketStatus.auth_unavailable)
      | key_unavailable ↦ (m, returned WebSocketStatus.auth_unavailable)
      | rejected ↦ (m, returned WebSocketStatus.admission_denied)
      | verified ↦ websocket_origin reading origin header m
    ]

-- `readSingleHeader` of the route.
unfoldable pub read_single_header : HeaderValue → Option Text
read_single_header absent = none
read_single_header (many _) = none
read_single_header (single value) = if is_empty value then none else some value

-- A reply of the route: its status and body. A rejected promise is the framework's 500.
pub data Reply : Type 0 where
  granted : Text → ℕ → ℕ → Reply
  error : ℕ → Text → Reply
  crashed : Reply

unfoldable pub session_reply : Outcome SessionStatus → Reply
session_reply (returned (SessionStatus.created token idle life)) = granted token idle life
session_reply (returned SessionStatus.terminal_unavailable) =
    error 404 (codes "TERMINAL_UNAVAILABLE")
session_reply (returned SessionStatus.admission_denied) = error 403 (codes "ADMISSION_DENIED")
session_reply (returned session_limit) = error 409 (codes "SESSION_LIMIT")
session_reply (returned SessionStatus.auth_unavailable) = error 503 (codes "AUTH_UNAVAILABLE")
session_reply (thrown e) = crashed

-- The handler of `POST /api/terminal/session`, given whether the framework accepted the body.
unfoldable pub session_route :
    Bool
    → Verifier
    → Reading
    → (ℕ → Text)
    → (valid_body : Bool) → (origin assertion : HeaderValue) → Sessions
    → Sessions × Reply
unfolding session_admission read_single_header session_reply
session_route enabled verifier reading factory valid_body origin assertion m =
    if not valid_body
    then (m, error 400 (codes "INVALID_REQUEST"))
    else let (m', o) =
        session_admission enabled verifier reading factory (read_single_header origin)
          (read_single_header assertion) m in
      (m', session_reply o)
