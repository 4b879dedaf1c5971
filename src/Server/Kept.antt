-- ===== src/Server/Kept.antt =====
-- The two gates keep what holds of the tokens in the map.
use dashboard_rpi.Common.{
  ℕ, ◌≡◌, inl, inr, Bool, true, false, Option, none, some, All, Text, text_eq, is_empty, Bool-cases,
}
use dashboard_rpi.Terminal.Session.Boundary.{Boundary, expected_origin}
use dashboard_rpi.Terminal.Session.Registry.{
  Sessions, returned, Reading, create_session, claim_transport,
}
use dashboard_rpi.Terminal.Session.Calls
use dashboard_rpi.Terminal.Session.Calls.{Call, creates, claims, touches_claimed}
use dashboard_rpi.Terminal.Session.History.{step-All}
use dashboard_rpi.Terminal.Admission.Header.{
  HeaderValue, ParseResult, parsed, header_required, header_invalid,
  parse_terminal_websocket_protocol_header,
}
use dashboard_rpi.Terminal.Admission.Gate.{
  AuthResult, SessionStatus, session_admission, websocket_claim, websocket_origin, claim_status,
  websocket_admission, creation_status, admitted,
}
use dashboard_rpi.Server.Created.{
  OfToken, OfToken-Stable, create_session-New, outcome_map-created, outcome_map-state,
}

pub session_admission-New :
    (K : Text → Type 0) (enabled : Bool) (answer : AuthResult) (reading : Reading)
    (factory : ℕ → Text) (origin assertion : Option Text) (m : Sessions)
    → All (OfToken K) m
    → ((t : Text) (idle life : ℕ)
        → (session_admission enabled (λ _. answer) reading factory origin assertion m).1
          ≡ returned (SessionStatus.created t idle life)
        → K t)
    → All (OfToken K) (session_admission enabled (λ _. answer) reading factory origin assertion m).0
unfolding session_admission
session_admission-New K false answer reading factory origin assertion m h new = h
session_admission-New K true AuthResult.rejected reading factory origin assertion m h new = h
session_admission-New K true AuthResult.key_unavailable reading factory origin assertion m h new = h
session_admission-New K true AuthResult.failed reading factory origin assertion m h new = h
session_admission-New K true AuthResult.verified reading factory origin assertion m h new =
    let o = create_session reading factory (admitted origin) m in
    rw (outcome_map-state creation_status o) (
      create_session-New K reading factory (admitted origin) m h
        (λ t meta is. let (idle, life, e) = outcome_map-created o t meta is in new t idle life e))

claim_transport-Kept :
    (K : Text → Type 0) (reading : Reading) (input : Boundary) (token : Option Text) (m : Sessions)
    → All (OfToken K) m
    → All (OfToken K) (claim_transport reading input token m).0
unfolding Calls.step
claim_transport-Kept K reading input token m h =
    step-All (OfToken K) (OfToken-Stable K) (claims reading input token) m tt h

websocket_claim-Kept :
    (K : Text → Type 0) (reading : Reading) (origin : Text) (o : ParseResult) (m : Sessions)
    → All (OfToken K) m
    → All (OfToken K) (websocket_claim reading origin o m).0
unfolding websocket_claim
websocket_claim-Kept K reading origin header_required m h = h
websocket_claim-Kept K reading origin header_invalid m h = h
websocket_claim-Kept K reading origin (parsed token) m h =
    rw
      (outcome_map-state (claim_status token)
        (claim_transport reading (admitted (some origin)) (some token) m))
      (claim_transport-Kept K reading (admitted (some origin)) (some token) m h)

websocket_origin-Kept :
    (K : Text → Type 0) (reading : Reading) (origin : Option Text) (header : HeaderValue)
    (m : Sessions)
    → All (OfToken K) m
    → All (OfToken K) (websocket_origin reading origin header m).0
unfolding websocket_origin
websocket_origin-Kept K reading none header m h = h
websocket_origin-Kept K reading (some origin) header m h = elim (Bool-cases (is_empty origin)) [
  | inl e ↦ rw e h
  | inr e ↦ elim (Bool-cases (text_eq origin expected_origin)) [
    | inr other ↦ rw (e, other) h
    | inl same ↦
        rw (e, same)
          (websocket_claim-Kept K reading origin (parse_terminal_websocket_protocol_header header) m
            h)
  ]
]

pub websocket_admission-Kept :
    (K : Text → Type 0) (enabled : Bool) (answer : AuthResult) (reading : Reading)
    (origin assertion : Option Text) (header : HeaderValue) (m : Sessions)
    → All (OfToken K) m
    → All
        (OfToken K)
        (websocket_admission enabled (λ _. answer) reading origin assertion header m).0
unfolding websocket_admission
websocket_admission-Kept K false answer reading origin assertion header m h = h
websocket_admission-Kept K true AuthResult.rejected reading origin assertion header m h = h
websocket_admission-Kept K true AuthResult.key_unavailable reading origin assertion header m h = h
websocket_admission-Kept K true AuthResult.failed reading origin assertion header m h = h
websocket_admission-Kept K true AuthResult.verified reading origin assertion header m h =
    websocket_origin-Kept K reading origin header m h
