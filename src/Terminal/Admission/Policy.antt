-- ===== src/Terminal/Admission/Policy.antt =====
-- Who gets through the two gates.
use dashboard_rpi.Common.{
  ℕ, Bool, true, Option, none, some, [], ◌∷◌, ◌≡◌, ◌∙◌, refl, arith, Text, text_eq_iff, ap,
}
use dashboard_rpi.Terminal.Session.Boundary.{
  Rejection, expected_origin, evaluate_terminal_boundary, origin_rejection,
  is_terminal_session_token,
}
use dashboard_rpi.Terminal.Session.Registry.{
  Sessions, Metadata, Outcome, returned, thrown, Reading, at, ClaimResult, claimed, create_session,
  claim_transport, fresh, prune_expired,
}
use dashboard_rpi.Terminal.Session.Lifetime.{create_session_lem, creation}
use dashboard_rpi.Terminal.Admission.Header.{
  HeaderValue, ParseResult, parsed, header_required, header_invalid,
  parse_terminal_websocket_protocol_header,
}
use dashboard_rpi.Terminal.Admission.Parsing.{Offers, parse-Offers}
use dashboard_rpi.Terminal.Admission.Gate.{
  verified, Verifier, SessionStatus, creation_status, outcome_map, admitted, session_admission,
  allowed, claim_status, websocket_claim, websocket_origin, websocket_admission,
}

pub boundary-admitted :
    (origin : Option Text) → evaluate_terminal_boundary (admitted origin) ≡ origin_rejection origin
unfolding evaluate_terminal_boundary admitted
boundary-admitted origin = refl

origin_rejection-none :
    (origin : Option Text) → origin_rejection origin ≡ none → origin ≡ some expected_origin
unfolding origin_rejection
origin_rejection-none none e = cc
origin_rejection-none (some o) e = ground (arith, text_eq_iff o expected_origin)

creation-granted :
    (factory : ℕ → Text) (o : Option Rejection) (now : ℕ) (m m' : Sessions) (token : Text)
    (idle life : ℕ)
    → outcome_map creation_status (creation factory o now m)
      ≡ (m', returned (SessionStatus.created token idle life))
    → (o ≡ none)
      × (m ≡ [])
      × (token ≡ factory 0)
      × (is_terminal_session_token token ≡ true)
      × (m' ≡ (token, fresh now) ∷ [])
unfolding outcome_map creation_status
creation-granted factory (some reason) now m m' token idle life e = absurd (ground arith)
creation-granted factory none now (x ∷ m) m' token idle life e = absurd (ground arith)
creation-granted factory none now [] m' token idle life e = ground arith

-- What a grant shows of the request, and what it leaves in the map.
pub record Grants (enabled : Bool) (verifier : Verifier) (now : ℕ) (factory : ℕ → Text)
    (origin assertion : Option Text) (m m' : Sessions) (token : Text) : Type 0 where
  pub enabled_here : enabled ≡ true
  pub owner : verifier assertion ≡ verified
  pub same_origin : origin ≡ some expected_origin
  pub free : prune_expired now m ≡ []
  pub first : token ≡ factory 0
  pub formatted : is_terminal_session_token token ≡ true
  pub after : m' ≡ (token, fresh now) ∷ []

-- If the session gate answers CREATED at a valid clock reading, then the terminal is enabled, the
-- verifier accepted the assertion, the origin is the expected one and no unexpired session was
-- stored; afterwards exactly the new session is, under the factory's first token, which has the
-- token format.
pub session_admission-Grants :
    (enabled : Bool) (verifier : Verifier) (now : ℕ) (factory : ℕ → Text)
    (origin assertion : Option Text) (m m' : Sessions) (token : Text) (idle life : ℕ)
    → session_admission enabled verifier (at now) factory origin assertion m
      ≡ (m', returned (SessionStatus.created token idle life))
    → Grants enabled verifier now factory origin assertion m m' token
unfolding session_admission
session_admission-Grants enabled verifier now factory origin assertion m m' token idle life e =
    let reached : outcome_map creation_status (create_session (at now) factory (admitted origin) m)
        ≡ (m', returned (SessionStatus.created token idle life)) =
      ground arith in
    let (passed, free, first, formatted, after) =
      creation-granted factory (evaluate_terminal_boundary (admitted origin)) now
        (prune_expired now m) m' token idle life
        (rw (← create_session_lem factory (admitted origin) now m) reached) in
    record {
      enabled_here = ground arith;
      owner = ground arith;
      same_origin = origin_rejection-none origin (rw (← boundary-admitted origin) passed);
      free = free;
      first = first;
      formatted = formatted;
      after = after;
    }

claim_status-allowed :
    (t token : Text) (m' : Sessions) (o : Sessions × Outcome ClaimResult)
    → outcome_map (claim_status t) o ≡ (m', returned (allowed token))
    → (t ≡ token) × (meta : Metadata) × (o ≡ (m', returned (claimed meta)))
unfolding outcome_map claim_status
claim_status-allowed t token m' (m, thrown f) e = absurd (ground arith)
claim_status-allowed t token m' (m, returned (ClaimResult.refused r)) e = absurd (ground arith)
claim_status-allowed t token m' (m, returned (claimed meta)) e = (ground arith, meta, ground arith)

websocket_claim-allowed :
    (reading : Reading) (origin : Text) (header : HeaderValue) (o : ParseResult) (m m' : Sessions)
    (token : Text)
    → parse_terminal_websocket_protocol_header header ≡ o
    → websocket_claim reading origin o m ≡ (m', returned (allowed token))
    → Offers header token
      × (meta : Metadata) × (claim_transport reading (admitted (some origin)) (some token) m
          ≡ (m', returned (claimed meta)))
unfolding websocket_claim
websocket_claim-allowed reading origin header header_required m m' token p e = absurd (ground arith)
websocket_claim-allowed reading origin header header_invalid m m' token p e = absurd (ground arith)
websocket_claim-allowed reading origin header (parsed t) m m' token p e =
    let (same, meta, granted) =
      claim_status-allowed t token m' (claim_transport reading (admitted (some origin)) (some t) m)
        e in
    (parse-Offers header token (p ∙ ap parsed same), meta, rw (← same) granted)

-- If the WebSocket gate answers ALLOWED for a token, then the terminal is enabled, the verifier
-- accepted the assertion, the origin is the expected one, the protocol header has the accepted
-- shape and offers that token, and the registry granted the claim of that token.
pub websocket_admission-allowed :
    (enabled : Bool) (verifier : Verifier) (reading : Reading) (origin assertion : Option Text)
    (header : HeaderValue) (m m' : Sessions) (token : Text)
    → websocket_admission enabled verifier reading origin assertion header m
      ≡ (m', returned (allowed token))
    → (enabled ≡ true)
      × (verifier assertion ≡ verified)
      × (origin ≡ some expected_origin)
      × Offers header token
      × (meta : Metadata) × (claim_transport reading (admitted origin) (some token) m
          ≡ (m', returned (claimed meta)))
unfolding websocket_admission websocket_origin
websocket_admission-allowed enabled verifier reading none assertion header m m' token e =
    absurd (ground arith)
websocket_admission-allowed enabled verifier reading (some origin) assertion header m m' token e =
    let expected : origin ≡ expected_origin = ground (arith, text_eq_iff origin expected_origin) in
    let (offers, meta, granted) =
      websocket_claim-allowed reading origin header _ m m' token refl (ground arith) in
    (ground arith, ground arith, ap some expected, offers, meta, granted)
