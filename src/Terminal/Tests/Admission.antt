-- ===== src/Terminal/Tests/Admission.antt =====
-- The two gates on concrete requests.
use dashboard_rpi.Terminal.Admission.Upgrade.{grant-then-upgrade}
use dashboard_rpi.Common.{text_eq, ◌≡◌, refl, true, Option, some, [], ◌∷◌, arith, Text, codes}
use dashboard_rpi.Terminal.Session.Boundary.{
  evaluate_terminal_boundary, evaluate_terminal_admission, expected_origin, idle_timeout_ms,
  max_lifetime_ms, is_terminal_session_token,
}
use dashboard_rpi.Terminal.Session.Registry.{
  replace, find, unique_token, prune_expired, create_session, Sessions, Metadata, returned, at,
  fresh, claim_transport, claimed,
}
use dashboard_rpi.Terminal.Admission.Header.{
  HeaderValue, single, parsed, parse_terminal_websocket_protocol_header,
}
use dashboard_rpi.Terminal.Admission.Parsing.{
  browser_header, parse-browser_header, Offers, parse-Offers,
}
use dashboard_rpi.Terminal.Admission.Gate.{
  verified, Verifier, SessionStatus, admitted, session_admission, allowed, websocket_admission,
}
use dashboard_rpi.Terminal.Admission.Policy.{
  Grants, session_admission-Grants, websocket_admission-allowed,
}
use dashboard_rpi.Terminal.Tests.Session.{token, factory, stored}

abbrev verifier : Verifier
verifier _ = verified

abbrev assertion : Option Text
assertion = some (codes "a.b.c")

abbrev header : HeaderValue
header = single (browser_header token)

token-formatted : is_terminal_session_token token ≡ true
unfolding is_terminal_session_token
token-formatted = refl

parse-browser_header_example :
    parse_terminal_websocket_protocol_header (single (browser_header token)) ≡ parsed token
parse-browser_header_example = parse-browser_header token token-formatted

header-parsed : parse_terminal_websocket_protocol_header header ≡ parsed token
header-parsed = parse-browser_header token token-formatted

parse-Offers_example : Offers header token
parse-Offers_example = parse-Offers header token header-parsed

session-granted :
    session_admission true verifier (at 1000) factory (some expected_origin) assertion []
    ≡ (stored, returned (SessionStatus.created token idle_timeout_ms max_lifetime_ms))
unfolding session_admission create_session evaluate_terminal_admission evaluate_terminal_boundary
    text_eq prune_expired unique_token is_terminal_session_token
session-granted = refl

session_admission-Grants_example :
    Grants true verifier 1000 factory (some expected_origin) assertion [] stored token
session_admission-Grants_example =
    session_admission-Grants true verifier 1000 factory (some expected_origin) assertion [] stored
      token idle_timeout_ms max_lifetime_ms session-granted

grant-then-upgrade_example :
    (websocket_admission true verifier
      (at 200000)
      (some expected_origin)
      assertion
      (single (browser_header token))
      stored).1
    ≡ returned (allowed token)
grant-then-upgrade_example =
    grant-then-upgrade verifier verifier 1000 200000 factory (some expected_origin) assertion
      assertion [] stored token idle_timeout_ms max_lifetime_ms session-granted refl (omega arith)

abbrev claimed_once : Sessions
claimed_once =
    (token, record { created_at = 1000; last_activity_at = 2000; transport_claimed_at = some 2000 })
    ∷ []

upgrade-allowed :
    websocket_admission true verifier (at 2000) (some expected_origin) assertion header stored
    ≡ (claimed_once, returned (allowed token))
unfolding websocket_admission text_eq parse_terminal_websocket_protocol_header
    is_terminal_session_token claim_transport evaluate_terminal_boundary find prune_expired fresh
    replace
upgrade-allowed = refl

websocket_admission-allowed_example :
    (true ≡ true)
    × (verifier assertion ≡ verified)
    × (some expected_origin ≡ some expected_origin)
    × Offers header token
    × (meta : Metadata) × (claim_transport
          (at 2000)
          (admitted (some expected_origin))
          (some token)
          stored
        ≡ (claimed_once, returned (claimed meta)))
websocket_admission-allowed_example =
    websocket_admission-allowed true verifier (at 2000) (some expected_origin) assertion header
      stored claimed_once token upgrade-allowed
