-- ===== src/Server/Tests.antt =====
-- The runtime on concrete requests.

use dashboard_rpi.Common.{◌≡◌, refl, true, some, List, [], ◌∷◌, codes, text_eq}
use dashboard_rpi.Owner.Strings
use dashboard_rpi.Owner.Strings.{read_bounded_string}
use dashboard_rpi.Owner.Config.{construct}
use dashboard_rpi.Terminal.Session.Boundary.{
  is_terminal_session_token, evaluate_terminal_boundary, evaluate_terminal_admission,
  expected_origin,
}
use dashboard_rpi.Terminal.Session.Registry.{
  fresh, find, claim_transport, unique_token, prune_expired, create_session, at, returned,
}
use dashboard_rpi.Terminal.Admission.Header.{
  parse_terminal_websocket_protocol_header, HeaderValue, single,
}
use dashboard_rpi.Terminal.Admission.Gate.{
  websocket_admission, session_admission, SessionStatus, allowed,
}
use dashboard_rpi.Terminal.Admission.Parsing.{Offers, browser_header}
use dashboard_rpi.Terminal.Tests.Session.{token, stored, factory}
use dashboard_rpi.Server.Wiring.{Environment, TerminalRuntime, create_default_terminal_runtime}
use dashboard_rpi.Server.Requests
use dashboard_rpi.Server.Requests.{
  State, start, session_request, websocket_request, Event, asks_session, run,
}
use dashboard_rpi.Server.Admitting.{OwnerAsserts}
use dashboard_rpi.Server.Created.{WasCreated}
use dashboard_rpi.Server.Traced.{websocket_request-WasCreated}
use dashboard_rpi.Owner.Tests.{runtime, config, answers, assertion, cache, verifies, verifies_again}

abbrev environment : Environment
environment = record {
  terminal_enabled = some (codes "enabled");
  access_team = some (codes "team");
  access_aud = some (codes "app-1");
  owner_email = some (codes "o@h.lv");
}

abbrev terminal_runtime : TerminalRuntime
terminal_runtime = record { terminal_enabled = true; owner_auth_verifier = some config }

made : create_default_terminal_runtime runtime environment ≡ some terminal_runtime
unfolding create_default_terminal_runtime text_eq Strings.is_space construct Strings.utf16_length
    Strings.has_space
made = refl

created :
    (session_request runtime terminal_runtime answers
      (at 1000)
      factory
      (some expected_origin)
      assertion
      start).1
    ≡ returned (SessionStatus.created token 300000 1800000)
unfolding session_request session_admission create_session evaluate_terminal_admission
    evaluate_terminal_boundary text_eq prune_expired unique_token is_terminal_session_token
created = rw verifies

abbrev events : List Event
events = asks_session answers (at 1000) factory (some expected_origin) assertion ∷ []

abbrev header : HeaderValue
header = single (browser_header token)

after_events :
    run runtime terminal_runtime events start ≡ record { cache = cache; sessions = stored }
unfolding run Requests.step session_request session_admission create_session
    evaluate_terminal_admission evaluate_terminal_boundary text_eq prune_expired unique_token
    is_terminal_session_token Requests.owner_answer
after_events = rw verifies

token-claimed :
    (websocket_request runtime terminal_runtime answers
      (at 1500)
      (some expected_origin)
      assertion
      header
      (record { cache = cache; sessions = stored })).1
    ≡ returned (allowed token)
unfolding websocket_request Requests.owner_answer websocket_admission text_eq
    parse_terminal_websocket_protocol_header is_terminal_session_token claim_transport
    evaluate_terminal_boundary find prune_expired fresh
token-claimed = rw verifies_again

allows :
    (websocket_request runtime terminal_runtime answers
      (at 1500)
      (some expected_origin)
      assertion
      header
      (run runtime terminal_runtime events start)).1
    ≡ returned (allowed token)
allows = rw after_events token-claimed

websocket_request-WasCreated_example :
    WasCreated runtime environment terminal_runtime token events start
    × (some expected_origin ≡ some expected_origin)
    × Offers header token
    × OwnerAsserts runtime environment answers assertion
        (websocket_request runtime terminal_runtime answers
          (at 1500)
          (some expected_origin)
          assertion
          header
          (run runtime terminal_runtime events start)).0.cache
websocket_request-WasCreated_example =
    websocket_request-WasCreated runtime environment terminal_runtime events answers (at 1500)
      (some expected_origin) assertion header token made allows
