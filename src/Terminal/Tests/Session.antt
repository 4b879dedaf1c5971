-- ===== src/Terminal/Tests/Session.antt =====
-- The registry of sessions on concrete calls.
use dashboard_rpi.Common.{
  text_eq, ℕ, ◌≡◌, ◌<◌, ◌+◌, ◌≢◌, refl, true, none, some, List, [], ◌∷◌, arith, Text, codes,
}
use dashboard_rpi.Terminal.Session.Boundary.{
  evaluate_terminal_admission, Boundary, expected_origin, max_lifetime_ms,
  is_terminal_session_token, evaluate_terminal_boundary,
}
use dashboard_rpi.Terminal.Session.Registry.{
  replace, active_count, touch_claimed_transport, unique_token, find, Sessions, StoredSession,
  returned, at, fresh, to_metadata, claim_transport, claimed, create_session, created,
  touch_claimed_at, revoke, prune_expired,
}
use dashboard_rpi.Terminal.Session.Calls.{step, Call, claims, counts, touches_claimed, creates, run}
use dashboard_rpi.Terminal.Session.Slot.{view, slot_run}
use dashboard_rpi.Terminal.Session.Refinement.{answers, run-refines}
use dashboard_rpi.Terminal.Session.Limits.{IsValid, run-IsValid}
use dashboard_rpi.Terminal.Session.Tokens.{claim_transport_once, revoke_final}
use dashboard_rpi.Terminal.Session.Lifetime.{session_lifetime}

abbrev pub token : Text
token = codes "00112233445566778899aabbccddeeff00112233445566778899aabbccddeeff"

abbrev pub owner : Boundary
owner = record {
  terminal_enabled = true;
  owner_auth_verified = true;
  origin = some expected_origin;
}

abbrev pub factory : ℕ → Text
factory n = token

abbrev pub stored : Sessions
stored = (token, fresh 1000) ∷ []

abbrev claimed_session : StoredSession
claimed_session = record {
  created_at = 1000;
  last_activity_at = 2000;
  transport_claimed_at = some 2000;
}

abbrev after_claim : Sessions
after_claim = (token, claimed_session) ∷ []

abbrev later : List Call
later =
    claims (at 3000) owner (some token) ∷ counts (at 4000) ∷ touches_claimed (at 5000) token ∷ []

claim-granted :
    (claim_transport (at 2000) owner (some token) stored).1
    ≡ returned (claimed (to_metadata claimed_session))
unfolding claim_transport fresh evaluate_terminal_boundary is_terminal_session_token text_eq find
    prune_expired
claim-granted = refl

claim_transport_once_example :
    (claim_transport
      (at 6000)
      owner
      (some token)
      (run later (claim_transport (at 2000) owner (some token) stored).0)).1
    ≢ returned (claimed (to_metadata claimed_session))
claim_transport_once_example =
    claim_transport_once stored (at 2000) (at 6000) owner owner token (to_metadata claimed_session)
      (to_metadata claimed_session) later (omega arith) claim-granted (tt, (tt, (tt, tt)))

revoke_final_example :
    ((claim_transport (at 6000) owner (some token) (run later (revoke token after_claim).0)).1
      ≢ returned (claimed (to_metadata claimed_session)))
    × ((touch_claimed_at token 7000 (run later (revoke token after_claim).0)).1 ≡ none)
revoke_final_example =
    revoke_final after_claim (at 6000) 7000 owner token (to_metadata claimed_session) later
      (omega arith) (tt, (tt, (tt, tt)))

abbrev first_calls : List Call
first_calls = creates (at 1000) factory owner ∷ claims (at 2000) owner (some token) ∷ later

empty-IsValid : IsValid []
empty-IsValid = record { bounded = omega arith; formatted = tt }

run-IsValid_example : IsValid (run first_calls [])
run-IsValid_example = run-IsValid first_calls [] empty-IsValid

-- The calls between the creation and the touch.
abbrev use_calls : List Call
use_calls = claims (at 2000) owner (some token) ∷ later

session-created :
    create_session (at 1000) factory owner []
    ≡ (stored, returned (created token (to_metadata (fresh 1000))))
unfolding create_session evaluate_terminal_boundary is_terminal_session_token prune_expired
    evaluate_terminal_admission text_eq unique_token
session-created = refl

abbrev touched_session : StoredSession
touched_session = record {
  created_at = 1000;
  last_activity_at = 9000;
  transport_claimed_at = some 2000;
}

session-touched :
    (touch_claimed_at token 9000 (run use_calls stored)).1 ≡ some (to_metadata touched_session)
unfolding run touch_claimed_at fresh evaluate_terminal_boundary is_terminal_session_token find
    prune_expired step touch_claimed_transport active_count claim_transport text_eq replace
session-touched = refl

session_lifetime_example :
    (9000 < 1000 + max_lifetime_ms)
    × ((to_metadata touched_session).max_expires_at ≡ 1000 + max_lifetime_ms)
session_lifetime_example =
    session_lifetime factory owner 1000 [] stored token (to_metadata (fresh 1000))
      (to_metadata touched_session) use_calls 9000 session-created (tt, (tt, (tt, (tt, tt))))
      session-touched

run-refines_example :
    (answers first_calls [] ≡ (slot_run first_calls (view [])).1)
    × (view (run first_calls []) ≡ (slot_run first_calls (view [])).0)
run-refines_example = run-refines first_calls [] (omega arith)
