-- ===== src/Terminal/Admission/Upgrade.antt =====
-- From the session gate to the WebSocket gate.
use dashboard_rpi.Common.{
  ℕ, true, false, Option, none, some, [], ◌∷◌, ◌≡◌, ◌<◌, ◌+◌, refl, arith, is_empty, Text, text_eq,
  text_eq_refl, length,
}
use dashboard_rpi.Terminal.Session.Boundary.{
  expected_origin, idle_timeout_ms, origin_rejection, is_terminal_session_token,
}
use dashboard_rpi.Terminal.Session.Registry.{
  Sessions, Metadata, Outcome, returned, at, ClaimResult, claimed, claim_transport, fresh,
  prune_expired, claim_token, claim_pruned, claim_stored, is_expired, find, StoredSession,
  to_metadata,
}
use dashboard_rpi.Terminal.Admission.Header.{single}
use dashboard_rpi.Terminal.Admission.Parsing.{browser_header, parse-browser_header, token_facts}
use dashboard_rpi.Terminal.Admission.Gate.{
  verified, Verifier, SessionStatus, outcome_map, admitted, session_admission, allowed,
  claim_status, websocket_claim, websocket_origin, websocket_admission,
}
use dashboard_rpi.Terminal.Admission.Policy.{boundary-admitted, session_admission-Grants}

fresh-live : (c now : ℕ) → now < c + idle_timeout_ms → is_expired (fresh c) now ≡ false
unfolding is_expired fresh
fresh-live c now live = ground arith

prune_expired-fresh :
    (c now : ℕ) (token : Text)
    → now < c + idle_timeout_ms
    → prune_expired now ((token, fresh c) ∷ []) ≡ (token, fresh c) ∷ []
unfolding prune_expired
prune_expired-fresh c now token live = rw (fresh-live c now live)

find-head : (token : Text) (s : StoredSession) → find token ((token, s) ∷ []) ≡ some s
unfolding find
find-head token s = rw (text_eq_refl token)

token-not_empty : (token : Text) → length token ≡ 64 → is_empty token ≡ false
token-not_empty [] e = absurd (omega arith)
token-not_empty (c ∷ s) e = refl

claim_fresh :
    (c now : ℕ) (token : Text)
    → is_terminal_session_token token ≡ true
    → now < c + idle_timeout_ms
    → (meta : Metadata) × ((claim_transport
          (at now)
          (admitted (some expected_origin))
          (some token)
          ((token, fresh c) ∷ [])).1
        ≡ returned (claimed meta))
unfolding claim_transport claim_token claim_pruned claim_stored
claim_fresh c now token h live = (
  to_metadata (record (fresh c) { last_activity_at = now; transport_claimed_at = some now }),
  ground (
    arith,
    boundary-admitted (some expected_origin),
    expected-allowed,
    token-not_empty token (token_facts token h).0,
    prune_expired-fresh c now token live,
    find-head token (fresh c),
    fresh-unclaimed c,
  ),
)
  where
    expected-allowed : origin_rejection (some expected_origin) ≡ none
    expected-allowed = unfold origin_rejection text_eq in refl

    fresh-unclaimed : (c : ℕ) → (fresh c).transport_claimed_at ≡ none
    fresh-unclaimed c = unfold fresh in refl

allowed-of-claimed :
    (token : Text) (o : Sessions × Outcome ClaimResult) (meta : Metadata)
    → o.1 ≡ returned (claimed meta)
    → (outcome_map (claim_status token) o).1 ≡ returned (allowed token)
unfolding outcome_map claim_status
allowed-of-claimed token (m, o) meta e = rw e

-- If the session gate has answered CREATED with a token at reading c, and the browser comes back
-- to the WebSocket gate less than five minutes later with an accepted assertion, the expected
-- origin and the header that a browser sends for that token, then it is let in, nothing else
-- having been called in between.
pub grant-then-upgrade :
    (verifier verifier' : Verifier) (c now : ℕ) (factory : ℕ → Text)
    (origin assertion assertion' : Option Text) (m m' : Sessions) (token : Text) (idle life : ℕ)
    → session_admission true verifier (at c) factory origin assertion m
      ≡ (m', returned (SessionStatus.created token idle life))
    → verifier' assertion' ≡ verified
    → now < c + idle_timeout_ms
    → (websocket_admission true verifier'
        (at now)
        (some expected_origin)
        assertion'
        (single (browser_header token))
        m').1
      ≡ returned (allowed token)
unfolding websocket_admission websocket_origin
grant-then-upgrade verifier verifier' c now factory origin assertion assertion' m m' token idle life
      e owner live =
    let g =
      session_admission-Grants true verifier c factory origin assertion m m' token idle life e in
    let (meta, claim) = claim_fresh c now token g.formatted live in
    rw (owner, text_eq_refl expected_origin, parse-browser_header token g.formatted, g.after)
      (unfold websocket_claim in allowed-of-claimed token _ meta claim)
