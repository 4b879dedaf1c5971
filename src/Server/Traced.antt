-- ===== src/Server/Traced.antt =====
-- Every token that the runtime's WebSocket gate lets in comes from its session gate.
use dashboard_rpi.Common.{
  ◌≡◌, ◌⊎◌, inl, inr, refl, ap, Option, some, List, [], ◌∷◌, All, All-map, Text,
}
use dashboard_rpi.Owner.Config.{Runtime}
use dashboard_rpi.Owner.Keys.{KeyCache}
use dashboard_rpi.Owner.Verifier.{Answers}
use dashboard_rpi.Terminal.Session.Boundary.{Boundary, expected_origin}
use dashboard_rpi.Terminal.Session.Registry.{
  Sessions, returned, Reading, claim_transport, claimed, Metadata, prune_expired,
}
use dashboard_rpi.Terminal.Session.Maps.{prune_expired-All, find-All}
use dashboard_rpi.Terminal.Session.Calls
use dashboard_rpi.Terminal.Session.Calls.{Call, creates, claims, touches_claimed}
use dashboard_rpi.Terminal.Session.History.{step-All}
use dashboard_rpi.Terminal.Admission.Header.{HeaderValue}
use dashboard_rpi.Terminal.Admission.Gate.{AuthResult, allowed, websocket_admission, admitted}
use dashboard_rpi.Terminal.Admission.Policy.{websocket_admission-allowed}
use dashboard_rpi.Server.Wiring.{Environment, TerminalRuntime, create_default_terminal_runtime}
use dashboard_rpi.Server.Requests.{
  State, start, owner_answer, session_answered, session_request, websocket_answered,
  websocket_request, Event, asks_session, asks_websocket, touches, step, run,
}
use dashboard_rpi.Server.Admitting.{OwnerAsserts, owner_answer-OwnerAsserts}
use dashboard_rpi.Terminal.Session.Tokens.{claim_transport-Claims}
use dashboard_rpi.Terminal.Admission.Parsing.{Offers}
use dashboard_rpi.Server.Created.{
  Creates, WasCreated, OfToken, OfToken-Stable, session_request-Creates,
}
use dashboard_rpi.Server.Kept.{session_admission-New, websocket_admission-Kept}

-- Each session's token is known before the event, or the event creates it.
step-New :
    (r : Runtime) (env : Environment) (rt : TerminalRuntime) (K : Text → Type 0) (e : Event)
    (st : State)
    → create_default_terminal_runtime r env ≡ some rt
    → All (OfToken K) st.sessions
    → All (OfToken (λ t. K t ⊎ Creates r env rt t st e)) (step r rt e st).sessions
unfolding step session_request websocket_request session_answered websocket_answered Calls.step
step-New r env rt K (asks_session a reading factory origin assertion) st made h =
    let e = asks_session a reading factory origin assertion in
    session_admission-New (λ t. K t ⊎ Creates r env rt t st e) rt.terminal_enabled
      (owner_answer r rt a assertion st.cache).1 reading factory origin assertion st.sessions
      (All-map (λ x k. inl k) st.sessions h)
      (λ t idle life is. inr (
        session_request-Creates r env rt a reading factory origin assertion st t idle life made is))
step-New r env rt K (asks_websocket a reading origin assertion header) st made h =
    let kept =
      websocket_admission-Kept K rt.terminal_enabled (owner_answer r rt a assertion st.cache).1
        reading origin assertion header st.sessions h in
    All-map (λ x k. inl k) _ kept
step-New r env rt K (touches reading token) st made h =
    All-map (λ x k. inl k) _
      (step-All (OfToken K) (OfToken-Stable K) (touches_claimed reading token) st.sessions tt h)
step-New r env rt K (Event.revokes token) st made h =
    All-map (λ x k. inl k) _
      (step-All (OfToken K) (OfToken-Stable K) (Call.revokes token) st.sessions tt h)

regroup : {A B C : Type 0} → (A ⊎ B) ⊎ C → A ⊎ (B ⊎ C)
regroup (inl (inl a)) = inl a
regroup (inl (inr b)) = inr (inl b)
regroup (inr c) = inr (inr c)

run-New :
    (r : Runtime) (env : Environment) (rt : TerminalRuntime) (K : Text → Type 0) (es : List Event)
    (st : State)
    → create_default_terminal_runtime r env ≡ some rt
    → All (OfToken K) st.sessions
    → All (OfToken (λ t. K t ⊎ WasCreated r env rt t es st)) (run r rt es st).sessions
unfolding run WasCreated
run-New r env rt K [] st made h = All-map (λ x k. inl k) st.sessions h
run-New r env rt K (e ∷ es) st made h =
    let rest =
      run-New r env rt (λ t. K t ⊎ Creates r env rt t st e) es (step r rt e st) made
        (step-New r env rt K e st made h) in
    All-map (λ x k. regroup k) _ rest

-- A token whose claim is granted is in the map.
claimed-Known :
    (K : Text → Type 0) (reading : Reading) (input : Boundary) (t : Text) (m : Sessions)
    (meta : Metadata)
    → (claim_transport reading input (some t) m).1 ≡ returned (claimed meta)
    → All (OfToken K) m
    → K t
claimed-Known K reading input t m meta e h =
    let claim = claim_transport-Claims reading input t m meta e in
    find-All (OfToken K) t (prune_expired claim.now m) claim.stored
      (prune_expired-All (OfToken K) claim.now m h)

none_known : {A : Type 0} → ⊥ ⊎ A → A
none_known (inr a) = a
none_known (inl f) = absurd f

websocket_answered-Known :
    (r : Runtime) (env : Environment) (rt : TerminalRuntime) (K : Text → Type 0) (a : Answers)
    (reading : Reading) (origin assertion : Option Text) (header : HeaderValue) (cache : KeyCache)
    (m : Sessions) (token : Text) (p : KeyCache × AuthResult)
    → create_default_terminal_runtime r env ≡ some rt
    → All (OfToken K) m
    → owner_answer r rt a assertion cache ≡ p
    → (websocket_answered rt reading origin assertion header m p).1 ≡ returned (allowed token)
    → K token
      × (origin ≡ some expected_origin)
      × Offers header token
      × OwnerAsserts r env a assertion
          (websocket_answered rt reading origin assertion header m p).0.cache
unfolding websocket_answered
websocket_answered-Known r env rt K a reading origin assertion header cache m token (cache', answer)
      made h o e =
    let gate =
      websocket_admission rt.terminal_enabled (λ _. answer) reading origin assertion header m in
    let (on, owner, same_origin, offers, meta, granted) =
      websocket_admission-allowed rt.terminal_enabled (λ _. answer) reading origin assertion header
        m gate.0 token (ap (λ s. (gate.0, s)) e) in
    (
      claimed-Known K reading (admitted origin) token m meta (ap (λ s. s.1) granted) h,
      same_origin,
      offers,
      owner_answer-OwnerAsserts r env rt a assertion cache cache' made (rw owner at o),
    )

-- Let an environment make the runtime, and let any events happen to it from its start on: requests
-- for sessions and for WebSockets with any assertions, headers, clocks and token factories, and
-- calls that touch or revoke tokens. If it then allows a WebSocket for a token, the origin is the
-- expected one, the protocol header offers the token, the assertion is one of the owner that the
-- environment names, and one of those events is a request for a session, from the expected origin
-- and with an assertion of the owner's at that time, that was answered CREATED with this token.
pub websocket_request-WasCreated :
    (r : Runtime) (env : Environment) (rt : TerminalRuntime) (es : List Event) (a : Answers)
    (reading : Reading) (origin assertion : Option Text) (header : HeaderValue) (token : Text)
    → create_default_terminal_runtime r env ≡ some rt
    → (websocket_request r rt a reading origin assertion header (run r rt es start)).1
      ≡ returned (allowed token)
    → WasCreated r env rt token es start
      × (origin ≡ some expected_origin)
      × Offers header token
      × OwnerAsserts r env a assertion
          (websocket_request r rt a reading origin assertion header (run r rt es start)).0.cache
unfolding websocket_request
websocket_request-WasCreated r env rt es a reading origin assertion header token made e =
    let st = run r rt es start in
    let (known, same_origin, offers, owner) =
      websocket_answered-Known r env rt (λ t. ⊥ ⊎ WasCreated r env rt t es start) a reading origin
        assertion header st.cache st.sessions token (owner_answer r rt a assertion st.cache) made
        (run-New r env rt (λ t. ⊥) es start made tt) refl e in
    (none_known known, same_origin, offers, owner)
