-- ===== src/Server/Created.antt =====
-- Where the tokens of the registry come from.
use dashboard_rpi.Common.{
  ℕ, ◌≡◌, ◌⊎◌, inl, inr, refl, ap, Bool, Option, some, List, [], ◌∷◌, length, All, All-append, Text,
  arith, Option-cases,
}
use dashboard_rpi.Owner.Config.{Runtime}
use dashboard_rpi.Owner.Keys.{KeyCache}
use dashboard_rpi.Owner.Verifier.{Answers}
use dashboard_rpi.Terminal.Session.Boundary.{
  Boundary, evaluate_terminal_admission, expected_origin, idle_timeout_ms, max_lifetime_ms,
}
use dashboard_rpi.Terminal.Session.Registry.{
  Sessions, Outcome, returned, thrown, Reading, at, invalid, CreateResult, created, store_session,
  create_pruned, create_session, Metadata, prune_expired, unique_token,
}
use dashboard_rpi.Terminal.Session.Maps.{prune_expired-All}
use dashboard_rpi.Terminal.Session.History.{Entry, Stable}
use dashboard_rpi.Terminal.Admission.Gate.{
  AuthResult, SessionStatus, session_admission, outcome_map, creation_status,
}
use dashboard_rpi.Terminal.Admission.Policy.{session_admission-Grants}
use dashboard_rpi.Server.Wiring.{Environment, TerminalRuntime, create_default_terminal_runtime}
use dashboard_rpi.Server.Requests.{
  State, owner_answer, session_answered, session_request, Event, asks_session, step,
}
use dashboard_rpi.Server.Admitting.{OwnerAsserts, owner_answer-OwnerAsserts}

-- The event is a request for a session of the owner's, answered CREATED with this token.
pub data Creates (r : Runtime) (env : Environment) (rt : TerminalRuntime) (token : Text)
    (st : State) : Event → Type 0 where
  creates_here :
      {a : Answers} {reading : Reading} {factory : ℕ → Text} {origin assertion : Option Text}
      {idle life : ℕ}
      → (session_request r rt a reading factory origin assertion st).1
        ≡ returned (SessionStatus.created token idle life)
      → origin ≡ some expected_origin
      → OwnerAsserts r env a assertion
          (session_request r rt a reading factory origin assertion st).0.cache
      → Creates r env rt token st (asks_session a reading factory origin assertion)

-- Some event of a history, which starts in this state.
unfoldable pub WasCreated :
    Runtime → Environment → TerminalRuntime → Text → List Event → State → Type 0
WasCreated r env rt token [] st = ⊥
WasCreated r env rt token (e ∷ es) st =
    Creates r env rt token st e ⊎ WasCreated r env rt token es (step r rt e st)

abbrev pub OfToken : (Text → Type 0) → Entry → Type 0
OfToken K (t, s) = K t

pub OfToken-Stable : (K : Text → Type 0) → Stable (OfToken K)
OfToken-Stable K = record { touched = λ t s now k. k; taken = λ t s now k. k }

store_session-New :
    (K : Text → Type 0) (now : ℕ) (m : Sessions) (o : Outcome Text)
    → All (OfToken K) m
    → ((t : Text) (meta : Metadata) → (store_session now m o).1 ≡ returned (created t meta) → K t)
    → All (OfToken K) (store_session now m o).0
unfolding store_session
store_session-New K now m (thrown e) h new = h
store_session-New K now m (returned token) h new =
    All-append (OfToken K) m _ h (new token _ refl, tt)

create_pruned-New :
    (K : Text → Type 0) (factory : ℕ → Text) (input : Boundary) (now : ℕ) (m : Sessions)
    → All (OfToken K) m
    → ((t : Text) (meta : Metadata)
        → (create_pruned factory input now m).1 ≡ returned (created t meta)
        → K t)
    → All (OfToken K) (create_pruned factory input now m).0
unfolding create_pruned
create_pruned-New K factory input now m h new =
    elim (Option-cases (evaluate_terminal_admission input (length m))) [
      | inr (reason, e) ↦ rw (e, create_pruned) h
      | inl e ↦
          rw (e, create_pruned)
            (store_session-New K now m (unique_token 8 0 factory m) h
              (λ t meta is. new t meta (rw (e, create_pruned) is)))
    ]

pub create_session-New :
    (K : Text → Type 0) (reading : Reading) (factory : ℕ → Text) (input : Boundary) (m : Sessions)
    → All (OfToken K) m
    → ((t : Text) (meta : Metadata)
        → (create_session reading factory input m).1 ≡ returned (created t meta)
        → K t)
    → All (OfToken K) (create_session reading factory input m).0
unfolding create_session
create_session-New K invalid factory input m h new = h
create_session-New K (at now) factory input m h new =
    create_pruned-New K factory input now (prune_expired now m)
      (prune_expired-All (OfToken K) now m h) new

pub outcome_map-created :
    (o : Sessions × Outcome CreateResult) (t : Text) (meta : Metadata)
    → o.1 ≡ returned (created t meta)
    → (idle : ℕ) × (life : ℕ) × ((outcome_map creation_status o).1
        ≡ returned (SessionStatus.created t idle life))
unfolding outcome_map creation_status
outcome_map-created (m, returned (created t' meta')) t meta e =
    (idle_timeout_ms, max_lifetime_ms, ground arith)
outcome_map-created (m, returned (CreateResult.refused reason)) t meta e = cc
outcome_map-created (m, thrown f) t meta e = cc

pub outcome_map-state :
    {A B : Type 0} (f : A → B) (o : Sessions × Outcome A) → (outcome_map f o).0 ≡ o.0
unfolding outcome_map
outcome_map-state f (m, returned a) = refl
outcome_map-state f (m, thrown e) = refl

invalid-not_created :
    (enabled : Bool) (answer : AuthResult) (factory : ℕ → Text) (origin assertion : Option Text)
    (m : Sessions) (token : Text) (idle life : ℕ)
    → (session_admission enabled (λ _. answer) invalid factory origin assertion m).1
      ≡ returned (SessionStatus.created token idle life)
    → ⊥
unfolding session_admission create_session outcome_map
invalid-not_created enabled AuthResult.verified factory origin assertion m token idle life e =
    ground arith
invalid-not_created enabled AuthResult.rejected factory origin assertion m token idle life e =
    ground arith
invalid-not_created enabled AuthResult.key_unavailable factory origin assertion m token idle life
      e =
    ground arith
invalid-not_created enabled AuthResult.failed factory origin assertion m token idle life e =
    ground arith

session_answered-Owner :
    (r : Runtime) (env : Environment) (rt : TerminalRuntime) (a : Answers) (reading : Reading)
    (factory : ℕ → Text) (origin assertion : Option Text) (cache : KeyCache) (m : Sessions)
    (token : Text) (idle life : ℕ) (p : KeyCache × AuthResult)
    → create_default_terminal_runtime r env ≡ some rt
    → owner_answer r rt a assertion cache ≡ p
    → (session_answered rt reading factory origin assertion m p).1
      ≡ returned (SessionStatus.created token idle life)
    → (origin ≡ some expected_origin)
      × OwnerAsserts r env a assertion
          (session_answered rt reading factory origin assertion m p).0.cache
unfolding session_answered
session_answered-Owner r env rt a (at now) factory origin assertion cache m token idle life
      (cache', answer) made o e =
    let gate =
      session_admission rt.terminal_enabled (λ _. answer) (at now) factory origin assertion m in
    let grants =
      session_admission-Grants rt.terminal_enabled (λ _. answer) now factory origin assertion m
        gate.0 token idle life (ap (λ s. (gate.0, s)) e) in
    (
      grants.same_origin,
      owner_answer-OwnerAsserts r env rt a assertion cache cache' made (rw grants.owner at o),
    )
session_answered-Owner r env rt a invalid factory origin assertion cache m token idle life
      (cache', answer) made o e =
    absurd
      (invalid-not_created rt.terminal_enabled answer factory origin assertion m token idle life e)

-- If the runtime that an environment made answers a request for a session with CREATED, whatever
-- its state, then the origin is the expected one and the assertion is one of the owner that the
-- environment names: of the environment's team, application and e-mail address, signed under a
-- key of a fresh key set, and in force.
pub session_request-Creates :
    (r : Runtime) (env : Environment) (rt : TerminalRuntime) (a : Answers) (reading : Reading)
    (factory : ℕ → Text) (origin assertion : Option Text) (st : State) (token : Text)
    (idle life : ℕ)
    → create_default_terminal_runtime r env ≡ some rt
    → (session_request r rt a reading factory origin assertion st).1
      ≡ returned (SessionStatus.created token idle life)
    → Creates r env rt token st (asks_session a reading factory origin assertion)
unfolding session_request
session_request-Creates r env rt a reading factory origin assertion st token idle life made e =
    let (same_origin, owner) =
      session_answered-Owner r env rt a reading factory origin assertion st.cache st.sessions token
        idle life (owner_answer r rt a assertion st.cache) made refl e in
    creates_here e same_origin owner
