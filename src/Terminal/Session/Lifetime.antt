-- ===== src/Terminal/Session/Lifetime.antt =====
-- When a session is created, and for how long it can be kept alive.
use dashboard_rpi.Common.{
  ℕ, ◌+◌, ◌<◌, ◌≡◌, refl, false, Option, none, some, List, [], ◌∷◌, arith, All, Text, Bool-cases,
  inl, inr, ◌∙◌, sym, ap, if◌then◌else◌,
}
use dashboard_rpi.Terminal.Session.Boundary.{
  is_terminal_session_token, Boundary, evaluate_terminal_boundary, evaluate_terminal_admission,
  max_lifetime_ms, idle_timeout_ms, concurrency_limit, Rejection,
}
use dashboard_rpi.Terminal.Session.Registry.{
  StoredSession, Sessions, Metadata, Outcome, returned, thrown, is_expired, prune_expired,
  unique_token, at, fresh, store_session, create_pruned, create_session, touch_claimed_at,
  CreateResult, created, to_metadata, token_factory_invalid,
}
use dashboard_rpi.Terminal.Session.Calls.{Call, run, Avoids}
use dashboard_rpi.Terminal.Session.Maps.{find-All, prune_expired-All}
use dashboard_rpi.Terminal.Session.History.{Entry, Stable}
use dashboard_rpi.Terminal.Session.Tokens.{Of, run-Of, touch_claimed_at-found}

-- What `createSession` amounts to, on a pruned map: the loop over tokens makes one round.
abbrev pub creation : (ℕ → Text) → Option Rejection → ℕ → Sessions → Sessions × Outcome CreateResult
creation factory (some reason) now m = (m, returned (CreateResult.refused reason))
creation factory none now (e ∷ m) = (e ∷ m, returned (CreateResult.refused concurrency_limit))
creation factory none now [] =
    if is_terminal_session_token (factory 0)
    then ((factory 0, fresh now) ∷ [], returned (created (factory 0) (to_metadata (fresh now))))
    else ([], thrown token_factory_invalid)

create_pruned-creation :
    (factory : ℕ → Text) (input : Boundary) (now : ℕ) (m : Sessions)
    → create_pruned factory input now m ≡ creation factory (evaluate_terminal_boundary input) now m
unfolding create_pruned evaluate_terminal_admission store_session unique_token
create_pruned-creation factory input now [] = ground arith
create_pruned-creation factory input now (e ∷ m) = ground arith

-- With a valid reading of the clock, `createSession` first drops the expired sessions. It then answers with the boundary's rejection
-- if there is one, with CONCURRENCY_LIMIT if a session is left, and else stores one new session
-- under the factory's first token, or throws if that token is malformed; the factory is not asked
-- twice.
pub create_session_lem :
    (factory : ℕ → Text) (input : Boundary) (now : ℕ) (m : Sessions)
    → create_session (at now) factory input m
      ≡ creation factory (evaluate_terminal_boundary input) now (prune_expired now m)
unfolding create_session
create_session_lem factory input now m =
    create_pruned-creation factory input now (prune_expired now m)

abbrev Born : ℕ → StoredSession → Type 0
Born c s = s.created_at ≡ c

Born-Stable : (t : Text) (c : ℕ) → Stable (Of t (Born c))
Born-Stable t c = record { touched = λ k s now h. h; taken = λ k s now h. h }

created-Born :
    (factory : ℕ → Text) (o : Option Rejection) (c : ℕ) (m m' : Sessions) (t : Text)
    (meta : Metadata)
    → creation factory o c m ≡ (m', returned (created t meta))
    → All (Of t (Born c)) m'
created-Born factory (some reason) c m m' t meta e = absurd (ground arith)
created-Born factory none c (a ∷ m) m' t meta e = absurd (ground arith)
created-Born factory none c [] m' t meta e =
    elim (Bool-cases (is_terminal_session_token (factory 0))) [
      | inr bad ↦ absurd (ground arith)
      | inl good ↦
          let stored : (factory 0, fresh c) ∷ [] ≡ m' = ground arith in
          rw (← stored) (unfold fresh in ((λ same. refl), tt))
    ]

pruned-live :
    (now : ℕ) (m : Sessions) → All (λ (e : Entry). is_expired e.1 now ≡ false) (prune_expired now m)
unfolding prune_expired
pruned-live now [] = tt
pruned-live now ((k, s) ∷ m) = elim (Bool-cases (is_expired s now)) [
  | inl e ↦ rw e (pruned-live now m)
  | inr e ↦ rw e (e, pruned-live now m)
]

live-bounds :
    (s : StoredSession) (now : ℕ)
    → is_expired s now ≡ false
    → (now < s.last_activity_at + idle_timeout_ms) × (now < s.created_at + max_lifetime_ms)
unfolding is_expired
live-bounds s now e = ground arith

-- If `createSession` creates a session under a token at clock reading c, then after any calls
-- none of which issues that token again, a touch of its claimed transport succeeds only at
-- readings below c + 30 minutes, and the expiry time that it reports is still c + 30 minutes.
pub session_lifetime :
    (factory : ℕ → Text) (input : Boundary) (c : ℕ) (m m' : Sessions) (t : Text)
    (meta meta' : Metadata) (cs : List Call) (now : ℕ)
    → create_session (at c) factory input m ≡ (m', returned (created t meta))
    → All (Avoids t) cs
    → (touch_claimed_at t now (run cs m')).1 ≡ some meta'
    → (now < c + max_lifetime_ms) × (meta'.max_expires_at ≡ c + max_lifetime_ms)
unfolding to_metadata
session_lifetime factory input c m m' t meta meta' cs now e a e' =
    let born =
      created-Born factory (evaluate_terminal_boundary input) c (prune_expired c m) m' t meta
        (sym (create_session_lem factory input c m) ∙ e) in
    let (s, found, shown) = touch_claimed_at-found t now (run cs m') e' in
    let at_birth : s.created_at ≡ c =
      find-All (Of t (Born c)) t _ found
        (prune_expired-All (Of t (Born c)) now _ (run-Of t (Born c) (Born-Stable t c) cs m' a born))
        refl in
    let live = live-bounds s now (
      find-All (λ (x : Entry). is_expired x.1 now ≡ false) t _ found
        (pruned-live now (run cs m'))) in
    (
      (omega (arith, live.1)),
      ap (λ (x : Metadata). x.max_expires_at) shown ∙ ap (λ (x : ℕ). x + max_lifetime_ms) at_birth,
    )
