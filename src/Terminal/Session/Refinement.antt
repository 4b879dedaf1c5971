-- ===== src/Terminal/Session/Refinement.antt =====
-- The registry refines the slot of `Slot`.
use dashboard_rpi.Common.{
  ℕ, ◌≤◌, ◌≡◌, inl, inr, refl, ap, true, false, not, Option, none, some, List, [], ◌∷◌, length,
  Text, arith, Option-cases,
}
use dashboard_rpi.Terminal.Session.Boundary.{Boundary, Rejection, evaluate_terminal_boundary}
use dashboard_rpi.Terminal.Session.Registry.{
  StoredSession, Sessions, Reading, at, invalid, returned, is_expired, prune_expired, find, replace,
  remove, has, to_metadata, fresh, create_session, claim_stored, claim_pruned, claim_token,
  claim_transport, refresh, touch_pruned, touch_claimed_pruned, touch_claimed_at, touch,
  touch_claimed_transport, revoke, active_count,
}
use dashboard_rpi.Terminal.Session.Calls.{
  Call, creates, claims, touches, touches_claimed, revokes, counts, step, run,
}
use dashboard_rpi.Terminal.Session.Limits.{step-bounded}
use dashboard_rpi.Terminal.Session.Maps.{length-prune_expired}
use dashboard_rpi.Terminal.Session.Lifetime
use dashboard_rpi.Terminal.Session.Lifetime.{create_session_lem}
use dashboard_rpi.Terminal.Session.Slot.{
  is_live, expire, metadata, Answer, creation, claim, activity, revocation, number, opening, taking,
  claiming, touching, freeing, occupied, slot_call, slot_run, answer, view_session, view,
}

expired-live :
    (s : StoredSession) (now : ℕ)
    → is_live now s.created_at s.last_activity_at ≡ not (is_expired s now)
unfolding is_live is_expired
expired-live s now = ground arith

view-prune_expired :
    (now : ℕ) (m : Sessions) → length m ≤ 1 → view (prune_expired now m) ≡ expire now (view m)
unfolding view view_session prune_expired expire
view-prune_expired now [] h = refl
view-prune_expired now ((t, s) ∷ []) h = elim (Option-cases s.transport_claimed_at) [
  | inl never ↦ ground (arith, expired-live s now)
  | inr (u, e) ↦ ground (arith, expired-live s now)
]
view-prune_expired now (x ∷ y ∷ m) h = absurd (omega arith)

opening-refines :
    (factory : ℕ → Text) (o : Option Rejection) (now : ℕ) (m : Sessions)
    → length m ≤ 1
    → (view (Lifetime.creation factory o now m).0 ≡ (opening factory o now (view m)).0)
      × (creation (Lifetime.creation factory o now m).1 ≡ (opening factory o now (view m)).1)
unfolding view view_session opening fresh to_metadata metadata
opening-refines factory (some reason) now m h = (refl, refl)
opening-refines factory none now [] h = ground arith
opening-refines factory none now ((t, s) ∷ m) h = elim (Option-cases s.transport_claimed_at) [
  | inl never ↦ ground arith
  | inr (u, e) ↦ ground arith
]

taking-refines :
    (token : Text) (now : ℕ) (m : Sessions)
    → length m ≤ 1
    → (view (claim_pruned token now m).0 ≡ (taking token now (view m)).0)
      × (claim (claim_pruned token now m).1 ≡ (taking token now (view m)).1)
unfolding view view_session taking claim_pruned claim_stored find replace to_metadata metadata
taking-refines token now [] h = (refl, refl)
taking-refines token now ((t, s) ∷ []) h = elim (Option-cases s.transport_claimed_at) [
  | inl never ↦ ground arith
  | inr (u, e) ↦ ground arith
]
taking-refines token now (x ∷ y ∷ m) h = absurd (omega arith)

pruned-bounded : (now : ℕ) (m : Sessions) → length m ≤ 1 → length (prune_expired now m) ≤ 1
pruned-bounded now m h = omega (arith, length-prune_expired now m)

claiming-refines :
    (r : Reading) (input : Boundary) (token : Option Text) (m : Sessions)
    → length m ≤ 1
    → (view (claim_transport r input token m).0
        ≡ (claiming r (evaluate_terminal_boundary input) token (view m)).0)
      × (claim (claim_transport r input token m).1
          ≡ (claiming r (evaluate_terminal_boundary input) token (view m)).1)
unfolding claim_transport claim_token claiming
claiming-refines r input none m h = elim (Option-cases (evaluate_terminal_boundary input)) [
  | inl passed ↦ (ground arith, ground arith)
  | inr (reason, e) ↦ (ground arith, ground arith)
]
claiming-refines invalid input (some token) m h =
    elim (Option-cases (evaluate_terminal_boundary input)) [
      | inl passed ↦ (ground arith, ground arith)
      | inr (reason, e) ↦ (ground arith, ground arith)
    ]
claiming-refines (at now) input (some token) m h =
    let (state, shown) = taking-refines token now (prune_expired now m) (pruned-bounded now m h) in
    let same = view-prune_expired now m h in
    elim (Option-cases (evaluate_terminal_boundary input)) [
      | inl passed ↦ (ground arith, ground arith)
      | inr (reason, e) ↦ (ground arith, ground arith)
    ]

touching-refines :
    (token : Text) (now : ℕ) (m : Sessions)
    → length m ≤ 1
    → (view (touch_pruned token now m).0 ≡ (touching true token now (view m)).0)
      × (activity (returned (touch_pruned token now m).1) ≡ (touching true token now (view m)).1)
unfolding view view_session touching touch_pruned refresh find replace to_metadata metadata
touching-refines token now [] h = (refl, refl)
touching-refines token now ((t, s) ∷ []) h = elim (Option-cases s.transport_claimed_at) [
  | inl never ↦ ground arith
  | inr (u, e) ↦ ground arith
]
touching-refines token now (x ∷ y ∷ m) h = absurd (omega arith)

touching_claimed-refines :
    (token : Text) (now : ℕ) (m : Sessions)
    → length m ≤ 1
    → (view (touch_claimed_pruned token now m).0 ≡ (touching false token now (view m)).0)
      × (activity (returned (touch_claimed_pruned token now m).1)
          ≡ (touching false token now (view m)).1)
unfolding view view_session touching touch_claimed_pruned refresh find replace to_metadata metadata
touching_claimed-refines token now [] h = (refl, refl)
touching_claimed-refines token now ((t, s) ∷ []) h = elim (Option-cases s.transport_claimed_at) [
  | inl never ↦ ground arith
  | inr (u, e) ↦ ground arith
]
touching_claimed-refines token now (x ∷ y ∷ m) h = absurd (omega arith)

freeing-refines :
    (token : Text) (m : Sessions)
    → length m ≤ 1
    → (view (revoke token m).0 ≡ (freeing token (view m)).0)
      × (revocation (revoke token m).1 ≡ (freeing token (view m)).1)
unfolding view view_session freeing revoke has remove
freeing-refines token [] h = (refl, refl)
freeing-refines token ((t, s) ∷ []) h = elim (Option-cases s.transport_claimed_at) [
  | inl never ↦ ground arith
  | inr (u, e) ↦ ground arith
]
freeing-refines token (x ∷ y ∷ m) h = absurd (omega arith)

occupied-refines : (m : Sessions) → length m ≤ 1 → length m ≡ occupied (view m)
unfolding view view_session occupied
occupied-refines [] h = refl
occupied-refines ((t, s) ∷ []) h = elim (Option-cases s.transport_claimed_at) [
  | inl never ↦ ground arith
  | inr (u, e) ↦ ground arith
]
occupied-refines (x ∷ y ∷ m) h = absurd (omega arith)

creating-refines :
    (factory : ℕ → Text) (input : Boundary) (now : ℕ) (m : Sessions)
    → length m ≤ 1
    → (view (create_session (at now) factory input m).0
        ≡ (opening factory (evaluate_terminal_boundary input) now (expire now (view m))).0)
      × (creation (create_session (at now) factory input m).1
          ≡ (opening factory (evaluate_terminal_boundary input) now (expire now (view m))).1)
creating-refines factory input now m h =
    rw (create_session_lem factory input now m, ← view-prune_expired now m h)
      (opening-refines factory (evaluate_terminal_boundary input) now (prune_expired now m)
        (pruned-bounded now m h))

-- One call.
step-refines :
    (c : Call) (m : Sessions)
    → length m ≤ 1
    → (view (step c m) ≡ (slot_call c (view m)).0) × (answer c m ≡ (slot_call c (view m)).1)
unfolding step answer slot_call create_session touch touch_claimed_transport touch_claimed_at
    active_count
step-refines (creates invalid factory input) m h = (refl, refl)
step-refines (creates (at now) factory input) m h = creating-refines factory input now m h
step-refines (claims r input token) m h = claiming-refines r input token m h
step-refines (touches invalid token) m h = (refl, refl)
step-refines (touches (at now) token) m h =
    rw (← view-prune_expired now m h)
      (touching-refines token now (prune_expired now m) (pruned-bounded now m h))
step-refines (touches_claimed invalid token) m h = (refl, refl)
step-refines (touches_claimed (at now) token) m h =
    rw (← view-prune_expired now m h)
      (touching_claimed-refines token now (prune_expired now m) (pruned-bounded now m h))
step-refines (revokes token) m h = freeing-refines token m h
step-refines (counts invalid) m h = (refl, refl)
step-refines (counts (at now)) m h = rw (← view-prune_expired now m h) (
  refl,
  ap (λ n. number (returned n)) (occupied-refines (prune_expired now m) (pruned-bounded now m h)),
)

-- What the registry's calls show, one after the other.
unfoldable pub answers : List Call → Sessions → List Answer
answers [] m = []
answers (c ∷ cs) m = answer c m ∷ answers cs (step c m)

-- On a map with at most one session, in particular from the start on, the registry behaves as the
-- slot: every sequence of calls of its six methods, at any readings of the clock and with any
-- token factories, gives the caller the same answers and throws as the slot that the map stands
-- for, and ends in a map that stands for the slot's end.
pub run-refines :
    (cs : List Call) (m : Sessions)
    → length m ≤ 1
    → (answers cs m ≡ (slot_run cs (view m)).1) × (view (run cs m) ≡ (slot_run cs (view m)).0)
unfolding run slot_run answers
run-refines [] m h = (refl, refl)
run-refines (c ∷ cs) m h =
    let (state, shown) = step-refines c m h in
    let (rest, last) = run-refines cs (step c m) (step-bounded c m h) in
    rw (← state, ← shown) (ap (λ shows. answer c m ∷ shows) rest, last)
