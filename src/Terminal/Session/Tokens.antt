-- ===== src/Terminal/Session/Tokens.antt =====
-- What happens to one token over a history in which no `createSession` issues it again.
use dashboard_rpi.Common.{
  ℕ, ◌≤◌, ◌≡◌, refl, Option, none, some, List, [], ◌∷◌, arith, length, All, Text, text_eq,
  text_eq_iff, Bool-cases, Option-cases, inl, inr, ◌≢◌,
}
use dashboard_rpi.Terminal.Session.Boundary.{Boundary, evaluate_terminal_boundary}
use dashboard_rpi.Terminal.Session.Registry.{
  StoredSession, Sessions, Metadata, returned, find, remove, replace, prune_expired, Reading, at,
  invalid, claim_stored, claim_pruned, claim_token, claim_transport, refresh, touch_claimed_at,
  revoke, claimed, to_metadata,
}
use dashboard_rpi.Terminal.Session.Calls.{
  Call, creates, claims, touches, touches_claimed, revokes, counts, run, Avoids,
}
use dashboard_rpi.Terminal.Session.Maps.{length-prune_expired, find-All, prune_expired-All}
use dashboard_rpi.Terminal.Session.History.{Entry, Stable, Admits, run-All}

-- A property of whatever the map holds under one token.
abbrev pub Of : Text → (StoredSession → Type 0) → Entry → Type 0
Of t Q e = e.0 ≡ t → Q e.1

pub Of-Admits : (t : Text) (Q : StoredSession → Type 0) (c : Call) → Avoids t c → Admits (Of t Q) c
Of-Admits t Q (creates reading factory input) a = λ n now good same. absurd (a n same)
Of-Admits t Q (claims reading input token) a = tt
Of-Admits t Q (touches reading token) a = tt
Of-Admits t Q (touches_claimed reading token) a = tt
Of-Admits t Q (revokes token) a = tt
Of-Admits t Q (counts reading) a = tt

module _ (t : Text) (Q : StoredSession → Type 0) (k : Stable (Of t Q)) where
  pub run-Of :
      (cs : List Call) (m : Sessions) → All (Avoids t) cs → All (Of t Q) m → All (Of t Q) (run cs m)
  run-Of cs m a h = run-All (Of t Q) k cs m (admitted cs a) h
    where
      admitted : (cs : List Call) → All (Avoids t) cs → All (Admits (Of t Q)) cs
      admitted [] a = tt
      admitted (c ∷ cs) a = (Of-Admits t Q c a.0, admitted cs a.1)

abbrev Spent : StoredSession → Type 0
Spent s = s.transport_claimed_at ≢ none

Spent-Stable : (t : Text) → Stable (Of t Spent)
Spent-Stable t = record { touched = λ k s now h. h; taken = λ k s now h same e. cc }

-- What a granted claim has read and written.
pub record Claims (r : Reading) (input : Boundary) (t : Text) (m : Sessions) (meta : Metadata)
    : Type 0 where
  pub now : ℕ
  pub session : StoredSession
  pub read : r ≡ at now
  pub allowed : evaluate_terminal_boundary input ≡ none
  pub stored : find t (prune_expired now m) ≡ some session
  pub unclaimed : session.transport_claimed_at ≡ none
  pub after :
      (claim_transport r input (some t) m).0
      ≡ replace t
          (record session { last_activity_at = now; transport_claimed_at = some now })
          (prune_expired now m)
  pub shown :
      meta
      ≡ to_metadata (record session { last_activity_at = now; transport_claimed_at = some now })

pub claim_transport-Claims :
    (r : Reading) (input : Boundary) (t : Text) (m : Sessions) (meta : Metadata)
    → (claim_transport r input (some t) m).1 ≡ returned (claimed meta)
    → Claims r input t m meta
unfolding claim_transport claim_token claim_pruned claim_stored
claim_transport-Claims invalid input t m meta e = absurd (ground arith)
claim_transport-Claims (at now) input t m meta e =
    elim (Option-cases (find t (prune_expired now m))) [
      | inl missing ↦ absurd (ground arith)
      | inr (s, found) ↦ record {
        now = now;
        session = s;
        read = refl;
        allowed = ground arith;
        stored = found;
        unclaimed = ground arith;
        after = ground arith;
        shown = ground arith;
      }
    ]

replace-Spent :
    (t : Text) (s : StoredSession) (now : ℕ) (m : Sessions)
    → length m ≤ 1
    → All
        (Of t Spent)
        (replace t (record s { last_activity_at = now; transport_claimed_at = some now }) m)
unfolding replace
replace-Spent t s now [] h = tt
replace-Spent t s now ((k, u) ∷ []) h = elim (Bool-cases (text_eq k t)) [
  | inl same ↦ rw same ((λ e f. cc), tt)
  | inr other ↦ rw other ((λ e. absurd (ground (arith, text_eq_iff k t))), tt)
]
replace-Spent t s now (a ∷ b ∷ m) h = absurd (omega arith)

-- If a claim of a token is granted, then no later claim of it is granted, whatever calls are
-- made in between, as long as no `createSession` among them is given that token by its factory
-- and the map held at most one session at the first claim.
pub claim_transport_once :
    (m : Sessions) (r r' : Reading) (input input' : Boundary) (t : Text) (meta meta' : Metadata)
    (cs : List Call)
    → length m ≤ 1
    → (claim_transport r input (some t) m).1 ≡ returned (claimed meta)
    → All (Avoids t) cs
    → (claim_transport r' input' (some t) (run cs (claim_transport r input (some t) m).0)).1
      ≢ returned (claimed meta')
claim_transport_once m r r' input input' t meta meta' cs h e a e' =
    let c = claim_transport-Claims r input t m meta e in
    let m' = (claim_transport r input (some t) m).0 in
    let spent : All (Of t Spent) m' =
      rw c.after
        (replace-Spent t c.session c.now _ (omega (arith, length-prune_expired c.now m))) in
    let c' = claim_transport-Claims r' input' t (run cs m') meta' e' in
    find-All (Of t Spent) t _ c'.stored
      (prune_expired-All (Of t Spent) c'.now _ (run-Of t Spent (Spent-Stable t) cs m' a spent)) refl
      c'.unclaimed

pub Gone-Stable : (t : Text) → Stable (Of t (λ s. ⊥))
Gone-Stable t = record { touched = λ k s now h. h; taken = λ k s now h. h }

pub remove-Gone : (t : Text) (m : Sessions) → length m ≤ 1 → All (Of t (λ s. ⊥)) (remove t m)
unfolding remove
remove-Gone t [] h = tt
remove-Gone t ((k, s) ∷ []) h = elim (Bool-cases (text_eq k t)) [
  | inl same ↦ rw same tt
  | inr other ↦ rw other ((λ e. absurd (ground (arith, text_eq_iff k t))), tt)
]
remove-Gone t (a ∷ b ∷ m) h = absurd (omega arith)

pub touch_claimed_at-found :
    (t : Text) (now : ℕ) (m : Sessions) {meta : Metadata}
    → (touch_claimed_at t now m).1 ≡ some meta
    → (s : StoredSession) × (find t (prune_expired now m) ≡ some s)
      × (meta ≡ to_metadata (record s { last_activity_at = now }))
unfolding touch_claimed_at refresh
touch_claimed_at-found t now m e = elim (Option-cases (find t (prune_expired now m))) [
  | inl missing ↦ absurd (ground arith)
  | inr (s, found) ↦ (s, found, ground arith)
]

-- Once a token is revoked from a map of at most one session, and as long as no `createSession`
-- issues it again, it is never claimed, and never touched as a claimed transport.
pub revoke_final :
    (m : Sessions) (r : Reading) (now : ℕ) (input : Boundary) (t : Text) (meta : Metadata)
    (cs : List Call)
    → length m ≤ 1
    → All (Avoids t) cs
    → ((claim_transport r input (some t) (run cs (revoke t m).0)).1 ≢ returned (claimed meta))
      × ((touch_claimed_at t now (run cs (revoke t m).0)).1 ≡ none)
unfolding revoke
revoke_final m r now input t meta cs h a = (
  (λ e.
      let c = claim_transport-Claims r input t _ meta e in
      find-All (Of t (λ s. ⊥)) t _ c.stored (prune_expired-All (Of t (λ s. ⊥)) c.now _ gone) refl),
  untouched (touch_claimed_at t now _).1 refl,
)
  where
    gone : All (Of t (λ s. ⊥)) (run cs (remove t m))
    gone = run-Of t (λ s. ⊥) (Gone-Stable t) cs _ a (remove-Gone t m h)

    untouched :
        (o : Option Metadata)
        → (touch_claimed_at t now (run cs (remove t m))).1 ≡ o
        → (touch_claimed_at t now (run cs (remove t m))).1 ≡ none
    untouched none e = e
    untouched (some meta') e =
        let (s, found, _) = touch_claimed_at-found t now (run cs (remove t m)) e in
        absurd
          (find-All (Of t (λ s. ⊥)) t _ found (prune_expired-All (Of t (λ s. ⊥)) now _ gone) refl)
