-- ===== src/Terminal/Session/History.antt =====
-- A property of the map's entries that each method keeps holds after every history of calls.
use dashboard_rpi.Common.{
  ℕ, ◌≡◌, refl, true, Option, none, some, List, [], ◌∷◌, arith, length, All, All-append, Text,
  Bool-cases, Option-cases, inl, inr, is_empty,
}
use dashboard_rpi.Terminal.Session.Boundary.{
  is_terminal_session_token, Boundary, evaluate_terminal_boundary, evaluate_terminal_admission,
}
use dashboard_rpi.Terminal.Session.Registry.{
  StoredSession, Sessions, Outcome, returned, thrown, find, prune_expired, Reading, at, invalid,
  fresh, store_session, create_pruned, create_session, claim_stored, claim_pruned, claim_token,
  claim_transport, refresh, touch_pruned, touch_claimed_pruned, touch_claimed_at, touch,
  touch_claimed_transport, revoke, active_count,
}
use dashboard_rpi.Terminal.Session.Calls.{
  Call, creates, claims, touches, touches_claimed, revokes, counts, step, run,
}
use dashboard_rpi.Terminal.Session.Maps.{
  prune_expired-All, remove-All, replace-All, find-All, unique_token-returned,
}

abbrev pub Entry : Type 0
Entry = Text × StoredSession

-- What a property of entries must satisfy to survive `touch` and `claimTransport`.
pub record Stable (P : Entry → Type 0) : Type 0 where
  pub touched :
      (t : Text) (s : StoredSession) (now : ℕ)
      → P (t, s)
      → P (t, record s { last_activity_at = now })
  pub taken :
      (t : Text) (s : StoredSession) (now : ℕ)
      → P (t, s)
      → P (t, record s { last_activity_at = now; transport_claimed_at = some now })

-- It holds of every session that the call may store.
abbrev pub Admits : (Entry → Type 0) → Call → Type 0
Admits P (creates reading factory input) =
    (n now : ℕ) → is_terminal_session_token (factory n) ≡ true → P (factory n, fresh now)
Admits P (claims reading input token) = Unit
Admits P (touches reading token) = Unit
Admits P (touches_claimed reading token) = Unit
Admits P (revokes token) = Unit
Admits P (counts reading) = Unit

module _ (P : Entry → Type 0) where
  store_session-All :
      (now : ℕ) (m : Sessions) (factory : ℕ → Text) (o : Outcome Text)
      → ((n now : ℕ) → is_terminal_session_token (factory n) ≡ true → P (factory n, fresh now))
      → ((token : Text)
          → o ≡ returned token
          → (n : ℕ) × (factory n ≡ token) × (is_terminal_session_token token ≡ true))
      → All P m
      → All P (store_session now m o).0
  unfolding store_session
  store_session-All now m factory (thrown e) new from h = h
  store_session-All now m factory (returned token) new from h =
      let (n, same, good) = from token refl in
      All-append P m _ h (rw (← same) (new n now (rw same good)), tt)

  create_pruned-All :
      (factory : ℕ → Text) (input : Boundary) (now : ℕ) (m : Sessions)
      → ((n now : ℕ) → is_terminal_session_token (factory n) ≡ true → P (factory n, fresh now))
      → All P m
      → All P (create_pruned factory input now m).0
  unfolding create_pruned
  create_pruned-All factory input now m new h =
      elim (Option-cases (evaluate_terminal_admission input (length m))) [
        | inr (reason, e) ↦ rw (e, create_pruned) h
        | inl e ↦
            rw (e, create_pruned)
              (store_session-All now m factory _ new
                (λ token e'. unique_token-returned 8 0 factory m {token = token} e') h)
      ]

  module _ (k : Stable P) where
    claim_pruned-All :
        (t : Text) (now : ℕ) (m : Sessions) → All P m → All P (claim_pruned t now m).0
    unfolding claim_pruned
    claim_pruned-All t now m h = elim (Option-cases (find t m)) [
      | inl e ↦ rw (e, claim_pruned) h
      | inr (s, e) ↦ elim (Option-cases s.transport_claimed_at) [
        | inr (_, old) ↦ rw (e, claim_pruned, old, claim_stored) h
        | inl new ↦
            rw (e, claim_pruned, new, claim_stored)
              (replace-All P t _ m (k.taken t s now (find-All P t m e h)) h)
      ]
    ]

    claim_token-All :
        (r : Reading) (token : Option Text) (m : Sessions)
        → All P m
        → All P (claim_token r token m).0
    unfolding claim_token
    claim_token-All r none m h = h
    claim_token-All invalid (some t) m h = ground arith
    claim_token-All (at now) (some t) m h = elim (Bool-cases (is_empty t)) [
      | inl e ↦ rw e h
      | inr e ↦ elim (Bool-cases (is_terminal_session_token t)) [
        | inr bad ↦ rw (e, bad) h
        | inl good ↦ rw (e, good) (claim_pruned-All t now _ (prune_expired-All P now m h))
      ]
    ]

    refresh-All :
        (t : Text) (now : ℕ) (m : Sessions) (s : StoredSession)
        → find t m ≡ some s
        → All P m
        → All P (refresh t now m s).0
    unfolding refresh
    refresh-All t now m s e h = replace-All P t _ m (k.touched t s now (find-All P t m e h)) h

    touch_pruned-All :
        (t : Text) (now : ℕ) (m : Sessions) → All P m → All P (touch_pruned t now m).0
    unfolding touch_pruned
    touch_pruned-All t now m h = elim (Option-cases (find t m)) [
      | inl e ↦ rw (e, touch_pruned) h
      | inr (s, e) ↦ rw (e, touch_pruned) (refresh-All t now m s e h)
    ]

    pub touch_claimed_at-All :
        (t : Text) (now : ℕ) (m : Sessions) → All P m → All P (touch_claimed_at t now m).0
    unfolding touch_claimed_at
    touch_claimed_at-All t now m h =
        let h' = prune_expired-All P now m h in
        elim (Option-cases (find t (prune_expired now m))) [
          | inl e ↦ rw (e, touch_claimed_pruned) h'
          | inr (s, e) ↦ elim (Option-cases s.transport_claimed_at) [
            | inl new ↦ rw (e, touch_claimed_pruned, new) h'
            | inr (_, old) ↦ rw (e, touch_claimed_pruned, old) (refresh-All t now _ s e h')
          ]
        ]

    claim_transport-All :
        (r : Reading) (input : Boundary) (token : Option Text) (m : Sessions)
        → All P m
        → All P (claim_transport r input token m).0
    unfolding claim_transport
    claim_transport-All r input token m h = elim (Option-cases (evaluate_terminal_boundary input)) [
      | inl e ↦ rw (e, claim_transport) (claim_token-All r token m h)
      | inr (_, e) ↦ rw (e, claim_transport) h
    ]

    pub step-All : (c : Call) (m : Sessions) → Admits P c → All P m → All P (step c m)
    unfolding step create_session touch touch_claimed_transport active_count revoke claim_transport
    step-All (creates (at now) factory input) m a h =
        create_pruned-All factory input now _ a (prune_expired-All P now m h)
    step-All (creates invalid factory input) m a h = h
    step-All (claims reading input token) m a h = claim_transport-All reading input token m h
    step-All (touches (at now) token) m a h =
        touch_pruned-All token now _ (prune_expired-All P now m h)
    step-All (touches invalid token) m a h = h
    step-All (touches_claimed (at now) token) m a h = touch_claimed_at-All token now m h
    step-All (touches_claimed invalid token) m a h = h
    step-All (revokes token) m a h = remove-All P token m h
    step-All (counts (at now)) m a h = prune_expired-All P now m h
    step-All (counts invalid) m a h = h

    pub run-All : (cs : List Call) (m : Sessions) → All (Admits P) cs → All P m → All P (run cs m)
    unfolding run
    run-All [] m a h = h
    run-All (c ∷ cs) m a h = run-All cs (step c m) a.1 (step-All c m a.0 h)
