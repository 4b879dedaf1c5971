-- ===== src/Terminal/Session/Maps.antt =====
-- Predicates on the entries of the session map, and the map operations that keep them.
use dashboard_rpi.Common.{
  ℕ, zero, suc, ◌+◌, ◌≤◌, ◌≡◌, refl, true, some, [], ◌∷◌, arith, length, All, Text, text_eq,
  text_eq_iff, Bool-cases, inl, inr,
}
use dashboard_rpi.Terminal.Session.Boundary.{is_terminal_session_token}
use dashboard_rpi.Terminal.Session.Registry.{
  StoredSession, Sessions, returned, find, has, remove, replace, is_expired, prune_expired,
  unique_token,
}

module _ (P : Text × StoredSession → Type 0) where
  pub prune_expired-All : (now : ℕ) (m : Sessions) → All P m → All P (prune_expired now m)
  unfolding prune_expired
  prune_expired-All now [] h = tt
  prune_expired-All now ((k, s) ∷ m) h = elim (Bool-cases (is_expired s now)) [
    | inl e ↦ rw e (prune_expired-All now m h.1)
    | inr e ↦ rw e (h.0, prune_expired-All now m h.1)
  ]

  pub remove-All : (t : Text) (m : Sessions) → All P m → All P (remove t m)
  unfolding remove
  remove-All t [] h = tt
  remove-All t ((k, s) ∷ m) h = elim (Bool-cases (text_eq k t)) [
    | inl e ↦ rw e h.1
    | inr e ↦ rw e (h.0, remove-All t m h.1)
  ]

  pub replace-All :
      (t : Text) (v : StoredSession) (m : Sessions) → P (t, v) → All P m → All P (replace t v m)
  unfolding replace
  replace-All t v [] p h = tt
  replace-All t v ((k, s) ∷ m) p h = elim (Bool-cases (text_eq k t)) [
    | inl e ↦ rw (e, (text_eq_iff k t).0 e) (p, h.1)
    | inr e ↦ rw e (h.0, replace-All t v m p h.1)
  ]

  pub find-All :
      (t : Text) (m : Sessions) {s : StoredSession} → find t m ≡ some s → All P m → P (t, s)
  unfolding find
  find-All t [] e h = cc
  find-All t ((k, s) ∷ m) {s = s'} e h = elim (Bool-cases (text_eq k t)) [
    | inl same ↦ let found : s ≡ s' = ground arith in rw (← (text_eq_iff k t).0 same, ← found) h.0
    | inr other ↦ find-All t m (rw other at e) h.1
  ]

pub length-prune_expired : (now : ℕ) (m : Sessions) → length (prune_expired now m) ≤ length m
unfolding prune_expired
length-prune_expired now [] = omega arith
length-prune_expired now ((k, s) ∷ m) = ground (arith, length-prune_expired now m)

pub length-remove : (t : Text) (m : Sessions) → length (remove t m) ≤ length m
unfolding remove
length-remove t [] = omega arith
length-remove t ((k, s) ∷ m) = ground (arith, length-remove t m)

pub length-replace :
    (t : Text) (v : StoredSession) (m : Sessions) → length (replace t v m) ≡ length m
unfolding replace
length-replace t v [] = refl
length-replace t v ((k, s) ∷ m) = ground (arith, length-replace t v m)

-- A token that the loop returns came from the factory and has the format.
pub unique_token-returned :
    (attempts attempt : ℕ) (factory : ℕ → Text) (m : Sessions) {token : Text}
    → unique_token attempts attempt factory m ≡ returned token
    → (n : ℕ) × (factory n ≡ token) × (is_terminal_session_token token ≡ true)
unfolding unique_token
unique_token-returned zero attempt factory m e = cc
unique_token-returned (suc attempts) attempt factory m {token} e =
    elim (Bool-cases (is_terminal_session_token (factory attempt))) [
      | inr bad ↦ absurd (ground arith)
      | inl good ↦ elim (Bool-cases (has (factory attempt) m)) [
        | inl seen ↦ unique_token-returned attempts (attempt + 1) factory m (rw (good, seen) at e)
        | inr new ↦
            let same : factory attempt ≡ token = ground arith in (attempt, same, rw (← same) good)
      ]
    ]
