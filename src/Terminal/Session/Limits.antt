-- ===== src/Terminal/Session/Limits.antt =====
-- What the registry guarantees over every history of calls.
use dashboard_rpi.Common.{
  ℕ, suc, ◌≤◌, ◌≡◌, true, Option, none, some, List, [], ◌∷◌, arith, length, All, Text,
  length-append,
}
use dashboard_rpi.Terminal.Session.Boundary.{
  is_terminal_session_token, Boundary, evaluate_terminal_admission,
}
use dashboard_rpi.Terminal.Session.Registry.{
  Sessions, Outcome, returned, thrown, unique_token, Reading, at, invalid, fresh, store_session,
  create_pruned, create_session, claim_stored, claim_pruned, claim_token, claim_transport, refresh,
  touch_pruned, touch_claimed_at, touch, touch_claimed_transport, revoke, active_count,
}
use dashboard_rpi.Terminal.Session.Calls.{
  Call, creates, claims, touches, touches_claimed, revokes, counts, step, run,
}
use dashboard_rpi.Terminal.Session.Maps.{length-prune_expired, length-remove, length-replace}
use dashboard_rpi.Terminal.Session.History.{Entry, Stable, Admits, step-All}

-- Every stored token has the format that the claim accepts.
abbrev HasToken : Entry → Type 0
HasToken e = is_terminal_session_token e.0 ≡ true

pub record IsValid (m : Sessions) : Type 0 where
  pub bounded : length m ≤ 1
  pub formatted : All HasToken m

length-store_session :
    (now : ℕ) (m : Sessions) (o : Outcome Text) → length (store_session now m o).0 ≤ suc (length m)
unfolding store_session
length-store_session now m (thrown e) = omega arith
length-store_session now m (returned t) = omega (arith, length-append m ((t, fresh now) ∷ []))

create_pruned-bounded :
    (factory : ℕ → Text) (input : Boundary) (now : ℕ) (m : Sessions)
    → length m ≤ 1
    → length (create_pruned factory input now m).0 ≤ 1
unfolding create_pruned evaluate_terminal_admission
create_pruned-bounded factory input now m h =
    ground (arith, length-store_session now m (unique_token 8 0 factory m))

claim_transport-bounded :
    (r : Reading) (input : Boundary) (token : Option Text) (m : Sessions)
    → length m ≤ 1
    → length (claim_transport r input token m).0 ≤ 1
unfolding claim_transport claim_token claim_pruned claim_stored
claim_transport-bounded r input none m h = ground arith
claim_transport-bounded invalid input (some t) m h = ground arith
claim_transport-bounded (at now) input (some t) m h =
    grind (arith, length-prune_expired, length-replace)

touch-bounded :
    (t : Text) (now : ℕ) (m : Sessions) → length m ≤ 1 → length (touch_pruned t now m).0 ≤ 1
unfolding touch_pruned refresh
touch-bounded t now m h = grind (arith, length-replace)

pub touch_claimed_at-bounded :
    (t : Text) (now : ℕ) (m : Sessions) → length m ≤ 1 → length (touch_claimed_at t now m).0 ≤ 1
unfolding touch_claimed_at refresh
touch_claimed_at-bounded t now m h = grind (arith, length-prune_expired, length-replace)

pub step-bounded : (c : Call) (m : Sessions) → length m ≤ 1 → length (step c m) ≤ 1
unfolding step create_session touch touch_claimed_transport active_count revoke
step-bounded (creates (at now) factory input) m h =
    create_pruned-bounded factory input now _ (omega (arith, length-prune_expired now m))
step-bounded (creates invalid factory input) m h = h
step-bounded (claims reading input token) m h = claim_transport-bounded reading input token m h
step-bounded (touches (at now) token) m h =
    touch-bounded token now _ (omega (arith, length-prune_expired now m))
step-bounded (touches invalid token) m h = h
step-bounded (touches_claimed (at now) token) m h = touch_claimed_at-bounded token now m h
step-bounded (touches_claimed invalid token) m h = h
step-bounded (revokes token) m h = omega (arith, length-remove token m)
step-bounded (counts (at now)) m h = omega (arith, length-prune_expired now m)
step-bounded (counts invalid) m h = h

HasToken-Stable : Stable HasToken
HasToken-Stable = record { touched = λ t s now h. h; taken = λ t s now h. h }

HasToken-admitted : (c : Call) → Admits HasToken c
HasToken-admitted (creates reading factory input) = λ n now h. h
HasToken-admitted (claims reading input token) = tt
HasToken-admitted (touches reading token) = tt
HasToken-admitted (touches_claimed reading token) = tt
HasToken-admitted (revokes token) = tt
HasToken-admitted (counts reading) = tt

step-IsValid : (c : Call) (m : Sessions) → IsValid m → IsValid (step c m)
step-IsValid c m v = record {
  bounded = step-bounded c m v.bounded;
  formatted = step-All HasToken HasToken-Stable c m (HasToken-admitted c) v.formatted;
}

-- From a map with at most one entry whose key has the token format, every sequence of calls of
-- the registry's methods, at any clock readings and with any token factories, throwing or not,
-- leads to such a map again.
pub run-IsValid : (cs : List Call) (m : Sessions) → IsValid m → IsValid (run cs m)
unfolding run
run-IsValid [] m v = v
run-IsValid (c ∷ cs) m v = run-IsValid cs (step c m) (step-IsValid c m v)
