-- ===== src/Terminal/Session/Registry.antt =====
-- `TerminalSessionRegistry` of terminal-session-security.ts. The map is an association list in
-- insertion order. An operation that reads the clock returns the new map and its outcome; a throw
-- keeps the writes made before it.
use dashboard_rpi.Common.{
  ℕ, suc, ◌+◌, ◌-◌, Bool, false, not, ◌||◌, Option, none, some, List, [], ◌∷◌, ◌++◌, zero, leb,
  if◌then◌else◌, length, is_empty, Text, text_eq,
}
use dashboard_rpi.Terminal.Session.Boundary.{
  Boundary, Rejection, session_token_required, session_token_invalid, session_not_found,
  session_already_claimed, idle_timeout_ms, max_lifetime_ms, max_token_generation_attempts,
  is_terminal_session_token, evaluate_terminal_boundary, evaluate_terminal_admission,
}

pub record StoredSession : Type 0 where
  pub created_at : ℕ
  pub last_activity_at : ℕ
  pub transport_claimed_at : Option ℕ

pub record Metadata : Type 0 where
  pub created_at : ℕ
  pub last_activity_at : ℕ
  pub idle_expires_at : ℕ
  pub max_expires_at : ℕ

abbrev pub Sessions : Type 0
Sessions = List (Text × StoredSession)

-- `Map.get`, `Map.has`, `Map.delete`.
unfoldable pub find : Text → Sessions → Option StoredSession
find t [] = none
find t ((k, s) ∷ m) = if text_eq k t then some s else find t m

unfoldable pub has : Text → Sessions → Bool
has t [] = false
has t ((k, s) ∷ m) = text_eq k t || has t m

unfoldable pub remove : Text → Sessions → Sessions
remove t [] = []
remove t ((k, s) ∷ m) = if text_eq k t then m else (k, s) ∷ remove t m

-- An assignment to the fields of the object that the map holds under a key.
unfoldable pub replace : Text → StoredSession → Sessions → Sessions
replace t v [] = []
replace t v ((k, s) ∷ m) = if text_eq k t then (k, v) ∷ m else (k, s) ∷ replace t v m

-- `#isExpired`. The timeouts are positive, so a truncated difference reads the same.
unfoldable pub is_expired : StoredSession → ℕ → Bool
is_expired s now =
    leb idle_timeout_ms (now - s.last_activity_at) || leb max_lifetime_ms (now - s.created_at)

-- `#pruneExpired`.
unfoldable pub prune_expired : ℕ → Sessions → Sessions
unfolding is_expired
prune_expired now [] = []
prune_expired now ((k, s) ∷ m) =
    if is_expired s now then prune_expired now m else (k, s) ∷ prune_expired now m

-- `#toMetadata`.
unfoldable pub to_metadata : StoredSession → Metadata
to_metadata s = record {
  created_at = s.created_at;
  last_activity_at = s.last_activity_at;
  idle_expires_at = s.last_activity_at + idle_timeout_ms;
  max_expires_at = s.created_at + max_lifetime_ms;
}

pub data Failure : Type 0 where
  clock_invalid token_factory_invalid token_unavailable : Failure

pub data Reading : Type 0 where
  at : ℕ → Reading
  invalid : Reading

pub data Outcome {ℓ} (A : Type ℓ) : Type ℓ where
  returned : A → Outcome A
  thrown : Failure → Outcome A

-- A method body that starts with `#readNow()`.
abbrev pub with_now {ℓ} :
    {A : Type ℓ} → Reading → Sessions → (ℕ → Sessions × Outcome A) → Sessions × Outcome A
with_now (at now) m body = body now
with_now invalid m body = (m, thrown clock_invalid)

-- The loop of `#createUniqueToken`, `attempts` rounds before its end.
unfoldable pub unique_token : ℕ → ℕ → (ℕ → Text) → Sessions → Outcome Text
unfolding has
unique_token zero attempt factory m = thrown token_unavailable
unique_token (suc attempts) attempt factory m =
    let again = unique_token attempts (attempt + 1) factory m in
    if not (is_terminal_session_token (factory attempt))
    then thrown token_factory_invalid
    else if has (factory attempt) m
    then again
    else returned (factory attempt)

pub data CreateResult : Type 0 where
  created : Text → Metadata → CreateResult
  refused : Rejection → CreateResult

unfoldable pub fresh : ℕ → StoredSession
fresh now = record { created_at = now; last_activity_at = now; transport_claimed_at = none }

unfoldable pub store_session : ℕ → Sessions → Outcome Text → Sessions × Outcome CreateResult
unfolding fresh
store_session now m (thrown e) = (m, thrown e)
store_session now m (returned token) =
    (m ++ (token, fresh now) ∷ [], returned (created token (to_metadata (fresh now))))

unfoldable pub create_pruned :
    (ℕ → Text) → Boundary → ℕ → Sessions → Sessions × Outcome CreateResult
unfolding store_session
create_pruned factory input now m = elim (evaluate_terminal_admission input (length m)) [
  | some reason ↦ (m, returned (refused reason))
  | none ↦ store_session now m (unique_token max_token_generation_attempts 0 factory m)
]

-- `createSession`.
unfoldable pub create_session :
    Reading → (ℕ → Text) → Boundary → Sessions → Sessions × Outcome CreateResult
unfolding create_pruned
create_session reading factory input m =
    with_now reading m (λ now. create_pruned factory input now (prune_expired now m))

pub data ClaimResult : Type 0 where
  claimed : Metadata → ClaimResult
  refused : Rejection → ClaimResult

unfoldable pub claim_stored : Text → ℕ → Sessions → StoredSession → Sessions × Outcome ClaimResult
claim_stored token now m s = elim s.transport_claimed_at [
  | some _ ↦ (m, returned (ClaimResult.refused session_already_claimed))
  | none ↦
      let s' : StoredSession = record s {
        last_activity_at = now;
        transport_claimed_at = some now;
      } in
      (replace token s' m, returned (claimed (to_metadata s')))
]

unfoldable pub claim_pruned : Text → ℕ → Sessions → Sessions × Outcome ClaimResult
unfolding claim_stored
claim_pruned token now m = elim (find token m) [
  | none ↦ (m, returned (ClaimResult.refused session_not_found))
  | some s ↦ claim_stored token now m s
]

unfoldable pub claim_token : Reading → Option Text → Sessions → Sessions × Outcome ClaimResult
unfolding claim_pruned
claim_token reading none m = (m, returned (ClaimResult.refused session_token_required))
claim_token reading (some token) m =
    if is_empty token
    then (m, returned (ClaimResult.refused session_token_required))
    else if not (is_terminal_session_token token)
    then (m, returned (ClaimResult.refused session_token_invalid))
    else with_now reading m (λ now. claim_pruned token now (prune_expired now m))

-- `claimTransport`.
unfoldable pub claim_transport :
    Reading → Boundary → Option Text → Sessions → Sessions × Outcome ClaimResult
unfolding claim_token
claim_transport reading input token m = elim (evaluate_terminal_boundary input) [
  | some reason ↦ (m, returned (ClaimResult.refused reason))
  | none ↦ claim_token reading token m
]

-- The end of `touch` and `touchClaimedTransport`, which sets the session's activity.
unfoldable pub refresh : Text → ℕ → Sessions → StoredSession → Sessions × Option Metadata
refresh token now m s =
    let s' : StoredSession = record s { last_activity_at = now } in
    (replace token s' m, some (to_metadata s'))

unfoldable pub touch_pruned : Text → ℕ → Sessions → Sessions × Option Metadata
unfolding refresh
touch_pruned token now m = elim (find token m) [ none ↦ (m, none) | some s ↦ refresh token now m s ]

unfoldable pub touch_claimed_pruned : Text → ℕ → Sessions → Sessions × Option Metadata
unfolding refresh
touch_claimed_pruned token now m = elim (find token m) [
  | none ↦ (m, none)
  | some s ↦ elim s.transport_claimed_at [ none ↦ (m, none) | some _ ↦ refresh token now m s ]
]

-- `touchClaimedTransport` at a valid reading of the clock.
unfoldable pub touch_claimed_at : Text → ℕ → Sessions → Sessions × Option Metadata
unfolding touch_claimed_pruned
touch_claimed_at token now m = touch_claimed_pruned token now (prune_expired now m)

abbrev pub returning {ℓ} : {A : Type ℓ} → Sessions × A → Sessions × Outcome A
returning (m, a) = (m, returned a)

-- `touch`.
unfoldable pub touch : Reading → Text → Sessions → Sessions × Outcome (Option Metadata)
unfolding touch_pruned
touch reading token m =
    with_now reading m (λ now. returning (touch_pruned token now (prune_expired now m)))

-- `touchClaimedTransport`.
unfoldable pub touch_claimed_transport :
    Reading → Text → Sessions → Sessions × Outcome (Option Metadata)
unfolding touch_claimed_at
touch_claimed_transport reading token m =
    with_now reading m (λ now. returning (touch_claimed_at token now m))

-- `revoke`.
unfoldable pub revoke : Text → Sessions → Sessions × Bool
unfolding has remove
revoke token m = (remove token m, has token m)

-- `activeCount`.
unfoldable pub active_count : Reading → Sessions → Sessions × Outcome ℕ
active_count reading m =
    with_now reading m (λ now. let m' = prune_expired now m in (m', returned (length m')))
