-- ===== src/Terminal/Session/Slot.antt =====
-- What the registry of terminal-session-security.ts promises, without a map: a slot that is free,
-- or has a session that waits for its transport or has it. When a transport was claimed does not
-- show.
use dashboard_rpi.Common.{
  ℕ, ◌+◌, Bool, true, false, not, ◌&&◌, Option, none, some, List, [], ◌∷◌, ltb, if◌then◌else◌,
  is_empty, Text, text_eq,
}
use dashboard_rpi.Terminal.Session.Boundary.{
  Rejection, concurrency_limit, session_token_required, session_token_invalid, session_not_found,
  session_already_claimed, idle_timeout_ms, max_lifetime_ms, is_terminal_session_token,
  evaluate_terminal_boundary,
}
use dashboard_rpi.Terminal.Session.Registry.{
  StoredSession, Sessions, Metadata, clock_invalid, token_factory_invalid, Reading, at, invalid,
  Outcome, returned, thrown, CreateResult, created, ClaimResult, claimed, create_session,
  claim_transport, touch, touch_claimed_transport, revoke, active_count,
}
use dashboard_rpi.Terminal.Session.Calls.{
  Call, creates, claims, touches, touches_claimed, revokes, counts,
}

-- A session's token, the time of its creation and that of its last activity.
pub data Slot : Type 0 where
  free : Slot
  waiting attached : (token : Text) (created_at last_activity_at : ℕ) → Slot

unfoldable pub is_live : (now created_at last_activity_at : ℕ) → Bool
is_live now c l = ltb now (l + idle_timeout_ms) && ltb now (c + max_lifetime_ms)

unfoldable pub expire : ℕ → Slot → Slot
unfolding is_live
expire now free = free
expire now (waiting t c l) = if is_live now c l then waiting t c l else free
expire now (attached t c l) = if is_live now c l then attached t c l else free

unfoldable pub metadata : ℕ → ℕ → Metadata
metadata c l = record {
  created_at = c;
  last_activity_at = l;
  idle_expires_at = l + idle_timeout_ms;
  max_expires_at = c + max_lifetime_ms;
}

-- What a call shows its caller.
pub data Answer : Type 0 where
  creation : Outcome CreateResult → Answer
  claim : Outcome ClaimResult → Answer
  activity : Outcome (Option Metadata) → Answer
  revocation : Bool → Answer
  number : Outcome ℕ → Answer

unfoldable pub opening : (ℕ → Text) → Option Rejection → ℕ → Slot → Slot × Answer
unfolding metadata
opening factory (some reason) now slot = (slot, creation (returned (CreateResult.refused reason)))
opening factory none now (waiting t c l) =
    (waiting t c l, creation (returned (CreateResult.refused concurrency_limit)))
opening factory none now (attached t c l) =
    (attached t c l, creation (returned (CreateResult.refused concurrency_limit)))
opening factory none now free =
    if is_terminal_session_token (factory 0)
    then (waiting (factory 0) now now, creation (returned (created (factory 0) (metadata now now))))
    else (free, creation (thrown token_factory_invalid))

abbrev pub declined : Rejection → Slot → Slot × Answer
declined reason slot = (slot, claim (returned (ClaimResult.refused reason)))

unfoldable pub taking : Text → ℕ → Slot → Slot × Answer
unfolding metadata
taking token now free = declined session_not_found free
taking token now (waiting t c l) =
    if text_eq t token
    then (attached t c now, claim (returned (claimed (metadata c now))))
    else declined session_not_found (waiting t c l)
taking token now (attached t c l) =
    declined (if text_eq t token then session_already_claimed else session_not_found)
      (attached t c l)

unfoldable pub claiming : Reading → Option Rejection → Option Text → Slot → Slot × Answer
unfolding taking expire
claiming r (some reason) token slot = declined reason slot
claiming r none none slot = declined session_token_required slot
claiming r none (some token) slot =
    if is_empty token
    then declined session_token_required slot
    else if not (is_terminal_session_token token)
    then declined session_token_invalid slot
    else elim r [
      | invalid ↦ (slot, claim (thrown clock_invalid))
      | at now ↦ taking token now (expire now slot)
    ]

-- `waits` says whether a session that waits for its transport is touched.
unfoldable pub touching : (waits : Bool) → Text → ℕ → Slot → Slot × Answer
unfolding metadata
touching waits token now free = (free, activity (returned none))
touching waits token now (waiting t c l) =
    if waits && text_eq t token
    then (waiting t c now, activity (returned (some (metadata c now))))
    else (waiting t c l, activity (returned none))
touching waits token now (attached t c l) =
    if text_eq t token
    then (attached t c now, activity (returned (some (metadata c now))))
    else (attached t c l, activity (returned none))

unfoldable pub freeing : Text → Slot → Slot × Answer
freeing token free = (free, revocation false)
freeing token (waiting t c l) =
    if text_eq t token then (free, revocation true) else (waiting t c l, revocation false)
freeing token (attached t c l) =
    if text_eq t token then (free, revocation true) else (attached t c l, revocation false)

unfoldable pub occupied : Slot → ℕ
occupied free = 0
occupied (waiting t c l) = 1
occupied (attached t c l) = 1

-- A call as the specification has it.
unfoldable pub slot_call : Call → Slot → Slot × Answer
unfolding opening claiming touching freeing occupied expire
slot_call (creates invalid factory input) slot = (slot, creation (thrown clock_invalid))
slot_call (creates (at now) factory input) slot =
    opening factory (evaluate_terminal_boundary input) now (expire now slot)
slot_call (claims r input token) slot = claiming r (evaluate_terminal_boundary input) token slot
slot_call (touches invalid token) slot = (slot, activity (thrown clock_invalid))
slot_call (touches (at now) token) slot = touching true token now (expire now slot)
slot_call (touches_claimed invalid token) slot = (slot, activity (thrown clock_invalid))
slot_call (touches_claimed (at now) token) slot = touching false token now (expire now slot)
slot_call (revokes token) slot = freeing token slot
slot_call (counts invalid) slot = (slot, number (thrown clock_invalid))
slot_call (counts (at now)) slot = (expire now slot, number (returned (occupied (expire now slot))))

unfoldable pub slot_run : List Call → Slot → Slot × List Answer
unfolding slot_call
slot_run [] slot = (slot, [])
slot_run (c ∷ cs) slot =
    let (slot', a) = slot_call c slot in
    let (last, answers) = slot_run cs slot' in (last, a ∷ answers)

-- What the registry's call shows.
unfoldable pub answer : Call → Sessions → Answer
answer (creates r factory input) m = creation (create_session r factory input m).1
answer (claims r input token) m = claim (claim_transport r input token m).1
answer (touches r token) m = activity (touch r token m).1
answer (touches_claimed r token) m = activity (touch_claimed_transport r token m).1
answer (revokes token) m = revocation (revoke token m).1
answer (counts r) m = number (active_count r m).1

-- The slot that a map stands for.
unfoldable pub view_session : Text → StoredSession → Slot
view_session t s = elim s.transport_claimed_at [
  | none ↦ waiting t s.created_at s.last_activity_at
  | some _ ↦ attached t s.created_at s.last_activity_at
]

unfoldable pub view : Sessions → Slot
unfolding view_session
view [] = free
view ((t, s) ∷ m) = view_session t s
