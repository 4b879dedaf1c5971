-- ===== src/Terminal/Agent/Session/Events.antt =====
-- The handlers of local-session.ts for frames and events, and its start.
use dashboard_rpi.Common.{
  ℕ, ◌+◌, Bool, true, false, not, Option, none, some, List, [], ◌∷◌, if◌then◌else◌, Text,
}
use dashboard_rpi.Common.Json.{Number}
use dashboard_rpi.Terminal.Platform.{Platform, Bytes}
use dashboard_rpi.Terminal.Wire.{protocol_error, pty_unavailable, session_expired, end_throws}
use dashboard_rpi.Terminal.Agent.Protocol.{
  ClientFrame, open', input, resize, close, parse_terminal_local_client_frame, push_client,
}
use dashboard_rpi.Terminal.Agent.Session.{
  waiting, active, closed, Session, Env, is_closed, is_active, cleanup_pty, on_drain, close_session,
  open_session, handle_pty_output,
}

pub data Event : Type 0 where
  input_data : (ℕ → Env) → Bytes → Event
  input_end input_error : Event
  output_error : (destroyed : Bool) → Event
  output_finish drain : Event
  pty_data : Text → Event
  pty_exit : (code signal : Option Number) → Event
  open_due idle_due absolute_due drain_due : Event

-- `Number.isInteger` on an exit code or signal.
unfoldable pub integer_only : Option Number → Option Number
integer_only none = none
integer_only (some (Number.pos n)) = some (Number.pos n)
integer_only (some (Number.negsuc n)) = some (Number.negsuc n)
integer_only (some Number.fraction) = none

-- `forceOutputClosed`.
unfoldable pub force_output_closed : Session → Session
force_output_closed s = record s { drain_timer = false; destroyed = true; done = true }

unfoldable pub on_output_error : Bool → Session → Session
unfolding is_closed cleanup_pty
on_output_error destroyed' s =
    let s' : Session = record s { drain_timer = false; done = true; destroyed = destroyed' } in
    if is_closed s.state
    then s'
    else cleanup_pty (record s' {
      state = closed;
      open_timer = false;
      idle_timer = false;
      absolute_timer = false;
    })

module _ (sink : ℕ → Bool) where
  -- The switch of `handleFrame` in an active session.
  unfoldable pub handle_active : Env → ClientFrame → Session → Session
  handle_active env (input s') s =
      if env.pty_throws
      then close_session sink true (some pty_unavailable) none s
      else record s { typed = s' ∷ s.typed; idle_timer = true }
  handle_active env (resize cols rows) s =
      if env.pty_throws
      then close_session sink true (some pty_unavailable) none s
      else record s { sizes = (cols, rows) ∷ s.sizes; idle_timer = true }
  handle_active env close s = close_session sink true none none s
  handle_active env (open' cols rows) s = close_session sink true (some protocol_error) none s

  unfoldable pub handle_waiting : Env → ClientFrame → Session → Session
  handle_waiting env (open' cols rows) s = open_session sink env cols rows s
  handle_waiting env (input _) s = close_session sink false (some protocol_error) none s
  handle_waiting env (resize _ _) s = close_session sink false (some protocol_error) none s
  handle_waiting env close s = close_session sink false (some protocol_error) none s

  unfoldable pub handle_client : Env → Option ClientFrame → Session → Session
  handle_client env none s = close_session sink true (some protocol_error) none s
  handle_client env (some frame) s = elim s.state [
    | waiting ↦ handle_waiting env frame s
    | active ↦ handle_active env frame s
    | closed ↦ s
  ]

  -- `handleFrame`, over the lines of one chunk.
  unfoldable pub handle_frames : Platform → (ℕ → Env) → ℕ → List Bytes → Session → Session
  handle_frames p envs i [] s = s
  handle_frames p envs i (raw ∷ raws) s =
      handle_frames p envs (i + 1) raws
        (handle_client (envs i) (parse_terminal_local_client_frame p raw) s)

  unfoldable pub handle_pushed :
      Platform → (ℕ → Env) → Bytes × Option (List Bytes) → Session → Session
  handle_pushed p envs (pending, none) s =
      close_session sink true (some protocol_error) none (record s { pending = pending })
  handle_pushed p envs (pending, some raws) s =
      handle_frames p envs 0 raws (record s { pending = pending })

  unfoldable pub on_input_end : Session → Session
  on_input_end s =
      if is_closed s.state
      then s
      else if end_throws s.pending
      then close_session sink true (some protocol_error) none s
      else close_session sink true none none s

  -- A timer's callback runs only while it is armed, and `drain` is heard only while blocked.
  unfoldable pub step : Platform → Event → Session → Session
  unfolding is_closed is_active
  step p (input_data envs chunk) s =
      if is_closed s.state then s else handle_pushed p envs (push_client s.pending chunk) s
  step p input_end s = on_input_end s
  step p input_error s = close_session sink true none none s
  step p (output_error destroyed') s = on_output_error destroyed' s
  step p output_finish s = record s { drain_timer = false; done = true }
  step p drain s = if s.blocked then on_drain sink s else s
  step p (pty_data data') s = handle_pty_output sink data' s
  step p (pty_exit code signal) s =
      if not (is_active s.state)
      then s
      else close_session sink false none (some (integer_only code, integer_only signal)) s
  step p open_due s =
      if s.open_timer
      then close_session sink false (some protocol_error) none (record s { open_timer = false })
      else s
  step p idle_due s =
      if s.idle_timer
      then close_session sink true (some session_expired) none (record s { idle_timer = false })
      else s
  step p absolute_due s =
      if s.absolute_timer
      then close_session sink true (some session_expired) none (record s { absolute_timer = false })
      else s
  step p drain_due s = if s.drain_timer then force_output_closed s else s

  unfoldable pub run : Platform → List Event → Session → Session
  run p [] s = s
  run p (e ∷ es) s = run p es (step p e s)

-- `runTerminalLocalSession`.
abbrev pub start : Session
start = record {
  state = waiting;
  has_pty = false;
  open_timer = true;
  idle_timer = false;
  absolute_timer = true;
  drain_timer = false;
  blocked = false;
  ending = false;
  pending_bytes = 0;
  queue = [];
  written = [];
  ended = false;
  destroyed = false;
  done = false;
  pending = [];
  kills = 0;
  typed = [];
  sizes = [];
}
