-- ===== src/Terminal/Agent/Session.antt =====
-- apps/terminal-agent/src/local-session.ts: one terminal of the agent, between the server's lines,
-- a PTY, and an output stream that may block. The closure's variables are a record; a timer field
-- says whether the timer is armed, and `written` has the lines given to `output.write`.
pub mod Events
pub mod Queue
pub mod Closing
pub mod Soundness
pub mod Ending
use dashboard_rpi.Common.{
  ℕ, ◌+◌, ◌-◌, Bool, true, false, not, ◌&&◌, ◌||◌, Option, none, some, List, [], ◌∷◌, ◌++◌, ltb,
  if◌then◌else◌, Text, byte_length, is_empty, length,
}
use dashboard_rpi.Common.Json.{Number}
use dashboard_rpi.Terminal.Platform.{Platform, Bytes}
use dashboard_rpi.Terminal.Wire.{LocalErrorCode, protocol_error, pty_unavailable, output_overflow}
use dashboard_rpi.Terminal.Agent.Protocol.{
  ClientFrame, open', input, resize, close, ServerFrame, ready, output, exit, error,
  serialize_terminal_local_server_frame, split_terminal_local_output,
  parse_terminal_local_client_frame, max_pending_output_bytes,
}

abbrev pub max_serialized_frame_bytes : ℕ
max_serialized_frame_bytes = 32768

pub data State : Type 0 where
  waiting active closed : State

pub record Session : Type 0 where
  pub state : State
  pub has_pty : Bool
  pub open_timer : Bool
  pub idle_timer : Bool
  pub absolute_timer : Bool
  pub drain_timer : Bool
  pub blocked : Bool
  pub ending : Bool
  pub pending_bytes : ℕ
  pub queue : List Text
  pub written : List Text
  pub ended : Bool
  pub destroyed : Bool
  pub done : Bool
  pub pending : Bytes
  pub kills : ℕ
  pub typed : List Text
  pub sizes : List (ℕ × ℕ)

unfoldable pub is_waiting : State → Bool
is_waiting waiting = true
is_waiting active = false
is_waiting closed = false

unfoldable pub is_active : State → Bool
is_active waiting = false
is_active active = true
is_active closed = false

unfoldable pub is_closed : State → Bool
is_closed waiting = false
is_closed active = false
is_closed closed = true

-- `endOutputWhenFlushed`.
unfoldable pub end_output_when_flushed : Session → Session
end_output_when_flushed s =
    if not s.blocked && is_empty s.queue && not s.ended && not s.destroyed
    then record s { ending = true; ended = true }
    else if not s.drain_timer && not s.destroyed && not s.ended
    then record s { ending = true; drain_timer = true }
    else record s { ending = true }

-- `cleanupPty`; a `kill` that throws counts like any other.
unfoldable pub cleanup_pty : Session → Session
cleanup_pty s = if s.has_pty then record s { has_pty = false; kills = s.kills + 1 } else s

-- The first part of `closeSession`, up to the frames.
unfoldable pub shut : Bool → Session → Session
unfolding cleanup_pty
shut kill_pty s =
    let s' : Session = record s {
      state = closed;
      open_timer = false;
      idle_timer = false;
      absolute_timer = false;
    } in
    if kill_pty then cleanup_pty s' else record s' { has_pty = false }

-- What the session may throw on: `loadPtyFactory` and `create`, or a method of the PTY.
pub record Env : Type 0 where
  pub creates : Bool
  pub pty_throws : Bool

-- `sink` answers the writes: whether the n-th call of `output.write` returns true.
module _ (sink : ℕ → Bool) where
  -- `outputBlocked = !output.write(line)`.
  unfoldable pub write : Text → Session → Session
  write line s = record s {
    blocked = not (sink (length s.written));
    written = s.written ++ line ∷ [];
  }

  -- The loop of `onDrain` over the queue.
  unfoldable pub flush : List Text → Session → Session
  unfolding write
  flush [] s = record s { queue = [] }
  flush (line ∷ lines) s =
      let rest =
        flush lines
          (write line (record s { pending_bytes = s.pending_bytes - byte_length line })) in
      if s.blocked || s.destroyed then record s { queue = line ∷ lines } else rest

  unfoldable pub drained : Session → Session
  drained s =
      if s.blocked
      then s
      else if s.ending && not s.ended && not s.destroyed
      then record s { drain_timer = false; ended = true }
      else s

  -- `onDrain`.
  unfoldable pub on_drain : Session → Session
  on_drain s = drained (flush s.queue (record s { blocked = false }))

  -- `enqueueFrame` on a serialised frame.
  unfoldable pub enqueue : Text → Session → Session × Bool
  enqueue line s =
      if s.destroyed || s.ended
      then (s, false)
      else if ltb max_serialized_frame_bytes (byte_length line)
      then (s, false)
      else if not s.blocked && is_empty s.queue
      then (write line s, true)
      else if ltb max_pending_output_bytes (s.pending_bytes + byte_length line)
      then (s, false)
      else (
        record s {
          queue = s.queue ++ line ∷ [];
          pending_bytes = s.pending_bytes + byte_length line;
        },
        true,
      )

  unfoldable pub enqueue_frame : ServerFrame → Session → Session × Bool
  enqueue_frame frame s = enqueue (serialize_terminal_local_server_frame frame) s

  unfoldable pub send_error : Option LocalErrorCode → Session → Session
  send_error none s = s
  send_error (some code) s = (enqueue_frame (error code) s).0

  unfoldable pub send_exit : Option (Option Number × Option Number) → Session → Session
  send_exit none s = s
  send_exit (some (code, signal)) s = (enqueue_frame (exit code signal) s).0

  -- `closeSession`.
  unfoldable pub close_session :
      Bool → Option LocalErrorCode → Option (Option Number × Option Number) → Session → Session
  unfolding is_closed
  close_session kill_pty code exit' s =
      if is_closed s.state
      then s
      else end_output_when_flushed (send_exit exit' (send_error code (shut kill_pty s)))

  -- `failOutputOverflow`.
  unfoldable pub fail_output_overflow : Session → Session
  fail_output_overflow s =
      close_session true (some output_overflow) none (record s { queue = []; pending_bytes = 0 })

  abbrev pub or_overflow : Session × Bool → Session
  or_overflow (s, ok) = if ok then s else fail_output_overflow s

  unfoldable pub send_chunks : List Text → Session → Session
  send_chunks [] s = s
  send_chunks (chunk ∷ chunks) s =
      let r = enqueue_frame (output chunk) s in
      let rest = send_chunks chunks r.0 in if r.1 then rest else fail_output_overflow r.0

  -- `handlePtyOutput`.
  unfoldable pub handle_pty_output : Text → Session → Session
  unfolding is_active
  handle_pty_output data' s =
      if not (is_active s.state) then s else elim (split_terminal_local_output data') [
        | none ↦ fail_output_overflow s
        | some chunks ↦ send_chunks chunks s
      ]

  -- `openSession`.
  unfoldable pub open_session : Env → (cols rows : ℕ) → Session → Session
  unfolding is_waiting
  open_session env cols rows s =
      if not (is_waiting s.state)
      then close_session true (some protocol_error) none s
      else if not env.creates
      then close_session false (some pty_unavailable) none s
      else or_overflow (
          enqueue_frame ready (record s {
            state = active;
            has_pty = true;
            open_timer = false;
            idle_timer = true;
            sizes = (cols, rows) ∷ s.sizes;
          }))
