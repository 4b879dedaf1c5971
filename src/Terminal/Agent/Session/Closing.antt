-- ===== src/Terminal/Agent/Session/Closing.antt =====
-- What must agree in a session of local-session.ts, and its end and its frames.
use dashboard_rpi.Common.{ℕ, ◌≡◌, ◌⊎◌, inr, Bool, true, false, Option, none, some, [], Text, arith}
use dashboard_rpi.Common.Json.{Number}
use dashboard_rpi.Terminal.Wire.{LocalErrorCode, output_overflow}
use dashboard_rpi.Terminal.Agent.Protocol.{ServerFrame}
use dashboard_rpi.Terminal.Agent.Session.{
  Session, is_waiting, is_active, is_closed, end_output_when_flushed, cleanup_pty, shut, enqueue,
  enqueue_frame, send_error, send_exit, close_session, fail_output_overflow,
}
use dashboard_rpi.Terminal.Agent.Session.Queue.{Queued, Same, enqueue-Same, enqueue-Queued}

-- The PTY and the session's timers, by the state.
pub record Phased (s : Session) : Type 0 where
  pub at_rest :
      (is_waiting s.state ≡ false)
      ⊎ (s.has_pty ≡ false) × (s.open_timer ≡ true) × (s.absolute_timer ≡ true)
  pub running :
      (is_active s.state ≡ false)
      ⊎ (s.has_pty ≡ true)
        × (s.idle_timer ≡ true)
        × (s.absolute_timer ≡ true)
        × (s.open_timer ≡ false)
  pub over :
      (is_closed s.state ≡ false)
      ⊎ (s.has_pty ≡ false)
        × (s.open_timer ≡ false)
        × (s.idle_timer ≡ false)
        × (s.absolute_timer ≡ false)
  -- A closed session's output is over, was told to end, or will be cut off by the timer.
  pub leaving :
      (is_closed s.state ≡ false) ⊎ ((s.done ≡ true) ⊎ ((s.ended ≡ true) ⊎ (s.drain_timer ≡ true)))

pub record IsSound (s : Session) : Type 0 where
  pub queued : Queued s
  pub phased : Phased s

-- A session that `shut` has left.
record Shut (s : Session) : Type 0 where
  queued : Queued s
  closed_now : is_closed s.state ≡ true
  no_pty : s.has_pty ≡ false
  no_open : s.open_timer ≡ false
  no_idle : s.idle_timer ≡ false
  no_absolute : s.absolute_timer ≡ false

pub Same-Phased : (s s' : Session) → Same s s' → Phased s → Phased s'
Same-Phased s s' e p = ground arith

shut-Shut : (kill_pty : Bool) (s : Session) → Queued s → Shut (shut kill_pty s)
unfolding shut cleanup_pty is_closed
shut-Shut kill_pty s q = ground arith

end-IsSound : (s : Session) → Shut s → IsSound (end_output_when_flushed s)
unfolding end_output_when_flushed is_waiting is_active is_closed
end-IsSound s h = ground arith

module _ (sink : ℕ → Bool) where
  enqueue-Shut : (line : Text) (s : Session) → Shut s → Shut (enqueue sink line s).0
  enqueue-Shut line s h =
      let e = enqueue-Same sink line s in
      let q = enqueue-Queued sink line s h.queued in ground arith

  send_error-Shut :
      (code : Option LocalErrorCode) (s : Session) → Shut s → Shut (send_error sink code s)
  unfolding send_error enqueue_frame
  send_error-Shut none s h = h
  send_error-Shut (some code) s h = enqueue-Shut _ s h

  send_exit-Shut :
      (e : Option (Option Number × Option Number)) (s : Session)
      → Shut s
      → Shut (send_exit sink e s)
  unfolding send_exit enqueue_frame
  send_exit-Shut none s h = h
  send_exit-Shut (some (code, signal)) s h = enqueue-Shut _ s h

  pub close_session-IsSound :
      (kill_pty : Bool) (code : Option LocalErrorCode) (e : Option (Option Number × Option Number))
      (s : Session)
      → Queued s
      → ((is_closed s.state ≡ false) ⊎ Phased s)
      → IsSound (close_session sink kill_pty code e s)
  unfolding close_session
  close_session-IsSound kill_pty code e s q p =
      let h =
        end-IsSound _ (send_exit-Shut e _ (send_error-Shut code _ (shut-Shut kill_pty s q))) in
      ground arith

  pub closes :
      (kill_pty : Bool) (code : Option LocalErrorCode) (e : Option (Option Number × Option Number))
      (s : Session)
      → IsSound s
      → IsSound (close_session sink kill_pty code e s)
  closes kill_pty code e s h = close_session-IsSound kill_pty code e s h.queued (inr h.phased)

  pub overflows : (s : Session) → IsSound s → IsSound (fail_output_overflow sink s)
  unfolding fail_output_overflow
  overflows s h =
      closes true (some output_overflow) none (record s { queue = []; pending_bytes = 0 })
        (ground arith)

  pub enqueue_frame-IsSound :
      (frame : ServerFrame) (s : Session) → IsSound s → IsSound (enqueue_frame sink frame s).0
  unfolding enqueue_frame
  enqueue_frame-IsSound frame s h = record {
    queued = enqueue-Queued sink _ s h.queued;
    phased = Same-Phased s _ (enqueue-Same sink _ s) h.phased;
  }
