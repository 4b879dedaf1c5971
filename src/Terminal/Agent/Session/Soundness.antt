-- ===== src/Terminal/Agent/Session/Soundness.antt =====
-- The handlers and events of local-session.ts, and what must agree in a session.
use dashboard_rpi.Common.{
  ℕ, ◌≡◌, inl, inr, Bool, true, false, Option, none, some, List, [], ◌∷◌, ◌+◌, Text, arith,
  Option-cases, Bool-cases,
}
use dashboard_rpi.Terminal.Platform.{Platform, Bytes}
use dashboard_rpi.Terminal.Wire.{protocol_error, pty_unavailable, session_expired}
use dashboard_rpi.Terminal.Agent.Protocol.{
  ClientFrame, open', input, resize, close, ready, output, split_terminal_local_output, push_client,
}
use dashboard_rpi.Terminal.Agent.Session.{
  active, Session, Env, is_waiting, is_active, is_closed, cleanup_pty, flush, drained, on_drain,
  send_chunks, handle_pty_output, open_session,
}
use dashboard_rpi.Terminal.Agent.Session.Events.{
  Event, input_data, input_end, input_error, output_error, output_finish, drain, pty_data, pty_exit,
  open_due, idle_due, absolute_due, drain_due, integer_only, force_output_closed, on_output_error,
  handle_active, handle_waiting, handle_client, handle_frames, handle_pushed, on_input_end, step,
  run,
}
use dashboard_rpi.Terminal.Agent.Session.Queue.{flush-Same, flush-Queued}
use dashboard_rpi.Terminal.Agent.Session.Closing.{
  Phased, IsSound, closes, overflows, enqueue_frame-IsSound, close_session-IsSound, Same-Phased,
}

module _ (sink : ℕ → Bool) where
  send_chunks-IsSound :
      (chunks : List Text) (s : Session) → IsSound s → IsSound (send_chunks sink chunks s)
  unfolding send_chunks
  send_chunks-IsSound [] s h = h
  send_chunks-IsSound (chunk ∷ chunks) s h =
      let r = enqueue_frame-IsSound sink (output chunk) s h in
      let all = send_chunks-IsSound chunks _ r in let cut = overflows sink _ r in ground arith

  handle_pty_output-IsSound :
      (data' : Text) (s : Session) → IsSound s → IsSound (handle_pty_output sink data' s)
  unfolding handle_pty_output
  handle_pty_output-IsSound data' s h = elim (Option-cases (split_terminal_local_output data')) [
    | inl e ↦ let cut = overflows sink s h in ground arith
    | inr (chunks, e) ↦ let all = send_chunks-IsSound chunks s h in ground arith
  ]

  -- A session that has just opened.
  opened-IsSound :
      (env : Env) (cols rows : ℕ) (s : Session)
      → IsSound s
      → IsSound (open_session sink env cols rows s)
  unfolding open_session is_waiting is_active is_closed
  opened-IsSound env cols rows s h =
      let refused = closes sink true (some protocol_error) none s h in
      let failed = closes sink false (some pty_unavailable) none s h in
      let s' : Session = record s {
        state = active;
        has_pty = true;
        open_timer = false;
        idle_timer = true;
        sizes = (cols, rows) ∷ s.sizes;
      } in
      elim (Bool-cases (is_waiting s.state)) [
        | inr later ↦ ground arith
        | inl first ↦
            let r = enqueue_frame-IsSound sink ready s' (ground arith) in
            let cut = overflows sink _ r in ground arith
      ]

  handle_active-IsSound :
      (env : Env) (frame : ClientFrame) (s : Session)
      → is_active s.state ≡ true
      → IsSound s
      → IsSound (handle_active sink env frame s)
  unfolding handle_active is_waiting is_active is_closed
  handle_active-IsSound env (input d) s a h =
      let c = closes sink true (some pty_unavailable) none s h in ground arith
  handle_active-IsSound env (resize cols rows) s a h =
      let c = closes sink true (some pty_unavailable) none s h in ground arith
  handle_active-IsSound env close s a h = closes sink true none none s h
  handle_active-IsSound env (open' cols rows) s a h =
      closes sink true (some protocol_error) none s h

  handle_waiting-IsSound :
      (env : Env) (frame : ClientFrame) (s : Session)
      → IsSound s
      → IsSound (handle_waiting sink env frame s)
  unfolding handle_waiting
  handle_waiting-IsSound env (open' cols rows) s h = opened-IsSound env cols rows s h
  handle_waiting-IsSound env (input d) s h = closes sink false (some protocol_error) none s h
  handle_waiting-IsSound env (resize cols rows) s h =
      closes sink false (some protocol_error) none s h
  handle_waiting-IsSound env close s h = closes sink false (some protocol_error) none s h

  handle_client-IsSound :
      (env : Env) (o : Option ClientFrame) (s : Session)
      → IsSound s
      → IsSound (handle_client sink env o s)
  unfolding handle_client is_active
  handle_client-IsSound env none s h = closes sink true (some protocol_error) none s h
  handle_client-IsSound env (some frame) s h =
      let w = handle_waiting-IsSound env frame s h in
      ground (arith, handle_active-IsSound env frame s)

  handle_frames-IsSound :
      (p : Platform) (envs : ℕ → Env) (i : ℕ) (raws : List Bytes) (s : Session)
      → IsSound s
      → IsSound (handle_frames sink p envs i raws s)
  unfolding handle_frames
  handle_frames-IsSound p envs i [] s h = h
  handle_frames-IsSound p envs i (raw ∷ raws) s h =
      handle_frames-IsSound p envs (i + 1) raws _ (handle_client-IsSound (envs i) _ s h)

  handle_pushed-IsSound :
      (p : Platform) (envs : ℕ → Env) (r : Bytes × Option (List Bytes)) (s : Session)
      → IsSound s
      → IsSound (handle_pushed sink p envs r s)
  unfolding handle_pushed
  handle_pushed-IsSound p envs (pending, none) s h =
      closes sink true (some protocol_error) none (record s { pending = pending }) (ground arith)
  handle_pushed-IsSound p envs (pending, some raws) s h =
      handle_frames-IsSound p envs 0 raws (record s { pending = pending }) (ground arith)

  on_drain-IsSound : (s : Session) → IsSound s → IsSound (on_drain sink s)
  unfolding on_drain drained
  on_drain-IsSound s h =
      let q0 = h.queued in
      let e = flush-Same sink s.queue (record s { blocked = false }) in
      let q =
        flush-Queued sink s.queue (record s { blocked = false }) q0.accounted q0.bounded
          q0.stopped in
      let p : Phased (flush sink s.queue (record s { blocked = false })) =
        Same-Phased (record s { blocked = false }) _ e (let p0 = h.phased in ground arith) in
      ground arith

  step-IsSound : (p : Platform) (e : Event) (s : Session) → IsSound s → IsSound (step sink p e s)
  unfolding step on_input_end force_output_closed on_output_error cleanup_pty is_waiting is_active
      is_closed
  step-IsSound p (input_data envs chunk) s h =
      let r = handle_pushed-IsSound p envs (push_client s.pending chunk) s h in ground arith
  step-IsSound p input_end s h =
      let a = closes sink true (some protocol_error) none s h in
      let b = closes sink true none none s h in ground arith
  step-IsSound p input_error s h = closes sink true none none s h
  step-IsSound p (output_error destroyed') s h = ground arith
  step-IsSound p output_finish s h = ground arith
  step-IsSound p drain s h = let d = on_drain-IsSound s h in ground arith
  step-IsSound p (pty_data data') s h = handle_pty_output-IsSound data' s h
  step-IsSound p (pty_exit code signal) s h =
      let c = closes sink false none (some (integer_only code, integer_only signal)) s h in
      ground arith
  step-IsSound p open_due s h = ground (
    arith,
    close_session-IsSound sink false (some protocol_error) none (record s { open_timer = false }),
  )
  step-IsSound p idle_due s h = ground (
    arith,
    close_session-IsSound sink true (some session_expired) none (record s { idle_timer = false }),
  )
  step-IsSound p absolute_due s h = ground (
    arith,
    close_session-IsSound sink true (some session_expired) none
        (record s { absolute_timer = false }),
  )
  step-IsSound p drain_due s h = ground arith

  pub run-keeps :
      (p : Platform) (es : List Event) (s : Session) → IsSound s → IsSound (run sink p es s)
  unfolding run
  run-keeps p [] s h = h
  run-keeps p (e ∷ es) s h = run-keeps p es (step sink p e s) (step-IsSound p e s h)
