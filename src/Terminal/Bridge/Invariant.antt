-- ===== src/Terminal/Bridge/Invariant.antt =====
-- What the variables of terminal-websocket-bridge.ts have to do with one another, and its ends and
-- writes.
use dashboard_rpi.Common.{ℕ, true, false, none, [], ◌∷◌, Text}
use dashboard_rpi.Terminal.Session.Registry.{Sessions, has, remove, revoke, touch_claimed_at}
use dashboard_rpi.Terminal.Bridge.State.{
  is_closing, emit, unusable, is_over, is_active, destroy_local, frame_refusal, Reason, Env, Bridge,
  closing, closed, local_unavailable, websocket_send_failed, local_protocol_error,
  local_backpressure, sent, local_written,
}
use dashboard_rpi.Terminal.Bridge.Finish.{
  revoke_session, shut, finish_quietly, close_websocket, finish, amount_of, send_browser_frame,
  send_exit, send_exit_frame_then_close, write_local_frame,
}
use dashboard_rpi.Terminal.Session.Tokens.{Of, Gone-Stable}
use dashboard_rpi.Terminal.Session.Maps.{length-remove}
use dashboard_rpi.Terminal.Session.History.{touch_claimed_at-All}
use dashboard_rpi.Common.{
  length, ◌≡◌, ◌≤◌, ◌⊎◌, inl, inr, arith, All, text_eq, text_eq_iff, refl, Bool-cases, Option-cases,
}
use dashboard_rpi.Terminal.Bridge.Log.{effect_fits, log_fits, has_sent, is_early, is_working}

module _ (token : Text) where
  -- The variables of the code agree with its state, and a revoked token is not in the registry.
  pub record Control (b : Bridge) : Type 0 where
    pub over :
        (is_over b.state ≡ false)
        ⊎ (b.revoked ≡ true)
          × (unusable b.local ≡ true)
          × (b.connect_timer ≡ false)
          × (b.ready_timer ≡ false)
    pub exit_timer : (is_closing b.state ≡ true) ⊎ (b.exit_send_timer ≡ false)
    pub bounded : length b.sessions ≤ 1
    pub gone : (b.revoked ≡ false) ⊎ (has token b.sessions ≡ false)
    pub fitting : log_fits b.log ≡ true
    pub waiting :
        (b.connect_listener ≡ false) ⊎ (has_sent b.log ≡ false) × (is_working b.state ≡ false)
    pub silent : (is_early b.state ≡ false) ⊎ (has_sent b.log ≡ false)

  has-remove : (m : Sessions) → length m ≤ 1 → has token (remove token m) ≡ false
  unfolding has remove
  has-remove [] h = refl
  has-remove ((k, s) ∷ []) h = ground arith
  has-remove (a ∷ b ∷ m) h = absurd (omega arith)

  pub absent-All : (m : Sessions) → has token m ≡ false → All (Of token (λ s. ⊥)) m
  unfolding has
  absent-All [] h = tt
  absent-All ((k, s) ∷ m) h =
      ((λ e. ground (arith, text_eq_iff k token)), absent-All m (ground arith))

  pub All-absent : (m : Sessions) → All (Of token (λ s. ⊥)) m → has token m ≡ false
  unfolding has
  All-absent [] h = refl
  All-absent ((k, s) ∷ m) h = elim (Bool-cases (text_eq k token)) [
    | inl e ↦ absurd (h.0 ((text_eq_iff k token).0 e))
    | inr e ↦ rw e (All-absent m h.1)
  ]

  pub touch-absent :
      (now : ℕ) (m : Sessions)
      → has token m ≡ false
      → has token (touch_claimed_at token now m).0 ≡ false
  touch-absent now m h =
      All-absent _
        (touch_claimed_at-All (Of token (λ s. ⊥)) (Gone-Stable token) token now m (absent-All m h))

  revoke_session-Control :
      (b : Bridge)
      → length b.sessions ≤ 1
      → ((b.revoked ≡ false) ⊎ (has token b.sessions ≡ false))
      → (length (revoke_session token b).sessions ≤ 1)
        × (has token (revoke_session token b).sessions ≡ false)
        × ((revoke_session token b).revoked ≡ true)
        × ((revoke_session token b).local ≡ b.local)
        × ((revoke_session token b).state ≡ b.state)
        × ((revoke_session token b).connect_timer ≡ b.connect_timer)
        × ((revoke_session token b).ready_timer ≡ b.ready_timer)
        × ((revoke_session token b).exit_send_timer ≡ b.exit_send_timer)
        × ((revoke_session token b).log ≡ b.log)
        × ((revoke_session token b).connect_listener ≡ b.connect_listener)
  unfolding revoke_session revoke
  revoke_session-Control b h g =
      ground (arith, length-remove token b.sessions, has-remove b.sessions)

  pub shut-Control : (b : Bridge) → Control b → Control (shut token b)
  unfolding shut destroy_local is_over is_closing unusable
  shut-Control b c =
      let r =
        revoke_session-Control
          (record b {
            state = closed;
            connect_timer = false;
            ready_timer = false;
            exit_send_timer = false;
          })
          c.bounded c.gone in
      ground arith

  pub finish-Control :
      (env : Env) (code : ℕ) (reason : Reason) (b : Bridge)
      → Control b
      → Control (finish token env code reason b)
  unfolding finish close_websocket
  finish-Control env code reason b c = let c' = shut-Control b c in ground arith

  pub finish_quietly-Control : (b : Bridge) → Control b → Control (finish_quietly token b)
  unfolding finish_quietly
  finish_quietly-Control b c = let c' = shut-Control b c in ground arith

  -- A frame that is not refused is within the limits.
  refusal-fits :
      (env : Env) (frame : Text)
      → frame_refusal env frame ≡ none
      → effect_fits (sent frame (amount_of env.buffered_amount)) ≡ true
  unfolding frame_refusal
  refusal-fits env frame e = elim (Option-cases env.buffered_amount) [
    | inl none_e ↦ ground arith
    | inr (n, some_e) ↦ ground arith
  ]

  pub send_browser_frame-Control :
      (env : Env) (frame : Text) (b : Bridge)
      → is_early b.state ≡ false
      → Control b
      → Control (send_browser_frame token env frame b)
  unfolding send_browser_frame is_over
  send_browser_frame-Control env frame b early c = elim (Option-cases (frame_refusal env frame)) [
    | inl e ↦
        ground (arith, refusal-fits env frame e, finish-Control env 1011 websocket_send_failed b)
    | inr (reason, e) ↦ ground (arith, finish-Control env 1013 reason b)
  ]

  send_exit-Control :
      (env : Env) (frame : Text) (b : Bridge)
      → frame_refusal env frame ≡ none
      → is_active b.state ≡ true
      → Control b
      → Control (send_exit token env frame b)
  unfolding send_exit destroy_local is_over is_active is_closing unusable
  send_exit-Control env frame b e active_e c =
      let f = refusal-fits env frame e in
      let r =
        revoke_session-Control
          (record b { state = closing; connect_timer = false; ready_timer = false }) c.bounded
          c.gone in
      ground arith

  pub send_exit_frame_then_close-Control :
      (env : Env) (frame : Text) (b : Bridge)
      → Control b
      → Control (send_exit_frame_then_close token env frame b)
  unfolding send_exit_frame_then_close
  send_exit_frame_then_close-Control env frame b c = elim (Option-cases (frame_refusal env frame)) [
    | inl e ↦
        ground
          (arith, finish-Control env 1011 local_protocol_error b, send_exit-Control env frame b e)
    | inr (reason, e) ↦
        ground
          (arith, finish-Control env 1011 local_protocol_error b, finish-Control env 1013 reason b)
  ]

  pub write_local_frame-Control :
      (env : Env) (line : Text) (b : Bridge)
      → Control b
      → Control (write_local_frame token env line b)
  unfolding write_local_frame
  write_local_frame-Control env line b c = ground (
    arith,
    finish-Control env 1011 local_unavailable b,
    finish-Control env 1013 local_backpressure b,
    finish-Control env 1013 local_backpressure (emit (local_written line) b),
  )
