-- ===== src/Terminal/Agent/Session/Queue.antt =====
-- The queue of output of local-session.ts: its accounts, and the order of its lines.
use dashboard_rpi.Common.{
  ℕ, ◌+◌, ◌-◌, ◌≤◌, ◌≡◌, ◌⊎◌, inl, inr, refl, ap, sym, ◌∙◌, Bool, true, false, ◌||◌, List, [], ◌∷◌,
  ◌++◌, if◌then◌else◌, Text, byte_length, is_empty, arith, Bool-cases,
}
use mathlib.Core.List.{append_assoc, append-nil}
use dashboard_rpi.Terminal.Agent.Protocol.{max_pending_output_bytes}
use dashboard_rpi.Terminal.Agent.Session.{Session, write, flush, drained, on_drain, enqueue}

-- The bytes of the lines of a queue.
abbrev pub total : List Text → ℕ
total [] = 0
total (line ∷ lines) = byte_length line + total lines

pub record Queued (s : Session) : Type 0 where
  pub accounted : s.pending_bytes ≡ total s.queue
  pub bounded : s.pending_bytes ≤ max_pending_output_bytes
  pub stopped : (s.destroyed ≡ false) ⊎ (s.done ≡ true)
  pub flushed : (s.blocked ≡ true) ⊎ ((is_empty s.queue ≡ true) ⊎ (s.done ≡ true))

-- What no write and no drain of the queue changes.
abbrev pub Same : Session → Session → Type 0
Same s s' =
    (s'.state ≡ s.state)
    × (s'.has_pty ≡ s.has_pty)
    × (s'.open_timer ≡ s.open_timer)
    × (s'.idle_timer ≡ s.idle_timer)
    × (s'.absolute_timer ≡ s.absolute_timer)
    × (s'.drain_timer ≡ s.drain_timer)
    × (s'.ending ≡ s.ending)
    × (s'.ended ≡ s.ended)
    × (s'.destroyed ≡ s.destroyed)
    × (s'.done ≡ s.done)

total-append : (q : List Text) (line : Text) → total (q ++ line ∷ []) ≡ total q + byte_length line
total-append [] line = omega arith
total-append (l ∷ q) line = omega (arith, total-append q line)

-- All lines that were accepted: those written, then those that wait.
abbrev pub lines_of : Session → List Text
lines_of s = s.written ++ s.queue

-- A line that is offered, and whether it is accepted.
abbrev taken : Text → Bool → List Text
taken line true = line ∷ []
taken line false = []

-- A line that is offered to the stream, or the stream's `drain`. A caller of enqueueFrame that is
-- refused an output or ready frame goes on to failOutputOverflow, which empties the queue and ends the
-- session: that is no move, but a step of the session's events.
pub data Move : Type 0 where
  offers : Text → Move
  drains : Move

module _ (sink : ℕ → Bool) where
  pub enqueue-Same : (line : Text) (s : Session) → Same s (enqueue sink line s).0
  unfolding enqueue write
  enqueue-Same line s = ground arith

  pub enqueue-Queued : (line : Text) (s : Session) → Queued s → Queued (enqueue sink line s).0
  unfolding enqueue write
  enqueue-Queued line s q = ground (arith, total-append s.queue line)

  pub flush-Same : (q : List Text) (s : Session) → Same s (flush sink q s)
  unfolding flush write
  flush-Same [] s = ground arith
  flush-Same (line ∷ q) s =
      let h =
        flush-Same q
          (write sink line (record s { pending_bytes = s.pending_bytes - byte_length line })) in
      ground arith

  pub flush-Queued :
      (q : List Text) (s : Session)
      → s.pending_bytes ≡ total q
      → s.pending_bytes ≤ max_pending_output_bytes
      → ((s.destroyed ≡ false) ⊎ (s.done ≡ true))
      → Queued (flush sink q s)
  unfolding flush write
  flush-Queued [] s e b d = ground arith
  flush-Queued (line ∷ q) s e b d =
      let h =
        flush-Queued q
          (write sink line (record s { pending_bytes = s.pending_bytes - byte_length line }))
          (omega arith) (omega arith) d in
      ground arith

  flush-order :
      (q : List Text) (s : Session)
      → (flush sink q s).written ++ (flush sink q s).queue ≡ s.written ++ q
  unfolding flush write
  flush-order [] s = refl
  flush-order (line ∷ q) s = elim (Bool-cases (s.blocked || s.destroyed)) [
    | inl stops ↦ rw stops refl
    | inr goes ↦ rw goes (
        flush-order q
          (write sink line (record s { pending_bytes = s.pending_bytes - byte_length line }))
        ∙ append_assoc s.written (line ∷ []) q)
  ]

  drained-lines : (s : Session) → lines_of (drained sink s) ≡ lines_of s
  unfolding drained
  drained-lines s = ground arith

  on_drain-lines : (s : Session) → lines_of (on_drain sink s) ≡ lines_of s
  unfolding on_drain
  on_drain-lines s =
      drained-lines (flush sink s.queue (record s { blocked = false }))
      ∙ flush-order s.queue (record s { blocked = false })

  empty_queue :
      (w q : List Text) (line : Text)
      → is_empty q ≡ true
      → (w ++ line ∷ []) ++ q ≡ (w ++ q) ++ line ∷ []
  empty_queue w [] line e =
      append-nil (w ++ line ∷ []) ∙ ap (λ v. v ++ line ∷ []) (sym (append-nil w))
  empty_queue w (a ∷ q) line e = absurd (ground arith)

  enqueue-lines :
      (line : Text) (s : Session)
      → lines_of (enqueue sink line s).0 ≡ lines_of s ++ taken line (enqueue sink line s).1
  unfolding enqueue write
  enqueue-lines line s = ground (
    arith,
    empty_queue s.written s.queue line,
    append_assoc s.written s.queue (line ∷ []),
    append-nil (s.written ++ s.queue),
  )

  unfoldable pub move : Move → Session → Session
  move (offers line) s = (enqueue sink line s).0
  move drains s = if s.blocked then on_drain sink s else s

  unfoldable pub moves : List Move → Session → Session
  moves [] s = s
  moves (m ∷ ms) s = moves ms (move m s)

  -- The line of a move, if it was offered and accepted.
  unfoldable pub accepted_now : Move → Session → List Text
  accepted_now (offers line) s = taken line (enqueue sink line s).1
  accepted_now drains s = []

  unfoldable pub accepted : List Move → Session → List Text
  accepted [] s = []
  accepted (m ∷ ms) s = accepted_now m s ++ accepted ms (move m s)

  move-lines : (m : Move) (s : Session) → lines_of (move m s) ≡ lines_of s ++ accepted_now m s
  unfolding move accepted_now
  move-lines (offers line) s = enqueue-lines line s
  move-lines drains s = ground (arith, on_drain-lines s, append-nil (s.written ++ s.queue))

  -- However the stream blocks and drains, the lines written and then those still waiting are the
  -- ones from before followed by the accepted ones, in the order of their offers: none is lost,
  -- doubled or overtaken.
  pub moves-lines :
      (ms : List Move) (s : Session) → lines_of (moves ms s) ≡ lines_of s ++ accepted ms s
  unfolding moves accepted
  moves-lines [] s = sym (append-nil (lines_of s))
  moves-lines (m ∷ ms) s =
      moves-lines ms (move m s)
      ∙ ap (λ v. v ++ accepted ms (move m s)) (move-lines m s)
      ∙ append_assoc (lines_of s) (accepted_now m s) _
