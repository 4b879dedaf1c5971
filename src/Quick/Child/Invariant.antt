-- ===== src/Quick/Child/Invariant.antt =====
-- The invariant of a command's process, and what ends the process.
use dashboard_rpi.Common.{
  ℕ, ◌+◌, ◌≤◌, ◌≡◌, ◌⊎◌, inl, inr, refl, Bool, true, false, some, List, [], ◌∷◌, ◌++◌, length,
  arith, Bool-cases,
}
use dashboard_rpi.Terminal.Platform.{Bytes}
use dashboard_rpi.Quick.Command.{max_output_bytes}
use dashboard_rpi.Quick.Child.{
  Signal, sigterm, sigkill, output_limit, Child, kill, request_termination, on_timer, on_abort,
}

unfoldable pub byte_count : List Bytes → ℕ
byte_count [] = 0
byte_count (chunk ∷ chunks) = length chunk + byte_count chunks

unfoldable pub was_killed : List Signal → Bool
was_killed [] = false
was_killed (sigterm ∷ kills) = was_killed kills
was_killed (sigkill ∷ kills) = true

unfoldable pub was_terminated : List Signal → Bool
was_terminated [] = false
was_terminated (sigterm ∷ kills) = true
was_terminated (sigkill ∷ kills) = was_terminated kills

-- `bounded` is the bound of the output that is kept; `complete` says that what is kept is what was
-- counted, but for the chunk that passed the limit, for which the process is killed. `escalates` is about an abort of a process that has not
-- closed. `pending` and `ended` are about the promise, the timer and the listener.
pub record IsSafe (s : Child) : Type 0 where
  pub bounded : byte_count s.stdout + byte_count s.stderr ≤ max_output_bytes
  pub complete :
      (byte_count s.stdout + byte_count s.stderr ≡ s.total_bytes)
      ⊎ ((s.terminal_error ≡ some output_limit) × (was_killed s.kills ≡ true))
  pub limited : s.terminal_error ≡ some output_limit → was_killed s.kills ≡ true
  pub escalates :
      s.abort_listener ≡ false
      → s.closed ≡ false
      → (was_terminated s.kills ≡ true)
        × ((s.termination_timer ≡ true) ⊎ (was_killed s.kills ≡ true))
  pub pending : s.closed ≡ false → s.settlements ≡ []
  pub ended :
      s.closed ≡ true
      → (s.termination_timer ≡ false) × (s.abort_listener ≡ false) × (length s.settlements ≡ 1)

pub byte_count-append : (xs ys : List Bytes) → byte_count (xs ++ ys) ≡ byte_count xs + byte_count ys
unfolding byte_count
byte_count-append [] ys = omega arith
byte_count-append (x ∷ xs) ys = omega (arith, byte_count-append xs ys)

pub byte_count-one : (x : Bytes) → byte_count (x ∷ []) ≡ length x
unfolding byte_count
byte_count-one x = omega arith

pub on_timer-IsSafe : (s : Child) → IsSafe s → IsSafe (on_timer s)
unfolding on_timer kill was_killed was_terminated
on_timer-IsSafe s h = elim (Bool-cases s.termination_timer) [
  | inr off ↦ simp off h
  | inl on ↦ elim (Bool-cases s.closed) [
    | inl closed ↦ absurd (let ended = h.ended closed in ground arith)
    | inr still ↦
        rw (on, still)
          (record {
            bounded = h.bounded;
            complete = let complete = h.complete in ground arith;
            limited = λ e. refl;
            escalates = λ e e'. let escalates = h.escalates e still in (escalates.0, inr refl);
            pending = λ e. h.pending still;
            ended = λ e. absurd (ground arith);
          })
  ]
]

-- With the listener of the signal gone, or going.
request-IsSafe :
    (s : Child) → IsSafe s → IsSafe (request_termination (record s { abort_listener = false }))
unfolding request_termination kill was_killed was_terminated
request-IsSafe s h = elim (Bool-cases s.closed) [
  | inl closed ↦ rw closed (record {
    bounded = h.bounded;
    complete = h.complete;
    limited = h.limited;
    escalates = λ e e'. absurd (ground arith);
    pending = λ e. absurd (ground arith);
    ended = λ e. let (off, gone, once) = h.ended closed in (off, refl, once);
  })
  | inr still ↦ elim (Bool-cases s.termination_timer) [
    | inl on ↦
        rw (still, on)
          (record {
            bounded = h.bounded;
            complete = h.complete;
            limited = h.limited;
            escalates = λ e e'. (refl, inl refl);
            pending = λ e. h.pending still;
            ended = λ e. absurd (ground arith);
          })
    | inr off ↦
        rw (still, off)
          (record {
            bounded = h.bounded;
            complete = h.complete;
            limited = h.limited;
            escalates = λ e e'. (refl, inl refl);
            pending = λ e. h.pending still;
            ended = λ e. absurd (ground arith);
          })
  ]
]

pub on_abort-IsSafe : (s : Child) → IsSafe s → IsSafe (on_abort s)
unfolding on_abort
on_abort-IsSafe s h = elim (Bool-cases s.abort_listener) [
  | inl listens ↦ rw (listens, on_abort) (request-IsSafe s h)
  | inr gone ↦ simp gone h
]
