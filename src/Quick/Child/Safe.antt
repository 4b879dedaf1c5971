-- ===== src/Quick/Child/Safe.antt =====
-- What holds of a command's process at any time.
use dashboard_rpi.Common.{
  ℕ, ◌+◌, ◌≤◌, ◌≡◌, ◌↔◌, inl, inr, refl, Bool, true, false, ◌||◌, Option, none, some, List, [], ◌∷◌,
  ltb, length, Text, arith, Bool-cases, if◌then◌else◌,
}
use dashboard_rpi.Terminal.Platform.{Bytes}
use dashboard_rpi.Quick.Command.{max_output_bytes, CommandId}
use dashboard_rpi.Quick.Child.{
  sigkill, CommandError, output_limit, Child, kill, clear_termination_timer, request_termination,
  Stream, out, err, push, is_some, capture, or_source_unavailable, on_error, on_close, started,
  Event, data_on, errs, aborts, fires, closes, step, run,
}
use dashboard_rpi.Quick.Child.Kept.{IsComplete, run-IsComplete}
use dashboard_rpi.Quick.Child.Invariant.{
  IsSafe, byte_count, was_killed, was_terminated, byte_count-append, byte_count-one,
  on_timer-IsSafe, on_abort-IsSafe,
}

push-IsSafe :
    (stream : Stream) (chunk : Bytes) (s : Child)
    → IsSafe s
    → s.closed ≡ false
    → s.terminal_error ≡ none
    → s.total_bytes + length chunk ≤ max_output_bytes
    → IsSafe (push stream chunk (record s { total_bytes = s.total_bytes + length chunk }))
unfolding push
push-IsSafe out chunk s h still fine room =
    let grown = byte_count-append s.stdout (chunk ∷ []) in
    let one = byte_count-one chunk in
    let complete = h.complete in
    record {
      bounded = ground arith;
      complete = ground arith;
      limited = h.limited;
      escalates = h.escalates;
      pending = h.pending;
      ended = h.ended;
    }
push-IsSafe err chunk s h still fine room =
    let grown = byte_count-append s.stderr (chunk ∷ []) in
    let one = byte_count-one chunk in
    let complete = h.complete in
    record {
      bounded = ground arith;
      complete = ground arith;
      limited = h.limited;
      escalates = h.escalates;
      pending = h.pending;
      ended = h.ended;
    }

-- The output that goes over the limit.
limit-IsSafe :
    (total : ℕ) (s : Child)
    → IsSafe s
    → s.closed ≡ false
    → IsSafe (
        kill sigkill (
          clear_termination_timer
            (record s { total_bytes = total; terminal_error = some output_limit })))
unfolding kill clear_termination_timer was_killed was_terminated
limit-IsSafe total s h still = record {
  bounded = h.bounded;
  complete = inr (refl, refl);
  limited = λ e. refl;
  escalates = λ e e'. ((h.escalates e e').0, inr refl);
  pending = h.pending;
  ended = λ e. absurd (ground arith);
}

if-IsSafe :
    (b : Bool) (s t : Child)
    → (b ≡ true → IsSafe s)
    → (b ≡ false → IsSafe t)
    → IsSafe (if b then s else t)
if-IsSafe true s t h k = h refl
if-IsSafe false s t h k = k refl

takes-cases :
    (closed : Bool) (o : Option CommandError)
    → (closed || is_some o) ≡ false
    → (closed ≡ false) × (o ≡ none)
unfolding is_some
takes-cases false none e = (refl, refl)
takes-cases false (some error) e = absurd (ground arith)
takes-cases true o e = absurd (ground arith)

capture-IsSafe :
    (stream : Stream) (chunk : Bytes) (s : Child) → IsSafe s → IsSafe (capture stream chunk s)
unfolding capture
capture-IsSafe stream chunk s h =
    if-IsSafe (s.closed || is_some s.terminal_error) _ _ (λ off. h)
      (λ e.
        let (still, fine) = takes-cases s.closed s.terminal_error e in
        if-IsSafe (ltb max_output_bytes (s.total_bytes + length chunk)) _ _
          (λ over. limit-IsSafe (s.total_bytes + length chunk) s h still)
          (λ room. push-IsSafe stream chunk s h still fine (ground arith)))

or_source_unavailable-limit :
    (o : Option CommandError)
    → (or_source_unavailable o ≡ some output_limit) ↔ (o ≡ some output_limit)
unfolding or_source_unavailable
or_source_unavailable-limit none = (λ e. cc, λ e. cc)
or_source_unavailable-limit (some error) = (λ e. e, λ e. e)

on_error-IsSafe : (s : Child) → IsSafe s → IsSafe (on_error s)
unfolding on_error
on_error-IsSafe s h =
    let same = or_source_unavailable-limit s.terminal_error in
    record {
      bounded = h.bounded;
      complete = elim h.complete [ inl all ↦ inl all | inr (e, killed) ↦ inr (same.1 e, killed) ];
      limited = λ e. h.limited (same.0 e);
      escalates = h.escalates;
      pending = h.pending;
      ended = h.ended;
    }

on_close-IsSafe :
    (utf8_text : Bytes → Text) (code : Option ℕ) (finished_ms : ℕ) (s : Child)
    → IsSafe s
    → IsSafe (on_close utf8_text code finished_ms s)
unfolding on_close
on_close-IsSafe utf8_text code finished_ms s h = elim (Bool-cases s.closed) [
  | inl closed ↦ simp closed h
  | inr still ↦
      rw (still, on_close)
        (record {
          bounded = h.bounded;
          complete = h.complete;
          limited = h.limited;
          escalates = λ e e'. absurd (ground arith);
          pending = λ e. absurd (ground arith);
          ended = λ e. let empty = h.pending still in (refl, refl, ground arith);
        })
]

step-IsSafe :
    (utf8_text : Bytes → Text) (e : Event) (s : Child) → IsSafe s → IsSafe (step utf8_text e s)
unfolding step
step-IsSafe utf8_text (data_on stream chunk) s h = capture-IsSafe stream chunk s h
step-IsSafe utf8_text errs s h = on_error-IsSafe s h
step-IsSafe utf8_text aborts s h = on_abort-IsSafe s h
step-IsSafe utf8_text fires s h = on_timer-IsSafe s h
step-IsSafe utf8_text (closes code finished_ms) s h = on_close-IsSafe utf8_text code finished_ms s h

run-kept :
    (utf8_text : Bytes → Text) (es : List Event) (s : Child)
    → IsSafe s
    → IsSafe (run utf8_text es s)
unfolding run
run-kept utf8_text [] s h = h
run-kept utf8_text (e ∷ es) s h =
    run-kept utf8_text es (step utf8_text e s) (step-IsSafe utf8_text e s h)

started-IsSafe :
    (id : CommandId) (started_ms : ℕ) (aborted : Bool) → IsSafe (started id started_ms aborted)
unfolding started request_termination kill byte_count was_terminated
started-IsSafe id started_ms false = record {
  bounded = omega arith;
  complete = inl (omega arith);
  limited = λ e. absurd (ground arith);
  escalates = λ e. absurd (ground arith);
  pending = λ e. refl;
  ended = λ e. absurd (ground arith);
}
started-IsSafe id started_ms true = record {
  bounded = omega arith;
  complete = inl (omega arith);
  limited = λ e. absurd (ground arith);
  escalates = λ e e'. (refl, inl refl);
  pending = λ e. refl;
  ended = λ e. absurd (ground arith);
}

-- Whatever happens to a command's process, in any order, from its start on: the kept output is at
-- most 16384 bytes in all. As long as no error is noted, it is exactly the chunks that came on each
-- stream before the process closed, in their order. The error of the limit is noted only if more
-- than 16384 bytes came, and then SIGKILL was sent. Once the signal is aborted, a process that has
-- not closed was sent SIGTERM, and either the timer of its SIGKILL runs or SIGKILL was sent. The
-- promise is pending until the process closes, and settled once from then on, with no timer and no
-- listener left.
pub run-IsSafe :
    (utf8_text : Bytes → Text) (es : List Event) (id : CommandId) (started_ms : ℕ) (aborted : Bool)
    → let s = run utf8_text es (started id started_ms aborted) in IsSafe s × IsComplete es s
run-IsSafe utf8_text es id started_ms aborted = (
  run-kept utf8_text es (started id started_ms aborted) (started-IsSafe id started_ms aborted),
  run-IsComplete utf8_text es id started_ms aborted,
)
