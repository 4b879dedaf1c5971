-- ===== src/Quick/Child/Kept.antt =====
-- The output that a command's process has sent against the output that is kept.
use dashboard_rpi.Common.{
  ℕ, ◌+◌, ◌<◌, ◌≡◌, refl, sym, ap, ◌∙◌, Bool, true, false, none, some, List, [], ◌∷◌, ◌++◌, ltb,
  length, Text, arith, Bool-cases, inl, inr,
}
use mathlib.Core.List.{append_assoc, append-nil}
use dashboard_rpi.Terminal.Platform.{Bytes}
use dashboard_rpi.Quick.Child.Captured.{capture-fits}
use dashboard_rpi.Quick.Child.Frame.{
  Same, on_abort-Same, on_timer-Same, closes-Ended, run-error, run-none,
}
use dashboard_rpi.Quick.Child.Invariant.{byte_count}
use dashboard_rpi.Quick.Command.{max_output_bytes, CommandId}
use dashboard_rpi.Quick.Child.{
  output_limit, source_unavailable, Child, kill, clear_termination_timer, Stream, out, err, push,
  is_some, capture, or_source_unavailable, on_error, on_abort, on_timer, request_termination, Event,
  data_on, errs, aborts, fires, closes, step, run, started,
}

-- The chunks that come on a stream before the process closes.
unfoldable pub arrivals : Stream → List Event → List Bytes
arrivals stream [] = []
arrivals out (data_on out chunk ∷ es) = chunk ∷ arrivals out es
arrivals out (data_on err chunk ∷ es) = arrivals out es
arrivals err (data_on out chunk ∷ es) = arrivals err es
arrivals err (data_on err chunk ∷ es) = chunk ∷ arrivals err es
arrivals stream (errs ∷ es) = arrivals stream es
arrivals stream (aborts ∷ es) = arrivals stream es
arrivals stream (fires ∷ es) = arrivals stream es
arrivals stream (closes code finished_ms ∷ es) = []

abbrev add : Stream → Bytes → Child → Child
add stream chunk s = push stream chunk (record s { total_bytes = s.total_bytes + length chunk })

-- A chunk that does not end the process is kept.
capture-none :
    (stream : Stream) (chunk : Bytes) (s : Child)
    → s.closed ≡ false
    → (capture stream chunk s).terminal_error ≡ none
    → capture stream chunk s ≡ add stream chunk s
unfolding capture is_some kill clear_termination_timer
capture-none stream chunk s still e = ground arith

module _ (utf8_text : Bytes → Text) where
  -- A run without an error has kept what arrived.
  abbrev Keeps : List Event → Child → Child → Type 0
  Keeps es s t =
      t.terminal_error ≡ none
      → (t.stdout ≡ s.stdout ++ arrivals out es) × (t.stderr ≡ s.stderr ++ arrivals err es)

  Keeps-Same : (es : List Event) (s s' t : Child) → Same s s' → Keeps es s' t → Keeps es s t
  Keeps-Same es s s' t same h e = (rw (← same.stdout) (h e).0, rw (← same.stderr) (h e).1)

  pub run-Keeps : (es : List Event) (s : Child) → s.closed ≡ false → Keeps es s (run utf8_text es s)
  unfolding run arrivals step push
  run-Keeps [] s still e = (sym (append-nil s.stdout), sym (append-nil s.stderr))
  run-Keeps (data_on out chunk ∷ es) s still e =
      let kept = capture-none out chunk s still (run-none utf8_text es (capture out chunk s) e) in
      let (o, d) =
        run-Keeps es (add out chunk s) still
          (ap (λ x. (run utf8_text es x).terminal_error) (sym kept) ∙ e) in
      (
        ap (λ x. (run utf8_text es x).stdout) kept
            ∙ o
            ∙ append_assoc s.stdout (chunk ∷ []) (arrivals out es),
        ap (λ x. (run utf8_text es x).stderr) kept ∙ d,
      )
  run-Keeps (data_on err chunk ∷ es) s still e =
      let kept = capture-none err chunk s still (run-none utf8_text es (capture err chunk s) e) in
      let (o, d) =
        run-Keeps es (add err chunk s) still
          (ap (λ x. (run utf8_text es x).terminal_error) (sym kept) ∙ e) in
      (
        ap (λ x. (run utf8_text es x).stdout) kept ∙ o,
        ap (λ x. (run utf8_text es x).stderr) kept
            ∙ d
            ∙ append_assoc s.stderr (chunk ∷ []) (arrivals err es),
      )
  run-Keeps (errs ∷ es) s still e =
      let fine = run-none utf8_text es (on_error s) e in
      absurd (unfold on_error or_source_unavailable in ground arith)
  run-Keeps (aborts ∷ es) s still e =
      let same = on_abort-Same s in
      Keeps-Same es s (on_abort s) (run utf8_text es (on_abort s)) same
        (run-Keeps es (on_abort s) (same.closed ∙ still)) e
  run-Keeps (fires ∷ es) s still e =
      let same = on_timer-Same s in
      Keeps-Same es s (on_timer s) (run utf8_text es (on_timer s)) same
        (run-Keeps es (on_timer s) (same.closed ∙ still)) e
  run-Keeps (closes code finished_ms ∷ es) s still e =
      let end = closes-Ended utf8_text code finished_ms es s in
      (end.stdout ∙ sym (append-nil s.stdout), end.stderr ∙ sym (append-nil s.stderr))

  -- The limit is noted for no other reason than that more arrived.
  pub run-limit :
      (es : List Event) (s : Child)
      → s.closed ≡ false
      → s.terminal_error ≡ none
      → (run utf8_text es s).terminal_error ≡ some output_limit
      → max_output_bytes
        < s.total_bytes + (byte_count (arrivals out es) + byte_count (arrivals err es))
  unfolding run arrivals step byte_count push
  run-limit [] s still fine e = absurd (ground arith)
  run-limit (data_on out chunk ∷ es) s still fine e =
      elim (Bool-cases (ltb max_output_bytes (s.total_bytes + length chunk))) [
        | inl over ↦ ground arith
        | inr room ↦
            let kept = capture-fits out chunk s still fine (ground arith) in
            let later =
              run-limit es (add out chunk s) still fine
                (ap (λ x. (run utf8_text es x).terminal_error) (sym kept) ∙ e) in
            omega (arith, later)
      ]
  run-limit (data_on err chunk ∷ es) s still fine e =
      elim (Bool-cases (ltb max_output_bytes (s.total_bytes + length chunk))) [
        | inl over ↦ ground arith
        | inr room ↦
            let kept = capture-fits err chunk s still fine (ground arith) in
            let later =
              run-limit es (add err chunk s) still fine
                (ap (λ x. (run utf8_text es x).terminal_error) (sym kept) ∙ e) in
            omega (arith, later)
      ]
  run-limit (errs ∷ es) s still fine e =
      let noted =
        run-error utf8_text es (on_error s) source_unavailable
          (unfold on_error or_source_unavailable in ground arith) in
      absurd (ground arith)
  run-limit (aborts ∷ es) s still fine e =
      let same = on_abort-Same s in
      rw (← same.total_bytes)
        (run-limit es (on_abort s) (same.closed ∙ still) (same.terminal_error ∙ fine) e)
  run-limit (fires ∷ es) s still fine e =
      let same = on_timer-Same s in
      rw (← same.total_bytes)
        (run-limit es (on_timer s) (same.closed ∙ still) (same.terminal_error ∙ fine) e)
  run-limit (closes code finished_ms ∷ es) s still fine e =
      let noted = (closes-Ended utf8_text code finished_ms es s).unlimited e in
      absurd (ground arith)

-- The output kept by `s` is the output that came in the events: all of it if no error is noted, and
-- the error of the limit is noted only if more than the limit came.
pub record IsComplete (es : List Event) (s : Child) : Type 0 where
  pub stdout_kept : s.terminal_error ≡ none → s.stdout ≡ arrivals out es
  pub stderr_kept : s.terminal_error ≡ none → s.stderr ≡ arrivals err es
  pub over_limit :
      s.terminal_error ≡ some output_limit
      → max_output_bytes < byte_count (arrivals out es) + byte_count (arrivals err es)

pub run-IsComplete :
    (utf8_text : Bytes → Text) (es : List Event) (id : CommandId) (started_ms : ℕ) (aborted : Bool)
    → IsComplete es (run utf8_text es (started id started_ms aborted))
unfolding started request_termination kill
run-IsComplete utf8_text es id started_ms false =
    let s = started id started_ms false in
    record {
      stdout_kept = λ e. (run-Keeps utf8_text es s refl e).0;
      stderr_kept = λ e. (run-Keeps utf8_text es s refl e).1;
      over_limit = λ e. let passed = run-limit utf8_text es s refl refl e in omega (arith, passed);
    }
run-IsComplete utf8_text es id started_ms true =
    let s = started id started_ms true in
    record {
      stdout_kept = λ e. (run-Keeps utf8_text es s refl e).0;
      stderr_kept = λ e. (run-Keeps utf8_text es s refl e).1;
      over_limit = λ e. let passed = run-limit utf8_text es s refl refl e in omega (arith, passed);
    }
