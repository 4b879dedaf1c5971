-- ===== src/Quick/Child/Frame.antt =====
-- What the events of a command's process leave alone: its output, its errors, and its end.
use dashboard_rpi.Common.{
  ℕ, ◌≡◌, refl, ◌∙◌, true, Option, none, some, List, [], ◌∷◌, Text, arith, Option-cases, inl, inr,
}
use dashboard_rpi.Terminal.Platform.{Bytes}
use dashboard_rpi.Quick.Child.{
  CommandError, output_limit, Child, kill, is_some, capture, or_source_unavailable, on_error,
  on_close, on_abort, on_timer, request_termination, Event, data_on, errs, aborts, fires, closes,
  step, run,
}

-- What an abort or the timer leaves alone.
pub record Same (s t : Child) : Type 0 where
  pub stdout : t.stdout ≡ s.stdout
  pub stderr : t.stderr ≡ s.stderr
  pub total_bytes : t.total_bytes ≡ s.total_bytes
  pub closed : t.closed ≡ s.closed
  pub terminal_error : t.terminal_error ≡ s.terminal_error

pub on_abort-Same : (s : Child) → Same s (on_abort s)
unfolding on_abort request_termination kill
on_abort-Same s = ground arith

pub on_timer-Same : (s : Child) → Same s (on_timer s)
unfolding on_timer kill
on_timer-Same s = ground arith

-- An error that is noted stays.
step-error :
    (utf8_text : Bytes → Text) (e : Event) (s : Child) (error : CommandError)
    → s.terminal_error ≡ some error
    → (step utf8_text e s).terminal_error ≡ some error
unfolding step
step-error utf8_text (data_on stream chunk) s error h = unfold capture is_some in ground arith
step-error utf8_text errs s error h = unfold on_error or_source_unavailable in ground arith
step-error utf8_text aborts s error h = (on_abort-Same s).terminal_error ∙ h
step-error utf8_text fires s error h = (on_timer-Same s).terminal_error ∙ h
step-error utf8_text (closes code finished_ms) s error h = unfold on_close in ground arith

pub run-error :
    (utf8_text : Bytes → Text) (es : List Event) (s : Child) (error : CommandError)
    → s.terminal_error ≡ some error
    → (run utf8_text es s).terminal_error ≡ some error
unfolding run
run-error utf8_text [] s error h = h
run-error utf8_text (e ∷ es) s error h =
    run-error utf8_text es (step utf8_text e s) error (step-error utf8_text e s error h)

-- Nothing is kept of what comes after the close.
pub record Ended (s t : Child) : Type 0 where
  pub stdout : t.stdout ≡ s.stdout
  pub stderr : t.stderr ≡ s.stderr
  pub closed : t.closed ≡ true
  pub unlimited : t.terminal_error ≡ some output_limit → s.terminal_error ≡ some output_limit

step-Ended :
    (utf8_text : Bytes → Text) (e : Event) (s : Child)
    → s.closed ≡ true
    → Ended s (step utf8_text e s)
unfolding step
step-Ended utf8_text (data_on stream chunk) s h = unfold capture in ground arith
step-Ended utf8_text errs s h = record {
  stdout = refl;
  stderr = refl;
  closed = h;
  unlimited = unfold on_error or_source_unavailable in ground arith;
}
step-Ended utf8_text aborts s h = ground (arith, on_abort-Same s)
step-Ended utf8_text fires s h = ground (arith, on_timer-Same s)
step-Ended utf8_text (closes code finished_ms) s h = unfold on_close in ground arith

run-Ended :
    (utf8_text : Bytes → Text) (es : List Event) (s : Child)
    → s.closed ≡ true
    → Ended s (run utf8_text es s)
unfolding run
run-Ended utf8_text [] s h = record { stdout = refl; stderr = refl; closed = h; unlimited = λ e. e }
run-Ended utf8_text (e ∷ es) s h =
    let first = step-Ended utf8_text e s h in
    let later = run-Ended utf8_text es (step utf8_text e s) first.closed in
    record {
      stdout = later.stdout ∙ first.stdout;
      stderr = later.stderr ∙ first.stderr;
      closed = later.closed;
      unlimited = λ e'. first.unlimited (later.unlimited e');
    }

-- The close itself.
on_close-Ended :
    (utf8_text : Bytes → Text) (code : Option ℕ) (finished_ms : ℕ) (s : Child)
    → Ended s (on_close utf8_text code finished_ms s)
unfolding on_close
on_close-Ended utf8_text code finished_ms s = ground arith

pub closes-Ended :
    (utf8_text : Bytes → Text) (code : Option ℕ) (finished_ms : ℕ) (es : List Event) (s : Child)
    → Ended s (run utf8_text es (on_close utf8_text code finished_ms s))
closes-Ended utf8_text code finished_ms es s =
    let first = on_close-Ended utf8_text code finished_ms s in
    let later = run-Ended utf8_text es (on_close utf8_text code finished_ms s) first.closed in
    record {
      stdout = later.stdout ∙ first.stdout;
      stderr = later.stderr ∙ first.stderr;
      closed = later.closed;
      unlimited = λ e'. first.unlimited (later.unlimited e');
    }

pub run-none :
    (utf8_text : Bytes → Text) (es : List Event) (s : Child)
    → (run utf8_text es s).terminal_error ≡ none
    → s.terminal_error ≡ none
run-none utf8_text es s e = elim (Option-cases s.terminal_error) [
  | inl fine ↦ fine
  | inr (error, noted) ↦
      let end : (run utf8_text es s).terminal_error ≡ some error =
        run-error utf8_text es s error noted in
      absurd (ground arith)
]
