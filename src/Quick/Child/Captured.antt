-- ===== src/Quick/Child/Captured.antt =====
-- What a command's promise comes to, where its output stays below the limit.
use dashboard_rpi.Common.{
  ℕ, zero, suc, ◌+◌, ◌≤◌, ◌≡◌, ◌↔◌, refl, sym, ap, ◌∙◌, false, Option, none, some, List, [], ◌∷◌,
  ◌++◌, ltb, length, All, Text, arith, Bool-cases, inl, inr,
}
use mathlib.Core.List.{append_assoc, append-nil, map, reverse, reverse_aux}
use dashboard_rpi.Owner.Strings.{drop_spaces, is_space}
use dashboard_rpi.Terminal.Platform.{Bytes}
use dashboard_rpi.Quick.Command.{
  max_output_bytes, CommandId, is_disallowed_control_code, sanitize_character, sanitize_output,
  concat, trim_end,
}
use dashboard_rpi.Quick.Child.{
  resolved, CommandResult, success, Child, push, capture, is_some, Stream, out, err, settlement_of,
  result_of, status_of, on_close, started, Event, data_on, closes, step, run,
}

abbrev pub Output : Type 0
Output = List (Stream × Bytes)

-- The chunks of each stream, in order.
unfoldable pub stdout_of : Output → List Bytes
stdout_of [] = []
stdout_of ((out, chunk) ∷ output) = chunk ∷ stdout_of output
stdout_of ((err, chunk) ∷ output) = stdout_of output

unfoldable pub stderr_of : Output → List Bytes
stderr_of [] = []
stderr_of ((out, chunk) ∷ output) = stderr_of output
stderr_of ((err, chunk) ∷ output) = chunk ∷ stderr_of output

unfoldable pub size_of : Output → ℕ
size_of [] = 0
size_of ((stream, chunk) ∷ output) = length chunk + size_of output

-- The events of a process that writes this output and then closes.
unfoldable pub writes : Output → Option ℕ → ℕ → List Event
writes [] code finished_ms = closes code finished_ms ∷ []
writes ((stream, chunk) ∷ output) code finished_ms =
    data_on stream chunk ∷ writes output code finished_ms

pub capture-fits :
    (stream : Stream) (chunk : Bytes) (s : Child)
    → s.closed ≡ false
    → s.terminal_error ≡ none
    → s.total_bytes + length chunk ≤ max_output_bytes
    → capture stream chunk s
      ≡ push stream chunk (record s { total_bytes = s.total_bytes + length chunk })
unfolding capture is_some
capture-fits stream chunk s still fine room =
    let fits : ltb max_output_bytes (s.total_bytes + length chunk) ≡ false = ground arith in
    simp (still, fine, fits)

settlement_of-none :
    (utf8_text : Bytes → Text) (code : Option ℕ) (finished_ms : ℕ) (s : Child)
    → s.terminal_error ≡ none
    → settlement_of utf8_text code finished_ms s ≡ resolved (result_of utf8_text code finished_ms s)
unfolding settlement_of
settlement_of-none utf8_text code finished_ms s fine = ground arith

on_close-settles :
    (utf8_text : Bytes → Text) (code : Option ℕ) (finished_ms : ℕ) (s : Child)
    → s.closed ≡ false
    → s.terminal_error ≡ none
    → s.settlements ≡ []
    → (on_close utf8_text code finished_ms s).settlements
      ≡ resolved (result_of utf8_text code finished_ms s) ∷ []
unfolding on_close
on_close-settles utf8_text code finished_ms s still fine empty =
    simp (still, empty, settlement_of-none utf8_text code finished_ms s fine)

-- The settlement that closes such a run, from any state that takes output.
run-settles :
    (utf8_text : Bytes → Text) (output : Output) (code : Option ℕ) (finished_ms : ℕ) (s : Child)
    → s.closed ≡ false
    → s.terminal_error ≡ none
    → s.settlements ≡ []
    → s.total_bytes + size_of output ≤ max_output_bytes
    → (run utf8_text (writes output code finished_ms) s).settlements
      ≡ resolved (
          result_of utf8_text code finished_ms (record s {
            stdout = s.stdout ++ stdout_of output;
            stderr = s.stderr ++ stderr_of output;
          }))
        ∷ []
unfolding run writes step stdout_of stderr_of size_of push result_of
run-settles utf8_text [] code finished_ms s still fine empty room =
    on_close-settles utf8_text code finished_ms s still fine empty
    ∙ ap (λ xs. resolved (result_of utf8_text code finished_ms (record s { stdout = xs })) ∷ [])
        (sym (append-nil s.stdout))
    ∙ ap
        (λ xs.
          resolved (
            result_of utf8_text code finished_ms
              (record s { stdout = s.stdout ++ []; stderr = xs }))
          ∷ [])
        (sym (append-nil s.stderr))
run-settles utf8_text ((out, chunk) ∷ output) code finished_ms s still fine empty room =
    let rest =
      run-settles utf8_text output code finished_ms
        (push out chunk (record s { total_bytes = s.total_bytes + length chunk })) still fine empty
        (omega arith) in
    ap (λ x. (run utf8_text (writes output code finished_ms) x).settlements)
      (capture-fits out chunk s still fine (omega arith))
    ∙ (rest
        ∙ ap
            (λ xs.
              resolved (
                result_of utf8_text code finished_ms
                  (record s { stdout = xs; stderr = s.stderr ++ stderr_of output }))
              ∷ [])
            (append_assoc s.stdout (chunk ∷ []) (stdout_of output)))
run-settles utf8_text ((err, chunk) ∷ output) code finished_ms s still fine empty room =
    let rest =
      run-settles utf8_text output code finished_ms
        (push err chunk (record s { total_bytes = s.total_bytes + length chunk })) still fine empty
        (omega arith) in
    ap (λ x. (run utf8_text (writes output code finished_ms) x).settlements)
      (capture-fits err chunk s still fine (omega arith))
    ∙ (rest
        ∙ ap
            (λ xs.
              resolved (
                result_of utf8_text code finished_ms
                  (record s { stdout = s.stdout ++ stdout_of output; stderr = xs }))
              ∷ [])
            (append_assoc s.stderr (chunk ∷ []) (stderr_of output)))

-- Every character of a cleaned text is allowed.
drop_spaces-All : (P : ℕ → Type 0) (t : Text) → All P t → All P (drop_spaces t)
unfolding drop_spaces
drop_spaces-All P [] h = h
drop_spaces-All P (c ∷ t) h = elim (Bool-cases (is_space c)) [
  | inl space ↦ rw space (drop_spaces-All P t h.1)
  | inr other ↦ rw other h
]

reverse_aux-All : (P : ℕ → Type 0) (s t : Text) → All P s → All P t → All P (reverse_aux s t)
reverse_aux-All P [] t h k = k
reverse_aux-All P (c ∷ s) t h k = reverse_aux-All P s (c ∷ t) h.1 (h.0, k)

reverse-All : (P : ℕ → Type 0) (t : Text) → All P t → All P (reverse t)
reverse-All P t h = reverse_aux-All P t [] h tt

sanitize_character-allowed : (c : ℕ) → is_disallowed_control_code (sanitize_character c) ≡ false
unfolding sanitize_character is_disallowed_control_code
sanitize_character-allowed c = ground arith

map-allowed :
    (t : Text) → All (λ c. is_disallowed_control_code c ≡ false) (map sanitize_character t)
map-allowed [] = tt
map-allowed (c ∷ t) = (sanitize_character-allowed c, map-allowed t)

abbrev pub Allowed : Text → Type 0
Allowed t = All (λ c. is_disallowed_control_code c ≡ false) t

sanitize_output-Allowed :
    (utf8_text : Bytes → Text) (chunks : List Bytes) → Allowed (sanitize_output utf8_text chunks)
unfolding sanitize_output trim_end
sanitize_output-Allowed utf8_text chunks =
    let P : ℕ → Type 0 = λ c. is_disallowed_control_code c ≡ false in
    let t = map sanitize_character (utf8_text (concat chunks)) in
    reverse-All P (drop_spaces (reverse t))
      (drop_spaces-All P (reverse t) (reverse-All P t (map-allowed (utf8_text (concat chunks)))))

status_of-success : (code : Option ℕ) → (status_of code ≡ success) ↔ (code ≡ some 0)
unfolding status_of
status_of-success none = (λ e. absurd (ground arith), λ e. absurd (ground arith))
status_of-success (some zero) = (λ e. refl, λ e. refl)
status_of-success (some (suc n)) = (λ e. absurd (ground arith), λ e. absurd (ground arith))

-- A command whose process writes at most 16384 bytes to its two streams, in any chunks and any
-- order, and then closes, resolves once: with all the chunks of each stream, in their order, decoded
-- and cleaned, with SUCCESS exactly for the exit code 0; and neither text has a control character
-- but tab, line feed and carriage return.
pub run-resolves :
    (utf8_text : Bytes → Text) (id : CommandId) (started_ms : ℕ) (output : Output) (code : Option ℕ)
    (finished_ms : ℕ)
    → size_of output ≤ max_output_bytes
    → (r : CommandResult) × ((run utf8_text
          (writes output code finished_ms)
          (started id started_ms false)).settlements
        ≡ resolved r ∷ [])
      × (r.stdout ≡ sanitize_output utf8_text (stdout_of output))
      × (r.stderr ≡ sanitize_output utf8_text (stderr_of output))
      × ((r.status ≡ success) ↔ (code ≡ some 0))
      × Allowed r.stdout
      × Allowed r.stderr
unfolding started result_of
run-resolves utf8_text id started_ms output code finished_ms room =
    let s = started id started_ms false in
    let settles = run-settles utf8_text output code finished_ms s refl refl refl (omega arith) in
    (
      result_of utf8_text code finished_ms
          (record s { stdout = stdout_of output; stderr = stderr_of output }),
      settles,
      refl,
      refl,
      status_of-success code,
      sanitize_output-Allowed utf8_text (stdout_of output),
      sanitize_output-Allowed utf8_text (stderr_of output),
    )
