-- ===== src/Terminal/Lines/Scanning.antt =====
-- The loop of the line decoders on bytes that are cut in two, and its limit on the line under way.
use dashboard_rpi.Common.{
  ℕ, ◌≤◌, ◌<◌, ◌≡◌, refl, sym, ap, ◌∙◌, false, Option, none, some, List, [], ◌∷◌, ◌++◌, ◌==◌, ltb,
  if◌then◌else◌, length, All, All-append, length-append, arith, Bool-cases, inl, inr,
}
use mathlib.Core.List.{append_assoc, append-nil}
use dashboard_rpi.Terminal.Platform.{Bytes}
use dashboard_rpi.Terminal.Lines.{with_frame, close_line, scan}

-- A line under way: no newline.
abbrev pub NoNewline : Bytes → Type 0
NoNewline = All (λ b. (b == b'\n') ≡ false)

-- Frames of a first part in front of the outcome of the rest, of one chunk.
unfoldable pub after : {F : Type 0} → List F → Option (List F × Bytes) → Option (List F × Bytes)
after frames none = none
after frames (some (more, line)) = some (frames ++ more, line)

module _ {F : Type 0} (max : ℕ) (parse : Bytes → Option F) where
  unfoldable pub continue : Option (List F × Bytes) → Bytes → Option (List F × Bytes)
  unfolding after
  continue none bytes = none
  continue (some (frames, line)) bytes = after frames (scan max parse line bytes)

  unfoldable pub limit : Option (List F × Bytes) → Option (List F × Bytes)
  limit none = none
  limit (some (frames, line)) = if ltb max (length line) then none else some (frames, line)

  pub with_frame-after :
      (f : Option F) (frames : List F) (o : Option (List F × Bytes))
      → with_frame max parse f (after frames o)
        ≡ elim f [ none ↦ none | some frame ↦ after (frame ∷ frames) o ]
  unfolding with_frame after
  with_frame-after none frames none = refl
  with_frame-after none frames (some _) = refl
  with_frame-after (some frame) frames none = refl
  with_frame-after (some frame) frames (some _) = refl

  pub close_line-continue :
      (line : Bytes) (o : Option (List F × Bytes)) (b : Bytes)
      → close_line max parse line (continue o b) ≡ continue (close_line max parse line o) b
  unfolding close_line continue with_frame
  close_line-continue line none b = ground arith
  close_line-continue line (some (frames, l)) b =
      ground (arith, with_frame-after (parse line) frames (scan max parse l b))

  pub after-nil : (o : Option (List F × Bytes)) → after [] o ≡ o
  unfolding after
  after-nil none = refl
  after-nil (some _) = refl

  pub scan-append :
      (line a b : Bytes) → scan max parse line (a ++ b) ≡ continue (scan max parse line a) b
  unfolding scan continue
  scan-append line [] b = sym (after-nil _)
  scan-append line (c ∷ a) b = elim (Bool-cases (c == b'\n')) [
    | inl newline ↦
        rw (newline, scan-append [] a b) (close_line-continue line (scan max parse [] a) b)
    | inr other ↦ rw other (scan-append (line ++ c ∷ []) a b)
  ]

  pub scan-line :
      (line pending bytes : Bytes)
      → NoNewline pending
      → scan max parse line (pending ++ bytes) ≡ scan max parse (line ++ pending) bytes
  unfolding scan
  scan-line line [] bytes h = rw append-nil
  scan-line line (c ∷ pending) bytes h = rw h.0 (
      scan-line (line ++ c ∷ []) pending bytes h.1
      ∙ ap (λ l. scan max parse l bytes) (append_assoc line (c ∷ []) pending))

  pub close_line-some :
      (line : Bytes) (o : Option (List F × Bytes)) {frames : List F} {l : Bytes}
      → close_line max parse line o ≡ some (frames, l)
      → (more : List F) × (o ≡ some (more, l)) × (length line ≤ max)
  unfolding close_line with_frame
  close_line-some line none e = absurd (ground arith)
  close_line-some line (some (more, l')) e = (more, ground arith, ground arith)

  pub scan-NoNewline :
      (line bytes : Bytes) {frames : List F} {l : Bytes}
      → NoNewline line
      → scan max parse line bytes ≡ some (frames, l)
      → NoNewline l
  unfolding scan
  scan-NoNewline line [] {l} h e = let same : line ≡ l = ground arith in rw (← same) h
  scan-NoNewline line (c ∷ bytes) {l} h e = elim (Bool-cases (c == b'\n')) [
    | inl newline ↦
        let (more, e', _) = close_line-some line (scan max parse [] bytes) (rw newline at e) in
        scan-NoNewline [] bytes {frames = more} {l = l} tt e'
    | inr other ↦
        scan-NoNewline (line ++ c ∷ []) bytes {l = l} (All-append _ line _ h (other, tt))
          (rw other at e)
  ]

  pub scan-overlong :
      (line bytes : Bytes) → max < length line → limit (scan max parse line bytes) ≡ none
  unfolding scan limit close_line
  scan-overlong line [] h = ground arith
  scan-overlong line (c ∷ bytes) h =
      ground (arith, scan-overlong (line ++ c ∷ []) bytes, length-append line (c ∷ []))

  pub limit-after :
      (frames : List F) (o : Option (List F × Bytes))
      → limit (after frames o) ≡ after frames (limit o)
  unfolding limit after
  limit-after frames none = refl
  limit-after frames (some _) = ground arith

  pub limit-some :
      (o : Option (List F × Bytes)) {frames : List F} {line : Bytes}
      → limit o ≡ some (frames, line)
      → (o ≡ some (frames, line)) × (length line ≤ max)
  unfolding limit
  limit-some none e = absurd (ground arith)
  limit-some (some _) e = ground arith

  pub limit-continue :
      (o : Option (List F × Bytes)) (rest : Bytes) → limit o ≡ none → limit (continue o rest) ≡ none
  unfolding continue
  limit-continue none rest e = unfold limit in refl
  limit-continue (some (frames, line)) rest e =
      limit-after frames (scan max parse line rest)
      ∙ ap (after frames) (scan-overlong line rest (unfold limit in ground arith))
      ∙ unfold after in refl

  pub rest-scan :
      (frames : List F) (line rest : Bytes) {o : Option (List F × Bytes)}
      → o ≡ limit (scan max parse line rest)
      → after frames o ≡ limit (continue (some (frames, line)) rest)
  unfolding continue
  rest-scan frames line rest e = ap (after frames) e ∙ sym (limit-after frames _)
