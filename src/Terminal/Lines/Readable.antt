-- ===== src/Terminal/Lines/Readable.antt =====
-- The frames that a stream of lines has before its first bad line.
use dashboard_rpi.Common.{
  ℕ, ◌≡◌, refl, ap, ◌||◌, not, false, Option, none, some, List, [], ◌∷◌, ◌++◌, ◌==◌, ltb,
  if◌then◌else◌, length, arith, Bool-cases, inl, inr,
}
use dashboard_rpi.Terminal.Platform.{Bytes}
use dashboard_rpi.Terminal.Lines.{with_frame, close_line, scan}

module _ {F : Type 0} (max : ℕ) (parse : Bytes → Option F) where
  -- A frame in front of the later ones, or the end at a line that does not parse.
  unfoldable pub before : Option F → List F → List F
  before none later = []
  before (some frame) later = frame ∷ later

  -- The frames of the complete lines, up to a line that is empty, too long or does not parse.
  unfoldable pub readable : Bytes → Bytes → List F
  unfolding before
  readable line [] = []
  readable line (b ∷ bytes) =
      let later = readable [] bytes in
      let longer = readable (line ++ b ∷ []) bytes in
      if not (b == b'\n')
      then longer
      else if length line == 0 || ltb max (length line)
      then []
      else before (parse line) later

  with_frame-frame :
      (f : Option F) (o : Option (List F × Bytes)) {frames : List F} {l : Bytes}
      → with_frame max parse f o ≡ some (frames, l)
      → (frame : F) × (more : List F) × (f ≡ some frame)
        × (o ≡ some (more, l))
        × (frames ≡ frame ∷ more)
  unfolding with_frame
  with_frame-frame none o e = absurd (ground arith)
  with_frame-frame (some frame) none e = absurd (ground arith)
  with_frame-frame (some frame) (some (more, l')) e =
      (frame, more, refl, ground arith, ground arith)

  -- A line that closes well puts its frame in front.
  close_line-frame :
      (line : Bytes) (o : Option (List F × Bytes)) {frames : List F} {l : Bytes}
      → close_line max parse line o ≡ some (frames, l)
      → ((length line == 0 || ltb max (length line)) ≡ false)
        × (with_frame max parse (parse line) o ≡ some (frames, l))
  unfolding close_line
  close_line-frame line o e = (ground arith, ground arith)

  pub readable-append :
      (line a b : Bytes) {frames : List F} {l : Bytes}
      → scan max parse line a ≡ some (frames, l)
      → readable line (a ++ b) ≡ frames ++ readable l b
  unfolding scan readable before
  readable-append line [] b {frames} {l} e =
      let nothing : [] ≡ frames = ground arith in
      let same : line ≡ l = ground arith in rw (← nothing, ← same) refl
  readable-append line (c ∷ a) b {frames} {l} e = elim (Bool-cases (c == b'\n')) [
    | inl newline ↦
        let (whole, closed) = close_line-frame line (scan max parse [] a) (rw newline at e) in
        let (frame, more, parses, rest, front) =
          with_frame-frame (parse line) (scan max parse [] a) closed in
        rw (newline, whole, parses, front)
          (ap (λ xs. frame ∷ xs) (readable-append [] a b {frames = more} {l = l} rest))
    | inr other ↦ rw other (readable-append (line ++ c ∷ []) a b (rw other at e))
  ]
