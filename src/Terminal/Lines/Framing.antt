-- ===== src/Terminal/Lines/Framing.antt =====
-- The line decoders on lines that were written one after the other.
use dashboard_rpi.Common.{
  ℕ, ◌≤◌, ◌≡◌, refl, ap, ◌∙◌, Option, some, List, [], ◌∷◌, ◌++◌, length, arith,
}
use mathlib.Core.List.{append_assoc, append-nil}
use dashboard_rpi.Terminal.Platform.{Bytes}
use dashboard_rpi.Terminal.Lines.{with_frame, close_line, scan, settle, push}
use dashboard_rpi.Terminal.Lines.Scanning.{NoNewline}

module _ {F : Type 0} (max : ℕ) (parse : Bytes → Option F) where
  -- A line that the decoder turns into the frame: no newline, at least one byte, within the limit,
  -- and it parses.
  pub record IsLine (line : Bytes) (frame : F) : Type 0 where
    pub whole : NoNewline line
    pub some_bytes : 1 ≤ length line
    pub bounded : length line ≤ max
    pub parses : parse line ≡ some frame

  abbrev pub AreLines : List (Bytes × F) → Type 0
  AreLines [] = Unit
  AreLines ((line, frame) ∷ rest) = IsLine line frame × AreLines rest

  abbrev pub written : List (Bytes × F) → Bytes
  written [] = []
  written ((line, frame) ∷ rest) = line ++ (b'\n' ∷ written rest)

  abbrev pub frames_of : List (Bytes × F) → List F
  frames_of [] = []
  frames_of ((line, frame) ∷ rest) = frame ∷ frames_of rest

  scan-written_line :
      (start line bytes : Bytes)
      → NoNewline line
      → scan max parse start (line ++ (b'\n' ∷ bytes))
        ≡ close_line max parse (start ++ line) (scan max parse [] bytes)
  unfolding scan
  scan-written_line start [] bytes h = rw append-nil
  scan-written_line start (c ∷ line) bytes h = rw h.0 (
      scan-written_line (start ++ c ∷ []) line bytes h.1
      ∙ ap (λ l. close_line max parse l (scan max parse [] bytes))
          (append_assoc start (c ∷ []) line))

  close_line-IsLine :
      (line : Bytes) (frame : F) (rest : Option (List F × Bytes)) {frames : List F}
      → IsLine line frame
      → rest ≡ some (frames, [])
      → close_line max parse line rest ≡ some (frame ∷ frames, [])
  unfolding close_line with_frame
  close_line-IsLine line frame rest l e =
      let size = l.some_bytes in let bounded = l.bounded in let p = l.parses in ground arith

  scan-written :
      (lines : List (Bytes × F))
      → AreLines lines
      → scan max parse [] (written lines) ≡ some (frames_of lines, [])
  scan-written [] h = unfold scan in refl
  scan-written ((line, frame) ∷ rest) h =
      scan-written_line [] line (written rest) h.0.whole
      ∙ close_line-IsLine line frame _ h.0 (scan-written rest h.1)

  -- A decoder at rest, with no pending bytes, is sent in one chunk any lines that have no newline of
  -- their own, are not empty and not longer than the limit, and parse, each ended by a newline: it
  -- returns their frames in order and is at rest again. `push` here is the loop that the decoders
  -- share, without the server's limit on the chunk.
  pub push-written :
      (lines : List (Bytes × F))
      → AreLines lines
      → push max parse [] (written lines) ≡ ([], some (frames_of lines))
  unfolding push settle
  push-written [] h = refl
  push-written ((line, frame) ∷ rest) h = ground (arith, scan-written ((line, frame) ∷ rest) h)
