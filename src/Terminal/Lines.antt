-- ===== src/Terminal/Lines.antt =====
-- The loop that both line decoders share, `TerminalLocalLineDecoder.push` of
-- apps/terminal-agent/src/local-protocol.ts and `TerminalLocalServerLineDecoder.push` of
-- apps/server/src/terminal-local-wire.ts: the bytes since `start`, and the bytes to come.
pub mod Scanning
pub mod Readable
pub mod Chunking
pub mod Framing
use dashboard_rpi.Common.{
  ℕ, Bool, ◌||◌, Option, none, some, List, [], ◌∷◌, ◌++◌, ◌==◌, ltb, if◌then◌else◌, length,
  is_empty,
}
use dashboard_rpi.Terminal.Platform.{Bytes}

module _ {F : Type 0} (max : ℕ) (parse : Bytes → Option F) where
  -- Puts a frame in front of the frames of the rest; `none` is a throw.
  unfoldable pub with_frame : Option F → Option (List F × Bytes) → Option (List F × Bytes)
  with_frame none rest = none
  with_frame (some frame) none = none
  with_frame (some frame) (some (frames, line)) = some (frame ∷ frames, line)

  unfoldable pub close_line : Bytes → Option (List F × Bytes) → Option (List F × Bytes)
  unfolding with_frame
  close_line line rest =
      if length line == 0 || ltb max (length line) then none else with_frame (parse line) rest

  -- The frames of the complete lines, and the line under way at the end.
  unfoldable pub scan : Bytes → Bytes → Option (List F × Bytes)
  unfolding close_line
  scan line [] = some ([], line)
  scan line (b ∷ bytes) =
      let closed = close_line line (scan [] bytes) in
      let longer = scan (line ++ b ∷ []) bytes in if b == b'\n' then closed else longer

  unfoldable pub settle : Bytes → Option (List F × Bytes) → Bytes × Option (List F)
  settle pending none = (pending, none)
  settle pending (some (frames, line)) =
      if ltb max (length line) then (line, none) else (line, some frames)

  -- `push` without a limit on the chunk: the new pending bytes, and the frames or a throw.
  unfoldable pub push : Bytes → Bytes → Bytes × Option (List F)
  unfolding scan settle
  push pending chunk =
      if is_empty chunk then (pending, some []) else settle pending (scan [] (pending ++ chunk))
