-- ===== src/Terminal/Wire/Holding.antt =====
-- How many bytes the server's line decoder holds, throws included.
use dashboard_rpi.Common.{
  ℕ, ◌+◌, ◌≤◌, ◌≡◌, refl, Option, none, some, List, [], ◌∷◌, ◌++◌, ◌==◌, length, length-append,
  arith, Bool-cases, inl, inr,
}
use dashboard_rpi.Terminal.Platform.{Platform, Bytes}
use dashboard_rpi.Terminal.Lines.{scan, settle}
use dashboard_rpi.Terminal.Lines.Scanning.{close_line-some}
use dashboard_rpi.Terminal.Wire.{
  push_server, parse_terminal_local_server_frame, server_frame_max_bytes, read_event_max_bytes,
}

module _ {F : Type 0} (max : ℕ) (parse : Bytes → Option F) where
  scan-length :
      (line bytes : Bytes) (frames : List F) (l : Bytes)
      → scan max parse line bytes ≡ some (frames, l)
      → length l ≤ length line + length bytes
  unfolding scan
  scan-length line [] frames l e = let same : line ≡ l = ground arith in rw (← same) (omega arith)
  scan-length line (c ∷ bytes) frames l e = elim (Bool-cases (c == b'\n')) [
    | inl newline ↦
        let (more, rest, fits) =
          close_line-some max parse line (scan max parse [] bytes) {frames = frames} {l = l}
            (rw newline at e) in
        let shorter = scan-length [] bytes more l rest in omega arith
    | inr other ↦
        let longer = scan-length (line ++ c ∷ []) bytes frames l (rw other at e) in
        let size = length-append line (c ∷ []) in omega arith
  ]

  settle-length :
      (pending bytes : Bytes) (o : Option (List F × Bytes))
      → scan max parse [] bytes ≡ o
      → length pending ≤ length bytes
      → length (settle max parse pending o).0 ≤ length bytes
  unfolding settle
  settle-length pending bytes none e h = h
  settle-length pending bytes (some (frames, l)) e h =
      let size = scan-length [] bytes frames l e in ground arith

-- The most that the decoder can hold: 96 KiB.
abbrev pub held_max_bytes : ℕ
held_max_bytes = read_event_max_bytes + server_frame_max_bytes

push_server-length :
    (p : Platform) (pending chunk : Bytes)
    → length pending ≤ held_max_bytes
    → length (push_server p pending chunk).0 ≤ held_max_bytes
unfolding push_server
push_server-length p pending chunk h =
    let grown = length-append pending chunk in
    let size =
      settle-length server_frame_max_bytes (parse_terminal_local_server_frame p) pending
        (pending ++ chunk) _ refl (omega arith) in
    ground arith

-- The pending bytes after the chunks, where a throw does not keep the caller from going on.
unfoldable pub held : Platform → Bytes → List Bytes → Bytes
held p pending [] = pending
held p pending (chunk ∷ chunks) = held p (push_server p pending chunk).0 chunks

held-bounded :
    (p : Platform) (pending : Bytes) (chunks : List Bytes)
    → length pending ≤ held_max_bytes
    → length (held p pending chunks) ≤ held_max_bytes
unfolding held
held-bounded p pending [] h = h
held-bounded p pending (chunk ∷ chunks) h =
    held-bounded p (push_server p pending chunk).0 chunks (push_server-length p pending chunk h)

-- Whatever chunks a new decoder is given, and however often it has thrown in between, it never
-- holds more than 96 KiB of pending bytes.
pub held-length : (p : Platform) (chunks : List Bytes) → length (held p [] chunks) ≤ held_max_bytes
held-length p chunks = held-bounded p [] chunks (omega arith)
