-- ===== src/Terminal/Agent/Output.antt =====
-- The agent's splitter of terminal output, splitTerminalLocalOutput, and its specification.
use dashboard_rpi.Common.{
  false, ℕ, ◌+◌, ◌<◌, ◌≤◌, ◌≡◌, refl, sym, ◌∙◌, not, ◌&&◌, some, none, List, [], ◌∷◌, ◌++◌, ltb,
  is_empty, Text, utf8_width, byte_length, byte_length-append, arith, Bool-cases, inl, inr, ◌⊎◌,
}
use mathlib.Core.List.{append_assoc, append-nil}
use dashboard_rpi.Terminal.Chunks.{greedy, IsSplit, greedy-IsSplit, utf8_width-le}
use dashboard_rpi.Terminal.Agent.Protocol.{
  split_loop, split_terminal_local_output, max_output_chunk_bytes, max_output_event_bytes,
}

-- Counting bytes tells an empty text from another as its length does.
counts_bytes :
    (current : Text) (bytes : ℕ)
    → bytes ≡ byte_length current
    → ltb 0 bytes ≡ not (is_empty current)
unfolding byte_length
counts_bytes [] bytes e = ground arith
counts_bytes (a ∷ current) bytes e = ground (arith, utf8_width-le a)

byte_length-snoc : (s : Text) (c : ℕ) → byte_length (s ++ c ∷ []) ≡ byte_length s + utf8_width c
unfolding byte_length
byte_length-snoc s c = omega (arith, byte_length-append s (c ∷ []))

split_loop-greedy :
    (s : Text) (chunks : List Text) (current : Text) (bytes : ℕ)
    → bytes ≡ byte_length current
    → split_loop chunks current bytes s ≡ chunks ++ greedy max_output_chunk_bytes current bytes s
unfolding split_loop greedy
split_loop-greedy [] chunks [] bytes e = sym (append-nil chunks)
split_loop-greedy [] chunks (a ∷ current) bytes e = refl
split_loop-greedy (c ∷ s) chunks current bytes e =
    rw (counts_bytes current bytes e)
      (elim (Bool-cases
        (not (is_empty current) && ltb max_output_chunk_bytes (bytes + utf8_width c))) [
          | inl full ↦ rw full (
              split_loop-greedy s (chunks ++ current ∷ []) (c ∷ []) (utf8_width c)
                (unfold byte_length in omega arith)
              ∙ append_assoc chunks (current ∷ []) _)
          | inr room ↦ rw room (
              split_loop-greedy s chunks (current ++ c ∷ []) (bytes + utf8_width c)
                (omega (arith, byte_length-snoc current c)))
        ])

cut :
    (s : Text)
    → ltb max_output_event_bytes (byte_length s) ≡ false
    → (chunks : List Text) × (byte_length s ≤ max_output_event_bytes)
      × (split_terminal_local_output s ≡ some chunks)
      × IsSplit max_output_chunk_bytes s chunks
unfolding split_terminal_local_output
cut [] small = (
  [],
  ground arith,
  rw small,
  unfold greedy in greedy-IsSplit max_output_chunk_bytes [] (omega arith),
)
cut (c ∷ s) small = (
  split_loop [] [] 0 (c ∷ s),
  ground arith,
  rw small,
  rw (split_loop-greedy (c ∷ s) [] [] 0 (unfold byte_length in refl))
      (greedy-IsSplit max_output_chunk_bytes (c ∷ s) (omega arith)),
)

-- The agent throws on output of more than 64 KiB of UTF-8, and on no other: it cuts that into chunks
-- that hold exactly the text, none empty and each at most 4 KiB, and each ending early only
-- where the next code point would exceed that.
pub split_terminal_local_output-IsSplit :
    (s : Text)
    → ((max_output_event_bytes < byte_length s) × (split_terminal_local_output s ≡ none))
      ⊎ ((chunks : List Text) × (byte_length s ≤ max_output_event_bytes)
          × (split_terminal_local_output s ≡ some chunks)
          × IsSplit max_output_chunk_bytes s chunks)
unfolding split_terminal_local_output
split_terminal_local_output-IsSplit s =
    elim (Bool-cases (ltb max_output_event_bytes (byte_length s))) [
      | inl large ↦ inl (ground arith, rw large)
      | inr small ↦ inr (cut s small)
    ]
