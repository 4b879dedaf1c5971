-- ===== src/Terminal/Protocol/Output.antt =====
-- The server's splitter of terminal output, splitTerminalOutput, and its specification.
use dashboard_rpi.Common.{
  ℕ, ◌+◌, ◌≡◌, refl, sym, ◌∙◌, not, ◌&&◌, List, [], ◌∷◌, ◌++◌, ltb, is_empty, Text, utf8_width,
  arith, Bool-cases, inl, inr,
}
use mathlib.Core.List.{append_assoc, append-nil}
use dashboard_rpi.Terminal.Chunks.{greedy, IsSplit, greedy-IsSplit}
use dashboard_rpi.Terminal.Protocol.{split_loop, split_terminal_output, output_frame_max_bytes}

split_loop-greedy :
    (s : Text) (chunks : List Text) (current : Text) (bytes : ℕ)
    → split_loop chunks current bytes s ≡ chunks ++ greedy output_frame_max_bytes current bytes s
unfolding split_loop greedy
split_loop-greedy [] chunks [] bytes = sym (append-nil chunks)
split_loop-greedy [] chunks (a ∷ current) bytes = refl
split_loop-greedy (c ∷ s) chunks current bytes =
    elim (Bool-cases
      (not (is_empty current) && ltb output_frame_max_bytes (bytes + utf8_width c))) [
        | inl full ↦ rw full (
            split_loop-greedy s (chunks ++ current ∷ []) (c ∷ []) (utf8_width c)
            ∙ append_assoc chunks (current ∷ []) _)
        | inr room ↦ rw room (split_loop-greedy s chunks (current ++ c ∷ []) (bytes + utf8_width c))
      ]

-- The output frames of a text, in order, hold exactly the text; each is non-empty and at most
-- 8 KiB of UTF-8, and ends early only where the next code point would exceed that.
pub split_terminal_output-IsSplit :
    (s : Text) → IsSplit output_frame_max_bytes s (split_terminal_output s)
unfolding split_terminal_output
split_terminal_output-IsSplit [] =
    unfold greedy in greedy-IsSplit output_frame_max_bytes [] (omega arith)
split_terminal_output-IsSplit (c ∷ s) =
    rw (split_loop-greedy (c ∷ s) [] [] 0)
      (greedy-IsSplit output_frame_max_bytes (c ∷ s) (omega arith))
