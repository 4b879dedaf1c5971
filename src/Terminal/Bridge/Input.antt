-- ===== src/Terminal/Bridge/Input.antt =====
-- What becomes of the browser's input on its way to the agent.
use dashboard_rpi.Common.{
  ℕ, zero, suc, ◌+◌, ◌*◌, ◌≤◌, ◌≡◌, refl, ap, ◌∙◌, Bool, true, false, ◌&&◌, not, none, some, [],
  ◌∷◌, ◌++◌, leb, ◌==◌, arith, Text, is_empty, byte_length, utf8_width, byte_length-append,
}
use dashboard_rpi.Common.Json.{object}
use dashboard_rpi.Common.Stringify.{
  stringify, stringify_members, stringify_value, quote, escape, unicode_escape, hex_digit,
  escape_all, decimal, digits_from, frame_fields,
}
use dashboard_rpi.Terminal.Protocol.{
  input, parsed, parse_terminal_client_message, contains_nul, input_max_bytes,
}
use dashboard_rpi.Terminal.Protocol.Messages.{IsAcceptable, message_frame, parse-message_frame}
use dashboard_rpi.Terminal.Wire.{
  serialize_local_client_frame, serialize_terminal_local_input_frame, input_frame,
}
use dashboard_rpi.Terminal.Bridge.Handlers.{message_line}

-- The line of an input has 33 bytes besides the escaped text.
byte_length-input_line :
    (s : Text)
    → byte_length (stringify (input_frame s) ++ b'\n' ∷ []) ≡ 33 + byte_length (escape_all s)
unfolding byte_length utf8_width stringify stringify_members stringify_value input_frame quote
    escape_all escape decimal digits_from
byte_length-input_line s = omega (
  arith,
  byte_length-append (escape_all s) (b'"' ∷ []),
  byte_length-append (escape_all s ++ b'"' ∷ []) (b'}' ∷ []),
  byte_length-append ((escape_all s ++ b'"' ∷ []) ++ b'}' ∷ []) (b'\n' ∷ []),
)

-- Characters that JSON writes as they are.
abbrev pub is_verbatim : Text → Bool
is_verbatim [] = true
is_verbatim (c ∷ s) =
    (leb 32 c && not (c == b'"') && not (c == b'\\') && not (leb 0xd800 c && leb c 0xdfff))
    && is_verbatim s

escape_all-verbatim : (s : Text) → is_verbatim s ≡ true → escape_all s ≡ s
unfolding escape_all escape
escape_all-verbatim [] h = refl
escape_all-verbatim (c ∷ s) h = ground (arith, escape_all-verbatim s)

-- Every acceptable input of characters that JSON does not escape is serialised to its line for the
-- agent, the JSON text and a newline: the serialiser does not throw.
pub message_line-verbatim :
    (s : Text)
    → IsAcceptable (input s)
    → is_verbatim s ≡ true
    → message_line (input s) ≡ some (stringify (input_frame s) ++ b'\n' ∷ [])
unfolding message_line serialize_terminal_local_input_frame serialize_local_client_frame
message_line-verbatim s h v =
    let size : byte_length (stringify (input_frame s) ++ b'\n' ∷ []) ≡ 33 + byte_length s =
      byte_length-input_line s ∙ ap (λ t. 33 + byte_length t) (escape_all-verbatim s v) in
    ground arith

-- The escape key, pressed `n` times.
abbrev pub escapes : ℕ → Text
escapes zero = []
escapes (suc n) = 27 ∷ escapes n

byte_length-escapes : (n : ℕ) → byte_length (escapes n) ≡ n
unfolding byte_length utf8_width
byte_length-escapes zero = refl
byte_length-escapes (suc n) = omega (arith, byte_length-escapes n)

byte_length-escaped : (n : ℕ) → byte_length (escape_all (escapes n)) ≡ 6 * n
unfolding byte_length utf8_width escape_all escape unicode_escape hex_digit
byte_length-escaped zero = refl
byte_length-escaped (suc n) = omega (arith, byte_length-escaped n)

contains_nul-escapes : (n : ℕ) → contains_nul (escapes n) ≡ false
unfolding contains_nul
contains_nul-escapes zero = refl
contains_nul-escapes (suc n) = contains_nul-escapes n

is_empty-escapes : (n : ℕ) → 1 ≤ n → is_empty (escapes n) ≡ false
is_empty-escapes zero h = absurd (omega arith)
is_empty-escapes (suc n) h = refl

-- An input of 678 to 2048 ESC characters is an acceptable message, which the server's parser
-- accepts from the browser, but no line can be written to the agent for it: the serialiser throws.
pub message_line-escapes :
    (n : ℕ)
    → 678 ≤ n
    → n ≤ input_max_bytes
    → (parse_terminal_client_message
          (some (object (frame_fields (message_frame (input (escapes n))))))
        ≡ parsed (input (escapes n)))
      × (message_line (input (escapes n)) ≡ none)
unfolding message_line serialize_terminal_local_input_frame serialize_local_client_frame
message_line-escapes n low high = (
  parse-message_frame (input (escapes n)) (
    is_empty-escapes n (omega arith),
    contains_nul-escapes n,
    omega (arith, byte_length-escapes n),
  ),
  (let size = byte_length-input_line (escapes n) in
      let escaped = byte_length-escaped n in ground arith),
)
