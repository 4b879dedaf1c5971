-- ===== src/Terminal/Protocol/Messages.antt =====
-- Which browser messages are accepted.
use dashboard_rpi.Common.{
  ℕ, ◌≤◌, ◌≡◌, refl, true, false, [], ◌∷◌, is_empty, Text, codes, text_eq, text_eq_iff, byte_length,
  arith, Bool-cases, Option-cases, inl, inr, Option, some, none,
}
use dashboard_rpi.Common.Json.{
  Json, Number, pos, negsuc, fraction, number, string, object, Fields, get, has_exact_keys,
}
use dashboard_rpi.Common.Stringify.{Frame, natural, text, frame_fields}
use dashboard_rpi.Terminal.Protocol.{
  ClientMessage, input, resize, parsed, contains_nul, as_record, as_string, as_number,
  parse_input_data, parse_input_message, parse_size, parse_resize_message, parse_typed,
  parse_record, parse_terminal_client_message, input_max_bytes, min_cols, max_cols, min_rows,
  max_rows,
}

-- The messages that the server accepts: input that is not empty, holds no NUL and is at most
-- 2 KiB of UTF-8; a size of 2 to 300 columns and 2 to 200 rows.
abbrev pub IsAcceptable : ClientMessage → Type 0
IsAcceptable (input s) =
    (is_empty s ≡ false) × (contains_nul s ≡ false) × (byte_length s ≤ input_max_bytes)
IsAcceptable (resize cols rows) =
    (min_cols ≤ cols) × (cols ≤ max_cols) × (min_rows ≤ rows) × (rows ≤ max_rows)

-- The object of a message, as the browser's client writes it.
abbrev pub message_frame : ClientMessage → Frame
message_frame (input s) = (codes "type", text (codes "input")) ∷ (codes "data", text s) ∷ []
message_frame (resize cols rows) =
    (codes "type", text (codes "resize"))
    ∷ (codes "cols", natural cols)
    ∷ (codes "rows", natural rows)
    ∷ []

-- Every acceptable message is read back from the object of its members in the client's order.
pub parse-message_frame :
    (message : ClientMessage)
    → IsAcceptable message
    → parse_terminal_client_message (some (object (frame_fields (message_frame message))))
      ≡ parsed message
unfolding parse_terminal_client_message frame_fields get text_eq has_exact_keys parse_input_data
    parse_size
parse-message_frame (input s) h = ground arith
parse-message_frame (resize cols rows) h = ground arith

-- The members that an accepted object must have: these keys and no other, in any order.
abbrev pub Members : Fields → ClientMessage → Type 0
Members fs (input s) =
    (has_exact_keys fs (codes "type" ∷ codes "data" ∷ []) ≡ true)
    × (get (codes "type") fs ≡ some (string (codes "input")))
    × (get (codes "data") fs ≡ some (string s))
Members fs (resize cols rows) =
    (has_exact_keys fs (codes "type" ∷ codes "cols" ∷ codes "rows" ∷ []) ≡ true)
    × (get (codes "type") fs ≡ some (string (codes "resize")))
    × (get (codes "cols") fs ≡ some (number (pos cols)))
    × (get (codes "rows") fs ≡ some (number (pos rows)))

as_record-some : (v : Option Json) (fs : Fields) → as_record v ≡ some fs → v ≡ some (object fs)
unfolding as_record
as_record-some v fs e = ground arith

as_string-some : (v : Option Json) (s : Text) → as_string v ≡ some s → v ≡ some (string s)
unfolding as_string
as_string-some v s e = ground arith

as_number-some : (v : Option Json) (n : Number) → as_number v ≡ some n → v ≡ some (number n)
unfolding as_number
as_number-some v n e = ground arith

parse_input_data-parsed :
    (o : Option Text) (message : ClientMessage)
    → parse_input_data o ≡ parsed message
    → (s : Text) × (o ≡ some s) × (message ≡ input s) × IsAcceptable (input s)
unfolding parse_input_data
parse_input_data-parsed none message e = cc
parse_input_data-parsed (some s) message e = (s, refl, ground arith, ground arith)

parse_size-parsed :
    (c r : Option Number) (message : ClientMessage)
    → parse_size c r ≡ parsed message
    → (cols : ℕ) × (rows : ℕ) × (c ≡ some (pos cols))
      × (r ≡ some (pos rows))
      × (message ≡ resize cols rows)
      × IsAcceptable (resize cols rows)
unfolding parse_size
parse_size-parsed (some (pos cols)) (some (pos rows)) message e =
    (cols, rows, refl, refl, ground arith, ground arith)
parse_size-parsed (some (pos cols)) r message e = absurd (ground arith)
parse_size-parsed (some (negsuc n)) r message e = absurd (ground arith)
parse_size-parsed (some fraction) r message e = absurd (ground arith)
parse_size-parsed none r message e = absurd (ground arith)

parse_input_message-parsed :
    (fs : Fields) (message : ClientMessage)
    → get (codes "type") fs ≡ some (string (codes "input"))
    → parse_input_message fs ≡ parsed message
    → Members fs message × IsAcceptable message
unfolding parse_input_message
parse_input_message-parsed fs message t e =
    let (s, o, same, fine) =
      parse_input_data-parsed (as_string (get (codes "data") fs)) message (ground arith) in
    rw same ((ground arith, t, as_string-some _ s o), fine)

parse_resize_message-parsed :
    (fs : Fields) (message : ClientMessage)
    → get (codes "type") fs ≡ some (string (codes "resize"))
    → parse_resize_message fs ≡ parsed message
    → Members fs message × IsAcceptable message
unfolding parse_resize_message
parse_resize_message-parsed fs message t e =
    let (cols, rows, c, r, same, fine) =
      parse_size-parsed (as_number (get (codes "cols") fs)) (as_number (get (codes "rows") fs))
        message (ground arith) in
    rw same ((ground arith, t, as_number-some _ (pos cols) c, as_number-some _ (pos rows) r), fine)

parse_typed-parsed :
    (o : Option Text) (fs : Fields) (message : ClientMessage)
    → as_string (get (codes "type") fs) ≡ o
    → parse_typed o fs ≡ parsed message
    → Members fs message × IsAcceptable message
unfolding parse_typed
parse_typed-parsed none fs message t e = absurd (ground arith)
parse_typed-parsed (some type) fs message t e =
    let shown = as_string-some _ type t in
    elim (Bool-cases (text_eq type (codes "input"))) [
      | inl is_input ↦
          parse_input_message-parsed fs message (rw (← (text_eq_iff type _).0 is_input) shown)
            (rw is_input at e)
      | inr other ↦ elim (Bool-cases (text_eq type (codes "resize"))) [
        | inl is_resize ↦
            parse_resize_message-parsed fs message (rw (← (text_eq_iff type _).0 is_resize) shown)
              (rw (other, is_resize) at e)
        | inr unknown ↦ absurd (ground arith)
      ]
    ]

-- An accepted frame is an object with exactly the members of the message, and the message is
-- acceptable.
pub parse_terminal_client_message_sound :
    (value : Option Json) (message : ClientMessage)
    → parse_terminal_client_message value ≡ parsed message
    → (fs : Fields) × (value ≡ some (object fs)) × Members fs message × IsAcceptable message
unfolding parse_terminal_client_message parse_record
parse_terminal_client_message_sound none message e = absurd (ground arith)
parse_terminal_client_message_sound (some value) message e =
    elim (Option-cases (as_record (some value))) [
      | inl no_object ↦ absurd (ground arith)
      | inr (fs, is_object) ↦
          let (members, fine) =
            parse_typed-parsed (as_string (get (codes "type") fs)) fs message refl (ground arith) in
          (fs, as_record-some (some value) fs is_object, members, fine)
    ]
