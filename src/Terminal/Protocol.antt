-- ===== src/Terminal/Protocol.antt =====
-- apps/server/src/terminal-application-protocol.ts: the messages between browser and server.
-- A frame's text has been through `JSON.parse`, whose outcome is the argument; `none` is a throw.
pub mod Output
pub mod Messages
use dashboard_rpi.Common.{
  ℕ, ◌+◌, Bool, true, false, not, ◌&&◌, ◌||◌, Option, none, some, List, [], ◌∷◌, ◌++◌, ◌==◌, ltb,
  leb, if◌then◌else◌, is_empty, Text, codes, text_eq, utf8_width, byte_length,
}
use dashboard_rpi.Common.Json.{
  Json, Number, pos, negsuc, fraction, number, string, object, Fields, get, has_exact_keys,
}
use dashboard_rpi.Common.Stringify.{Frame, natural, text}

abbrev pub input_max_bytes : ℕ
input_max_bytes = 2048

abbrev pub output_frame_max_bytes : ℕ
output_frame_max_bytes = 8192

abbrev pub output_event_max_bytes : ℕ
output_event_max_bytes = 65536

abbrev pub output_buffer_max_bytes : ℕ
output_buffer_max_bytes = 65536

abbrev pub min_cols : ℕ
min_cols = 2

abbrev pub max_cols : ℕ
max_cols = 300

abbrev pub min_rows : ℕ
min_rows = 2

abbrev pub max_rows : ℕ
max_rows = 200

abbrev pub default_cols : ℕ
default_cols = 80

abbrev pub default_rows : ℕ
default_rows = 24

pub data ClientMessage : Type 0 where
  input : Text → ClientMessage
  resize : (cols rows : ℕ) → ClientMessage

pub data Rejection : Type 0 where
  invalid_json invalid_shape unknown_message_type input_empty input_contains_nul : Rejection
  input_too_large resize_out_of_range : Rejection

pub data ParseResult : Type 0 where
  parsed : ClientMessage → ParseResult
  refused : Rejection → ParseResult

-- `data.includes("\0")`.
unfoldable pub contains_nul : Text → Bool
contains_nul [] = false
contains_nul (c ∷ s) = c == 0 || contains_nul s

-- `isPlainRecord` on a value of `JSON.parse`: the fields of an object.
unfoldable pub as_record : Option Json → Option Fields
as_record (some (object fs)) = some fs
as_record _ = none

unfoldable pub as_string : Option Json → Option Text
as_string (some (string s)) = some s
as_string _ = none

unfoldable pub as_number : Option Json → Option Number
as_number (some (number n)) = some n
as_number _ = none

unfoldable pub parse_input_data : Option Text → ParseResult
unfolding contains_nul
parse_input_data none = refused invalid_shape
parse_input_data (some s) =
    if is_empty s
    then refused input_empty
    else if contains_nul s
    then refused input_contains_nul
    else if ltb input_max_bytes (byte_length s)
    then refused input_too_large
    else parsed (input s)

-- `parseInputMessage`.
unfoldable pub parse_input_message : Fields → ParseResult
unfolding parse_input_data as_string
parse_input_message value =
    if not (has_exact_keys value (codes "type" ∷ codes "data" ∷ []))
    then refused invalid_shape
    else parse_input_data (as_string (get (codes "data") value))

unfoldable pub parse_size : Option Number → Option Number → ParseResult
parse_size (some (pos cols)) (some (pos rows)) =
    if ltb cols min_cols || ltb max_cols cols || ltb rows min_rows || ltb max_rows rows
    then refused resize_out_of_range
    else parsed (resize cols rows)
parse_size (some (negsuc _)) (some (pos _)) = refused resize_out_of_range
parse_size (some (pos _)) (some (negsuc _)) = refused resize_out_of_range
parse_size (some (negsuc _)) (some (negsuc _)) = refused resize_out_of_range
parse_size _ _ = refused invalid_shape

-- `parseResizeMessage`.
unfoldable pub parse_resize_message : Fields → ParseResult
unfolding parse_size as_number
parse_resize_message value =
    if not (has_exact_keys value (codes "type" ∷ codes "cols" ∷ codes "rows" ∷ []))
    then refused invalid_shape
    else parse_size (as_number (get (codes "cols") value)) (as_number (get (codes "rows") value))

unfoldable pub parse_typed : Option Text → Fields → ParseResult
unfolding parse_input_message parse_resize_message
parse_typed none value = refused invalid_shape
parse_typed (some type) value =
    if text_eq type (codes "input")
    then parse_input_message value
    else if text_eq type (codes "resize")
    then parse_resize_message value
    else refused unknown_message_type

unfoldable pub parse_record : Option Fields → ParseResult
unfolding parse_typed as_string
parse_record none = refused invalid_shape
parse_record (some value) = parse_typed (as_string (get (codes "type") value)) value

-- `parseTerminalClientMessage`.
unfoldable pub parse_terminal_client_message : Option Json → ParseResult
unfolding parse_record as_record
parse_terminal_client_message none = refused invalid_json
parse_terminal_client_message (some value) = parse_record (as_record (some value))

-- `normalizeNonNegativeInteger`.
unfoldable pub normalize_non_negative_integer : Number → ℕ
normalize_non_negative_integer (pos n) = n
normalize_non_negative_integer _ = 0

-- The objects that the three serialisers hand to `JSON.stringify`.
unfoldable pub ready_frame : Frame
ready_frame = (codes "type", text (codes "ready")) ∷ []

unfoldable pub output_frame : Text → Frame
output_frame output = (codes "type", text (codes "output")) ∷ (codes "data", text output) ∷ []

unfoldable pub exit_frame : Number → Option Number → Frame
unfolding normalize_non_negative_integer
exit_frame exit_code none =
    (codes "type", text (codes "exit"))
    ∷ (codes "exitCode", natural (normalize_non_negative_integer exit_code))
    ∷ []
exit_frame exit_code (some signal) =
    (codes "type", text (codes "exit"))
    ∷ (codes "exitCode", natural (normalize_non_negative_integer exit_code))
    ∷ (codes "signal", natural (normalize_non_negative_integer signal))
    ∷ []

-- The loop of `splitTerminalOutput` with its variables `chunks`, `current` and `currentBytes`.
unfoldable pub split_loop : List Text → Text → ℕ → Text → List Text
split_loop chunks current bytes [] = if is_empty current then chunks else chunks ++ current ∷ []
split_loop chunks current bytes (c ∷ rest) =
    let full = not (is_empty current) && ltb output_frame_max_bytes (bytes + utf8_width c) in
    let flushed = split_loop (chunks ++ current ∷ []) (c ∷ []) (utf8_width c) rest in
    let longer = split_loop chunks (current ++ c ∷ []) (bytes + utf8_width c) rest in
    if full then flushed else longer

-- `splitTerminalOutput`.
unfoldable pub split_terminal_output : Text → List Text
unfolding split_loop
split_terminal_output output = if is_empty output then [] else split_loop [] [] 0 output
