-- ===== src/Terminal/Agent/Protocol.antt =====
-- apps/terminal-agent/src/local-protocol.ts: the agent's end of the local socket.
use dashboard_rpi.Common.{
  ℕ, ◌+◌, Bool, false, not, ◌&&◌, ◌||◌, Option, none, some, List, [], ◌∷◌, ◌++◌, ◌==◌, ltb,
  if◌then◌else◌, is_empty, length, Text, codes, text_eq, utf8_width, byte_length,
}
use dashboard_rpi.Common.Json.{
  Json, number, Number, pos, negsuc, fraction, Fields, get, has_exact_keys,
}
use dashboard_rpi.Common.Stringify.{Frame, Value, nothing, natural, negative, text, stringify}
use dashboard_rpi.Terminal.Platform.{Platform, Bytes}
use dashboard_rpi.Terminal.Lines.{push}
use dashboard_rpi.Terminal.Protocol.{contains_nul, as_record, as_string}
use dashboard_rpi.Terminal.Wire.{
  LocalErrorCode, protocol_error, pty_unavailable, session_expired, output_overflow, typed_frame,
}

abbrev pub max_frame_bytes : ℕ
max_frame_bytes = 4096

abbrev pub max_input_bytes : ℕ
max_input_bytes = 2048

abbrev pub max_output_event_bytes : ℕ
max_output_event_bytes = 65536

abbrev pub max_output_chunk_bytes : ℕ
max_output_chunk_bytes = 4096

abbrev pub max_pending_output_bytes : ℕ
max_pending_output_bytes = 65536

-- `TERMINAL_NATIVE_MIN_COLS` and the like of native-pty.ts.
abbrev pub native_min_cols : ℕ
native_min_cols = 2

abbrev pub native_max_cols : ℕ
native_max_cols = 300

abbrev pub native_min_rows : ℕ
native_min_rows = 2

abbrev pub native_max_rows : ℕ
native_max_rows = 200

pub data ClientFrame : Type 0 where
  open' : (cols rows : ℕ) → ClientFrame
  input : Text → ClientFrame
  resize : (cols rows : ℕ) → ClientFrame
  close : ClientFrame

-- The frames that the agent sends; an exit code or signal is an integer or null.
pub data ServerFrame : Type 0 where
  ready : ServerFrame
  output : Text → ServerFrame
  exit : (code signal : Option Number) → ServerFrame
  error : LocalErrorCode → ServerFrame

-- `text.endsWith("\r")`.
unfoldable pub ends_with_return : Text → Bool
ends_with_return [] = false
ends_with_return (c ∷ []) = c == b'\r'
ends_with_return (c ∷ s) = ends_with_return s

-- `assertDimension`: the size, or a throw.
unfoldable pub dimension : ℕ → ℕ → Option Json → Option ℕ
dimension min max (some (number (pos n))) = if ltb n min || ltb max n then none else some n
dimension min max _ = none

unfoldable pub sized : (ℕ → ℕ → ClientFrame) → Option ℕ → Option ℕ → Option ClientFrame
sized frame (some cols) (some rows) = some (frame cols rows)
sized frame _ _ = none

unfoldable pub size_frame : (ℕ → ℕ → ClientFrame) → Fields → Option ClientFrame
unfolding sized dimension
size_frame frame value =
    if not (has_exact_keys value (codes "v" ∷ codes "type" ∷ codes "cols" ∷ codes "rows" ∷ []))
    then none
    else sized frame (dimension native_min_cols native_max_cols (get (codes "cols") value))
        (dimension native_min_rows native_max_rows (get (codes "rows") value))

unfoldable pub input_of : Option Text → Option ClientFrame
unfolding contains_nul
input_of none = none
input_of (some s) =
    if is_empty s || contains_nul s || ltb max_input_bytes (byte_length s)
    then none
    else some (input s)

-- The switch on `value.type`.
unfoldable pub client_frame_of : Text → Fields → Option ClientFrame
unfolding size_frame input_of as_string
client_frame_of type value =
    if text_eq type (codes "open")
    then size_frame open' value
    else if text_eq type (codes "input")
    then (if not (has_exact_keys value (codes "v" ∷ codes "type" ∷ codes "data" ∷ []))
        then none
        else input_of (as_string (get (codes "data") value)))
    else if text_eq type (codes "resize")
    then size_frame resize value
    else if text_eq type (codes "close")
    then (if has_exact_keys value (codes "v" ∷ codes "type" ∷ []) then some close else none)
    else none

unfoldable pub parse_client_text : Platform → Text → Option ClientFrame
unfolding contains_nul ends_with_return typed_frame client_frame_of as_record
parse_client_text p s =
    if contains_nul s || ends_with_return s
    then none
    else typed_frame client_frame_of (as_record (p.json_parse s))

-- `parseTerminalLocalClientFrame`; `none` is a throw.
unfoldable pub parse_terminal_local_client_frame : Platform → Bytes → Option ClientFrame
unfolding parse_client_text
parse_terminal_local_client_frame p bytes =
    if is_empty bytes || ltb max_frame_bytes (length bytes)
    then none
    else elim (p.utf8_decode bytes) [ none ↦ none | some s ↦ parse_client_text p s ]

unfoldable pub error_text : LocalErrorCode → Text
error_text protocol_error = codes "PROTOCOL_ERROR"
error_text pty_unavailable = codes "PTY_UNAVAILABLE"
error_text session_expired = codes "SESSION_EXPIRED"
error_text output_overflow = codes "OUTPUT_OVERFLOW"

unfoldable pub integer_value : Option Number → Value
integer_value none = nothing
integer_value (some (pos n)) = natural n
integer_value (some (negsuc n)) = negative n
integer_value (some fraction) = nothing

unfoldable pub server_frame : ServerFrame → Frame
unfolding error_text integer_value
server_frame ready = (codes "v", natural 1) ∷ (codes "type", text (codes "ready")) ∷ []
server_frame (output s) =
    (codes "v", natural 1) ∷ (codes "type", text (codes "output")) ∷ (codes "data", text s) ∷ []
server_frame (exit code signal) =
    (codes "v", natural 1)
    ∷ (codes "type", text (codes "exit"))
    ∷ (codes "code", integer_value code)
    ∷ (codes "signal", integer_value signal)
    ∷ []
server_frame (error code) =
    (codes "v", natural 1)
    ∷ (codes "type", text (codes "error"))
    ∷ (codes "code", text (error_text code))
    ∷ []

-- `serializeTerminalLocalServerFrame`.
unfoldable pub serialize_terminal_local_server_frame : ServerFrame → Text
unfolding server_frame
serialize_terminal_local_server_frame frame = stringify (server_frame frame) ++ b'\n' ∷ []

-- The loop of `splitTerminalLocalOutput`.
unfoldable pub split_loop : List Text → Text → ℕ → Text → List Text
split_loop chunks current bytes [] = if is_empty current then chunks else chunks ++ current ∷ []
split_loop chunks current bytes (c ∷ rest) =
    let full = ltb 0 bytes && ltb max_output_chunk_bytes (bytes + utf8_width c) in
    let flushed = split_loop (chunks ++ current ∷ []) (c ∷ []) (utf8_width c) rest in
    let longer = split_loop chunks (current ++ c ∷ []) (bytes + utf8_width c) rest in
    if full then flushed else longer

-- `splitTerminalLocalOutput`; `none` is a throw.
unfoldable pub split_terminal_local_output : Text → Option (List Text)
unfolding split_loop
split_terminal_local_output s =
    if ltb max_output_event_bytes (byte_length s)
    then none
    else if is_empty s
    then some []
    else some (split_loop [] [] 0 s)

-- `TerminalLocalLineDecoder.push`, whose frames are the raw lines.
unfoldable pub push_client : Bytes → Bytes → Bytes × Option (List Bytes)
unfolding push
push_client = push max_frame_bytes some
