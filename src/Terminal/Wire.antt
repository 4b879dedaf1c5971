-- ===== src/Terminal/Wire.antt =====
-- apps/server/src/terminal-local-wire.ts: the server's end of the local socket to the agent.
-- A frame that cannot be read or written is a throw, `none`.
pub mod Decoding
pub mod Holding
use dashboard_rpi.Common.{
  ℕ, ◌+◌, Bool, true, false, not, ◌&&◌, ◌||◌, Option, none, some, List, [], ◌∷◌, ◌++◌, ◌==◌, ltb,
  leb, if◌then◌else◌, is_empty, length, Text, codes, text_eq, byte_length,
}
use dashboard_rpi.Common.Json.{
  Json, null, number, Number, pos, Fields, get, has_exact_keys, string, object,
}
use dashboard_rpi.Common.Stringify.{Frame, natural, text, stringify}
use dashboard_rpi.Terminal.Platform.{Platform, Bytes}
use dashboard_rpi.Terminal.Lines.{scan, settle}
use dashboard_rpi.Terminal.Protocol.{
  contains_nul, as_record, as_string, default_cols, default_rows, input_max_bytes, min_cols,
  max_cols, min_rows, max_rows,
}

abbrev pub server_frame_max_bytes : ℕ
server_frame_max_bytes = 32768

abbrev pub read_event_max_bytes : ℕ
read_event_max_bytes = 65536

abbrev pub output_chunk_max_bytes : ℕ
output_chunk_max_bytes = 4096

abbrev pub client_line_max_bytes : ℕ
client_line_max_bytes = 4096

pub data LocalErrorCode : Type 0 where
  protocol_error pty_unavailable session_expired output_overflow : LocalErrorCode

pub data ServerFrame : Type 0 where
  ready : ServerFrame
  output : Text → ServerFrame
  exit : (code signal : Option ℕ) → ServerFrame
  error : LocalErrorCode → ServerFrame

-- `serializeLocalClientFrame`.
unfoldable pub serialize_local_client_frame : Frame → Option Text
serialize_local_client_frame value =
    let line = stringify value ++ b'\n' ∷ [] in
    if ltb client_line_max_bytes (byte_length line) then none else some line

unfoldable pub open_frame : ℕ → ℕ → Frame
open_frame cols rows =
    (codes "v", natural 1)
    ∷ (codes "type", text (codes "open"))
    ∷ (codes "cols", natural cols)
    ∷ (codes "rows", natural rows)
    ∷ []

unfoldable pub input_frame : Text → Frame
input_frame data' =
    (codes "v", natural 1) ∷ (codes "type", text (codes "input")) ∷ (codes "data", text data') ∷ []

unfoldable pub resize_frame : ℕ → ℕ → Frame
resize_frame cols rows =
    (codes "v", natural 1)
    ∷ (codes "type", text (codes "resize"))
    ∷ (codes "cols", natural cols)
    ∷ (codes "rows", natural rows)
    ∷ []

unfoldable pub close_frame : Frame
close_frame = (codes "v", natural 1) ∷ (codes "type", text (codes "close")) ∷ []

-- `serializeTerminalLocalOpenFrame`.
unfoldable pub serialize_terminal_local_open_frame : Option Text
unfolding serialize_local_client_frame open_frame
serialize_terminal_local_open_frame =
    serialize_local_client_frame (open_frame default_cols default_rows)

-- `serializeTerminalLocalInputFrame`.
unfoldable pub serialize_terminal_local_input_frame : Text → Option Text
unfolding serialize_local_client_frame input_frame
serialize_terminal_local_input_frame data' =
    if is_empty data' || contains_nul data' || ltb input_max_bytes (byte_length data')
    then none
    else serialize_local_client_frame (input_frame data')

-- `assertDimension` at a size that is an integer.
unfoldable pub is_dimension : ℕ → ℕ → ℕ → Bool
is_dimension value min max = leb min value && leb value max

-- `serializeTerminalLocalResizeFrame`.
unfoldable pub serialize_terminal_local_resize_frame : ℕ → ℕ → Option Text
unfolding serialize_local_client_frame resize_frame is_dimension
serialize_terminal_local_resize_frame cols rows =
    if not (is_dimension cols min_cols max_cols) || not (is_dimension rows min_rows max_rows)
    then none
    else serialize_local_client_frame (resize_frame cols rows)

-- `serializeTerminalLocalCloseFrame`.
unfoldable pub serialize_terminal_local_close_frame : Option Text
unfolding serialize_local_client_frame close_frame
serialize_terminal_local_close_frame = serialize_local_client_frame close_frame

-- `isNullableNonNegativeInteger`: the number or null, if it is one of them.
unfoldable pub nullable_natural : Option Json → Option (Option ℕ)
nullable_natural (some null) = some none
nullable_natural (some (number (pos n))) = some (some n)
nullable_natural _ = none

-- `isTerminalLocalErrorCode`.
unfoldable pub local_error_code : Option Json → Option LocalErrorCode
local_error_code (some (string s)) =
    if text_eq s (codes "PROTOCOL_ERROR")
    then some protocol_error
    else if text_eq s (codes "PTY_UNAVAILABLE")
    then some pty_unavailable
    else if text_eq s (codes "SESSION_EXPIRED")
    then some session_expired
    else if text_eq s (codes "OUTPUT_OVERFLOW")
    then some output_overflow
    else none
local_error_code _ = none

unfoldable pub output_of : Option Text → Option ServerFrame
output_of none = none
output_of (some s) =
    if is_empty s || ltb output_chunk_max_bytes (byte_length s) then none else some (output s)

unfoldable pub exit_of : Option (Option ℕ) → Option (Option ℕ) → Option ServerFrame
exit_of (some code) (some signal) = some (exit code signal)
exit_of _ _ = none

unfoldable pub error_of : Option LocalErrorCode → Option ServerFrame
error_of none = none
error_of (some code) = some (error code)

-- The switch on `value.type`.
unfoldable pub server_frame_of : Text → Fields → Option ServerFrame
unfolding output_of exit_of error_of nullable_natural local_error_code as_string
server_frame_of type value =
    if text_eq type (codes "ready")
    then (if has_exact_keys value (codes "v" ∷ codes "type" ∷ []) then some ready else none)
    else if text_eq type (codes "output")
    then (if has_exact_keys value (codes "v" ∷ codes "type" ∷ codes "data" ∷ [])
        then output_of (as_string (get (codes "data") value))
        else none)
    else if text_eq type (codes "exit")
    then (if has_exact_keys value (codes "v" ∷ codes "type" ∷ codes "code" ∷ codes "signal" ∷ [])
        then exit_of (nullable_natural (get (codes "code") value))
            (nullable_natural (get (codes "signal") value))
        else none)
    else if text_eq type (codes "error")
    then (if has_exact_keys value (codes "v" ∷ codes "type" ∷ codes "code" ∷ [])
        then error_of (local_error_code (get (codes "code") value))
        else none)
    else none

-- `value.v === 1`.
unfoldable pub is_version_one : Option Json → Bool
is_version_one (some (number (pos n))) = n == 1
is_version_one _ = false

unfoldable pub typed_frame : {F : Type 0} → (Text → Fields → Option F) → Option Fields → Option F
unfolding is_version_one as_string
typed_frame frame_of none = none
typed_frame frame_of (some value) =
    if not (is_version_one (get (codes "v") value))
    then none
    else elim (as_string (get (codes "type") value)) [
      | none ↦ none
      | some type ↦ frame_of type value
    ]

unfoldable pub decoded : Platform → Bytes → Option Json
decoded p bytes = elim (p.utf8_decode bytes) [ none ↦ none | some s ↦ p.json_parse s ]

-- `parseTerminalLocalServerFrame`.
unfoldable pub parse_terminal_local_server_frame : Platform → Bytes → Option ServerFrame
unfolding decoded typed_frame server_frame_of as_record
parse_terminal_local_server_frame p bytes =
    if is_empty bytes || ltb server_frame_max_bytes (length bytes)
    then none
    else typed_frame server_frame_of (as_record (decoded p bytes))

-- `TerminalLocalServerLineDecoder.push`: the new pending bytes, and the frames or a throw.
unfoldable pub push_server : Platform → Bytes → Bytes → Bytes × Option (List ServerFrame)
unfolding parse_terminal_local_server_frame scan settle
push_server p pending chunk =
    if is_empty chunk
    then (pending, some [])
    else if ltb read_event_max_bytes (length chunk)
    then (pending, none)
    else if ltb (read_event_max_bytes + server_frame_max_bytes) (length (pending ++ chunk))
    then (pending, none)
    else settle server_frame_max_bytes (parse_terminal_local_server_frame p) pending
        (scan server_frame_max_bytes (parse_terminal_local_server_frame p) [] (pending ++ chunk))

-- `end` of either decoder; `true` is a throw.
unfoldable pub end_throws : Bytes → Bool
end_throws pending = not (is_empty pending)
