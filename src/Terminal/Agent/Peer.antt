-- ===== src/Terminal/Agent/Peer.antt =====
-- The server's frames as the agent reads them.
use dashboard_rpi.Common.{◌≤◌, ◌≡◌, false, some, is_empty, byte_length, arith, text_eq}
use dashboard_rpi.Common.Json.{get, has_exact_keys}
use dashboard_rpi.Common.Stringify.{Frame, frame_fields}
use dashboard_rpi.Terminal.Protocol.{contains_nul}
use dashboard_rpi.Terminal.Wire.{typed_frame, open_frame, input_frame, resize_frame, close_frame}
use dashboard_rpi.Terminal.Agent.Protocol.{
  ClientFrame, open', input, resize, close, client_frame_of, size_frame, input_of, native_min_cols,
  native_max_cols, native_min_rows, native_max_rows, max_input_bytes,
}

-- The object that the server writes for a frame.
abbrev pub wire_frame : ClientFrame → Frame
wire_frame (open' cols rows) = open_frame cols rows
wire_frame (input s) = input_frame s
wire_frame (resize cols rows) = resize_frame cols rows
wire_frame close = close_frame

-- The frames that the agent accepts.
abbrev pub IsFrame : ClientFrame → Type 0
IsFrame (open' cols rows) =
    (native_min_cols ≤ cols)
    × (cols ≤ native_max_cols)
    × (native_min_rows ≤ rows)
    × (rows ≤ native_max_rows)
IsFrame (input s) =
    (is_empty s ≡ false) × (contains_nul s ≡ false) × (byte_length s ≤ max_input_bytes)
IsFrame (resize cols rows) =
    (native_min_cols ≤ cols)
    × (cols ≤ native_max_cols)
    × (native_min_rows ≤ rows)
    × (rows ≤ native_max_rows)
IsFrame close = Unit

-- The agent reads every acceptable frame back from the object that the server writes for it.
pub typed_frame-wire_frame :
    (frame : ClientFrame)
    → IsFrame frame
    → typed_frame client_frame_of (some (frame_fields (wire_frame frame))) ≡ some frame
unfolding typed_frame client_frame_of frame_fields get has_exact_keys text_eq open_frame input_frame
    resize_frame close_frame size_frame input_of
typed_frame-wire_frame (open' cols rows) h = ground arith
typed_frame-wire_frame (input s) h = ground arith
typed_frame-wire_frame (resize cols rows) h = ground arith
typed_frame-wire_frame close h = ground arith
