-- ===== src/Terminal/Bridge/State.antt =====
-- The bridge's variables, events' data and small tests of terminal-websocket-bridge.ts.
use dashboard_rpi.Common.{
  ℕ, ◌-◌, Bool, true, false, ◌&&◌, Option, none, some, List, ◌∷◌, ltb, leb, if◌then◌else◌, Text,
  byte_length,
}
use mathlib.Core.List.{flatten}
use dashboard_rpi.Common.Json.{Number, pos}
use dashboard_rpi.Terminal.Platform.{Platform, Bytes}
use dashboard_rpi.Terminal.Session.Registry.{Sessions}

abbrev pub max_local_write_buffer_bytes : ℕ
max_local_write_buffer_bytes = 65536

abbrev pub max_websocket_buffer_bytes : ℕ
max_websocket_buffer_bytes = 65536

abbrev pub max_websocket_frame_bytes : ℕ
max_websocket_frame_bytes = 32768

pub data BridgeState : Type 0 where
  connecting awaiting_ready active closing closed : BridgeState

pub data Reason : Type 0 where
  local_unavailable output_overload output_backpressure websocket_send_failed : Reason
  local_protocol_error bridge_session_expired local_backpressure bridge_pty_unavailable : Reason
  not_ready browser_protocol_error local_ready_timeout local_closed local_connect_timeout : Reason

pub data Observation : Type 0 where
  ws_open local_connected observed_ready ws_error : Observation
  ws_close : Option ℕ → Observation
  failed : ℕ → Reason → Observation

-- `sent` has the text and `bufferedAmount` before it.
pub data Effect : Type 0 where
  observed : Observation → Effect
  sent : Text → ℕ → Effect
  closed_websocket : ℕ → Option Reason → Effect
  terminated_websocket local_destroyed : Effect
  local_written : Text → Effect

pub data LocalSocket : Type 0 where
  absent open_socket destroyed : LocalSocket

pub data WriteAnswer : Type 0 where
  accepted full throws : WriteAnswer

pub record Env : Type 0 where
  pub now : ℕ
  pub buffered_amount : Option ℕ
  pub send_throws : Bool
  pub close_throws : Bool
  pub writable_ended : Bool
  pub writable_length : ℕ
  pub write : WriteAnswer

pub record Bridge : Type 0 where
  pub state : BridgeState
  pub local : LocalSocket
  pub connect_timer : Bool
  pub ready_timer : Bool
  pub exit_send_timer : Bool
  pub revoked : Bool
  pub pending : Bytes
  pub connect_listener : Bool
  pub close_listener : Bool
  pub error_listener : Bool
  pub sessions : Sessions
  pub log : List Effect

abbrev pub emit : Effect → Bridge → Bridge
emit e b = record b { log = e ∷ b.log }

-- `value.destroyed` of the local socket, or no socket.
unfoldable pub unusable : LocalSocket → Bool
unusable absent = true
unusable open_socket = false
unusable destroyed = true

unfoldable pub is_closed : BridgeState → Bool
is_closed closed = true
is_closed _ = false

unfoldable pub is_over : BridgeState → Bool
is_over closed = true
is_over closing = true
is_over _ = false

unfoldable pub is_closing : BridgeState → Bool
is_closing closing = true
is_closing _ = false

unfoldable pub is_active : BridgeState → Bool
is_active active = true
is_active _ = false

unfoldable pub is_awaiting_ready : BridgeState → Bool
is_awaiting_ready awaiting_ready = true
is_awaiting_ready _ = false

-- `destroyLocal`.
unfoldable pub destroy_local : Bridge → Bridge
unfolding unusable
destroy_local b =
    if unusable b.local then b else record b { local = destroyed; log = local_destroyed ∷ b.log }

-- `normalizeWebSocketCloseCode`; a missing code is `none`.
unfoldable pub normalize_web_socket_close_code : Option Number → Option ℕ
normalize_web_socket_close_code (some (pos n)) = if leb 1000 n && leb n 4999 then some n else none
normalize_web_socket_close_code _ = none

-- The payload of a browser message as the `ws` library hands it over.
pub data WebSocketData : Type 0 where
  string_data : Text → WebSocketData
  buffer array_buffer : Bytes → WebSocketData
  buffers : List Bytes → WebSocketData
  other : WebSocketData

-- Why a frame cannot be sent to the browser now.
unfoldable pub frame_refusal : Env → Text → Option Reason
frame_refusal env frame =
    if ltb max_websocket_frame_bytes (byte_length frame)
    then some output_overload
    else elim env.buffered_amount [
      | none ↦ some output_backpressure
      | some amount ↦
          if ltb (max_websocket_buffer_bytes - byte_length frame) amount
          then some output_backpressure
          else none
    ]

-- `decodeWebSocketText`.
unfoldable pub decode_web_socket_text : Platform → WebSocketData → Option Text
decode_web_socket_text p (string_data s) = some s
decode_web_socket_text p (buffer bytes) = p.utf8_decode bytes
decode_web_socket_text p (array_buffer bytes) = p.utf8_decode bytes
decode_web_socket_text p (buffers parts) = p.utf8_decode (flatten parts)
decode_web_socket_text p other = none
