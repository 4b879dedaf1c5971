-- ===== src/Terminal/Tests/Input.antt =====
-- Input from the browser on concrete messages.
use dashboard_rpi.Common.{
  utf8_width, ◌≡◌, ◌⊎◌, ◌++◌, refl, true, false, none, some, [], ◌∷◌, arith, Text, codes, text_eq,
  byte_length,
}
use dashboard_rpi.Common.Json.{has_exact_keys, get, Json, object}
use dashboard_rpi.Common.Stringify.{stringify, frame_fields}
use dashboard_rpi.Terminal.Platform.{Platform}
use dashboard_rpi.Terminal.Session.Registry.{
  replace, prune_expired, find, Sessions, Metadata, touch_claimed_at, to_metadata,
}
use dashboard_rpi.Terminal.Protocol.{input, parsed, contains_nul, parse_terminal_client_message}
use dashboard_rpi.Terminal.Protocol.Messages.{IsAcceptable, message_frame}
use dashboard_rpi.Terminal.Wire.{input_frame}
use dashboard_rpi.Terminal.Bridge.State.{
  Bridge, active, closed, open_socket, string_data, decode_web_socket_text, unusable,
}
use dashboard_rpi.Terminal.Bridge.Handlers.{message_line, handle_browser_message}
use dashboard_rpi.Terminal.Bridge.Input.{message_line-verbatim, escapes, message_line-escapes}
use dashboard_rpi.Terminal.Bridge.Forwarding.{
  Forwardable, forwarded, handle_browser_message-forwards,
}
use dashboard_rpi.Terminal.Tests.Session.{token}
use dashboard_rpi.Terminal.Tests.Bridge.{env, claimed}

abbrev typed : Text
typed = codes "ls"

typed-IsAcceptable : IsAcceptable (input typed)
unfolding byte_length contains_nul utf8_width
typed-IsAcceptable = (refl, refl, omega arith)

message_line-verbatim_example :
    message_line (input typed) ≡ some (stringify (input_frame typed) ++ b'\n' ∷ [])
message_line-verbatim_example = message_line-verbatim typed typed-IsAcceptable refl

message_line-escapes_example :
    (parse_terminal_client_message
        (some (object (frame_fields (message_frame (input (escapes 700))))))
      ≡ parsed (input (escapes 700)))
    × (message_line (input (escapes 700)) ≡ none)
message_line-escapes_example = message_line-escapes 700 (omega arith) (omega arith)

abbrev typed_json : Json
typed_json = object (frame_fields (message_frame (input typed)))

-- A platform that parses every text to the same message.
abbrev platform : Platform
platform = record { utf8_decode = some; json_parse = λ s. some typed_json }

abbrev bridge : Bridge
bridge = record {
  state = active;
  local = open_socket;
  connect_timer = false;
  ready_timer = false;
  exit_send_timer = false;
  revoked = false;
  pending = [];
  connect_listener = false;
  close_listener = true;
  error_listener = true;
  sessions = claimed;
  log = [];
}

abbrev touched : Sessions
touched =
    (token, record { created_at = 1000; last_activity_at = 3000; transport_claimed_at = some 2000 })
    ∷ []

abbrev shown : Metadata
shown =
    to_metadata
      (record { created_at = 1000; last_activity_at = 3000; transport_claimed_at = some 2000 })

typed-parsed : parse_terminal_client_message (platform.json_parse typed) ≡ parsed (input typed)
unfolding parse_terminal_client_message get frame_fields text_eq has_exact_keys byte_length
    utf8_width
typed-parsed = refl

typed-touched : touch_claimed_at token env.now bridge.sessions ≡ (touched, some shown)
unfolding touch_claimed_at find prune_expired text_eq replace
typed-touched = refl

typed-Forwardable : Forwardable token platform env (string_data typed) false bridge
unfolding decode_web_socket_text unusable
typed-Forwardable = record {
  textual = refl;
  body = typed;
  decoded = refl;
  message = input typed;
  parses = typed-parsed;
  touched = touched;
  meta = shown;
  touches = typed-touched;
  line = stringify (input_frame typed) ++ b'\n' ∷ [];
  written = message_line-verbatim typed typed-IsAcceptable refl;
  takes = record { usable = refl; not_ended = refl; room = omega arith; answer = refl };
}

handle_browser_message-forwards_example :
    ((f : Forwardable token platform env (string_data typed) false bridge) × (handle_browser_message
          token platform env
          (string_data typed)
          false
          bridge
        ≡ forwarded token platform env (string_data typed) false bridge f))
    ⊎ ((¬ Forwardable token platform env (string_data typed) false bridge)
        × ((handle_browser_message token platform env (string_data typed) false bridge).state
            ≡ closed))
handle_browser_message-forwards_example =
    handle_browser_message-forwards token platform env (string_data typed) false bridge refl
