-- ===== src/Terminal/Tests/Frames.antt =====
-- Messages, frames and cuts of output on concrete texts.
use dashboard_rpi.Common.{
  text_eq, utf8_width, ◌≡◌, ◌≤◌, ◌<◌, ◌⊎◌, refl, none, some, List, arith, Text, codes, byte_length,
}
use dashboard_rpi.Common.Json.{object, Fields, end, field, string, number, pos, has_exact_keys, get}
use dashboard_rpi.Common.Stringify.{frame_fields}
use dashboard_rpi.Terminal.Chunks.{IsSplit}
use dashboard_rpi.Terminal.Protocol.{
  input, resize, parsed, contains_nul, parse_terminal_client_message, split_terminal_output,
  output_frame_max_bytes,
}
use dashboard_rpi.Terminal.Protocol.Messages.{
  IsAcceptable, message_frame, parse-message_frame, Members, parse_terminal_client_message_sound,
}
use dashboard_rpi.Terminal.Protocol.Output.{split_terminal_output-IsSplit}
use dashboard_rpi.Terminal.Wire.{typed_frame}
use dashboard_rpi.Terminal.Agent.Protocol.{
  ClientFrame, client_frame_of, split_terminal_local_output, max_output_chunk_bytes,
  max_output_event_bytes,
}
use dashboard_rpi.Terminal.Agent.Peer.{wire_frame, typed_frame-wire_frame}
use dashboard_rpi.Terminal.Agent.Output.{split_terminal_local_output-IsSplit}

abbrev typed : Text
typed = codes "ls\n"

typed-IsAcceptable : IsAcceptable (input typed)
unfolding byte_length contains_nul utf8_width
typed-IsAcceptable = (refl, refl, omega arith)

parse-message_frame_example :
    parse_terminal_client_message (some (object (frame_fields (message_frame (input typed)))))
    ≡ parsed (input typed)
parse-message_frame_example = parse-message_frame (input typed) typed-IsAcceptable

-- The keys of a message may come in any order.
abbrev turned : Fields
turned =
    field (codes "rows") (number (pos 40))
      (field (codes "type") (string (codes "resize")) (field (codes "cols") (number (pos 120)) end))

turned-parsed : parse_terminal_client_message (some (object turned)) ≡ parsed (resize 120 40)
unfolding parse_terminal_client_message get text_eq has_exact_keys
turned-parsed = refl

parse_terminal_client_message_sound_example :
    (fs : Fields) × (some (object turned) ≡ some (object fs))
    × Members fs (resize 120 40)
    × IsAcceptable (resize 120 40)
parse_terminal_client_message_sound_example =
    parse_terminal_client_message_sound (some (object turned)) (resize 120 40) turned-parsed

typed_frame-wire_frame_example :
    typed_frame client_frame_of (some (frame_fields (wire_frame (ClientFrame.resize 120 40))))
    ≡ some (ClientFrame.resize 120 40)
typed_frame-wire_frame_example =
    typed_frame-wire_frame (ClientFrame.resize 120 40)
      (omega arith, omega arith, omega arith, omega arith)

split_terminal_output-IsSplit_example :
    IsSplit output_frame_max_bytes typed (split_terminal_output typed)
split_terminal_output-IsSplit_example = split_terminal_output-IsSplit typed

split_terminal_local_output-IsSplit_example :
    ((max_output_event_bytes < byte_length typed) × (split_terminal_local_output typed ≡ none))
    ⊎ ((chunks : List Text) × (byte_length typed ≤ max_output_event_bytes)
        × (split_terminal_local_output typed ≡ some chunks)
        × IsSplit max_output_chunk_bytes typed chunks)
split_terminal_local_output-IsSplit_example = split_terminal_local_output-IsSplit typed
