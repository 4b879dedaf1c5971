-- ===== src/Terminal/Tests/Streams.antt =====
-- The line decoders on concrete bytes.
use dashboard_rpi.Common.{
  ◌≤◌, ◌≡◌, refl, Option, none, some, List, [], ◌∷◌, ◌++◌, arith, codes, if◌then◌else◌, length,
}
use mathlib.Core.List.{flatten}
use dashboard_rpi.Common.Json.{has_exact_keys, get, object, field, end, number, pos, string}
use dashboard_rpi.Common.{Text, text_eq}
use dashboard_rpi.Terminal.Platform.{Platform, Bytes}
use dashboard_rpi.Terminal.Lines.{push}
use dashboard_rpi.Terminal.Lines.Chunking.{
  IsPending, unbroken, feed, outcome, feed-flatten, push-IsPending,
}
use dashboard_rpi.Terminal.Lines.Readable.{readable}
use dashboard_rpi.Terminal.Lines.Framing.{AreLines, written, frames_of, push-written}
use dashboard_rpi.Terminal.Wire.{
  ServerFrame, ready, parse_terminal_local_server_frame, server_frame_max_bytes,
}
use dashboard_rpi.Terminal.Wire.Holding.{held, held_max_bytes, held-length}

abbrev pub ready_line : Text
ready_line = codes "{\"v\":1,\"type\":\"ready\"}"

-- A platform that decodes ASCII and parses one object.
abbrev pub platform : Platform
platform = record {
  utf8_decode = some;
  json_parse = λ s.
      if text_eq s ready_line
      then some (
          object (
            field (codes "v") (number (pos 1)) (field (codes "type") (string (codes "ready")) end)))
      else none;
}

abbrev parse : Bytes → Option ServerFrame
parse = parse_terminal_local_server_frame platform

begin-IsPending : IsPending 64 (codes "ab")
begin-IsPending = record { unfinished = (refl, (refl, tt)); bounded = omega arith }

-- A stream in three chunks, the last of which throws for its empty line.
abbrev broken : List Bytes
broken = codes "c\nd" ∷ [] ∷ codes "e\n\nf" ∷ []

feed-broken : feed {F = Bytes} 64 some (codes "ab") broken ≡ (codes "abc" ∷ [], none)
unfolding feed outcome push
feed-broken = refl

feed-flatten_example :
    (unbroken (feed {F = Bytes} 64 some (codes "ab") broken)
      ≡ outcome (push 64 some (codes "ab") (flatten broken)))
    × (rest : List Bytes) × (readable 64 some (codes "ab") (flatten broken)
        ≡ (feed 64 some (codes "ab") broken).0 ++ rest)
feed-flatten_example = feed-flatten 64 some (codes "ab") broken begin-IsPending

pushed : push {F = Bytes} 64 some (codes "ab") (codes "c\nd") ≡ (codes "d", some (codes "abc" ∷ []))
unfolding push
pushed = refl

push-IsPending_example : IsPending 64 (codes "d")
push-IsPending_example =
    push-IsPending 64 some (codes "ab") (codes "c\nd") (codes "d") (codes "abc" ∷ [])
      begin-IsPending pushed

abbrev sent_lines : List (Bytes × ServerFrame)
sent_lines = (ready_line, ready) ∷ []

ready-parsed : parse ready_line ≡ some ready
unfolding parse_terminal_local_server_frame text_eq get has_exact_keys
ready-parsed = refl

sent-AreLines : AreLines server_frame_max_bytes parse sent_lines
sent-AreLines = (
  record {
    whole = ground arith;
    some_bytes = omega arith;
    bounded = omega arith;
    parses = ready-parsed;
  },
  tt,
)

push-written_example :
    push server_frame_max_bytes parse [] (written server_frame_max_bytes parse sent_lines)
    ≡ ([], some (frames_of server_frame_max_bytes parse sent_lines))
push-written_example = push-written server_frame_max_bytes parse sent_lines sent-AreLines

held-length_example : length (held platform [] (ready_line ∷ codes "\n{" ∷ [])) ≤ held_max_bytes
held-length_example = held-length platform (ready_line ∷ codes "\n{" ∷ [])
