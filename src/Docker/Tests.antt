-- ===== src/Docker/Tests.antt =====
-- The decoder on a concrete response: a StringDecoder that holds nothing back.
use dashboard_rpi.Owner.Strings.{is_space}
use dashboard_rpi.Common.{
  ◌≡◌, refl, ap, Option, none, some, List, [], ◌∷◌, ◌++◌, if◌then◌else◌, length, Text, codes,
  text_eq,
}
use dashboard_rpi.Common.Json
use dashboard_rpi.Common.Json.{Json}
use dashboard_rpi.Terminal.Platform.{Bytes}
use dashboard_rpi.Docker.Stream.{finish, push, StringDecoder, returned, empty_stream, decode}
use dashboard_rpi.Docker.Stream.Lines.{collect}
use dashboard_rpi.Docker.Stream.Decoding.{split_lines, joined, or_throw, written}
use dashboard_rpi.Docker.Reader.{Bounds, bounds_of, count_newlines, empty_reader, read_response}
use dashboard_rpi.Docker.Reader.Limits.{limited, is_over, read_response-ends}

abbrev string_decoder : StringDecoder
string_decoder = record {
  Held = Unit;
  nothing = tt;
  write = λ chunk held. (tt, chunk);
  end = λ held. [];
}

abbrev parse_text : Text → Option Json
parse_text t = if text_eq t (codes "{}") then some (Json.object Json.end) else none

written-joined :
    (chunks : List Bytes)
    → written parse_text string_decoder chunks string_decoder.nothing ≡ joined chunks
unfolding written joined
written-joined [] = refl
written-joined (chunk ∷ chunks) = ap (λ t. chunk ++ t) (written-joined chunks)

-- A line in two chunks, an empty line, and a line without a newline.
abbrev response : List Bytes
response = codes "{" ∷ codes "}\n\n {" ∷ codes "} " ∷ []

two-values :
    decode parse_text string_decoder response (empty_stream parse_text string_decoder)
    ≡ returned (Json.object Json.end ∷ Json.object Json.end ∷ [])
unfolding decode is_space text_eq
two-values = refl

abbrev bounds : Bounds
bounds = record { max_response_bytes = 4096; max_items = 2 }

bounds-built : bounds_of (some 4096) (some 2) ≡ some bounds
unfolding bounds_of
bounds-built = refl

read-values :
    read_response parse_text string_decoder bounds response
      (empty_reader parse_text string_decoder bounds)
    ≡ returned (Json.object Json.end ∷ Json.object Json.end ∷ [])
unfolding read_response push is_space text_eq finish
read-values = refl

read_response-ends_example :
    read_response parse_text string_decoder bounds response
      (empty_reader parse_text string_decoder bounds)
    ≡ limited parse_text string_decoder bounds
        (is_over parse_text string_decoder bounds
          (length (joined response))
          (count_newlines (joined response)))
        (or_throw (collect parse_text [] (split_lines (joined response))))
read_response-ends_example =
    read_response-ends parse_text string_decoder (λ t. t) (some 4096) (some 2) bounds bounds-built
      written-joined response
