-- ===== src/Docker/Stream/Decoding.antt =====
-- What the decoder makes of a response, however it is cut into chunks.
use dashboard_rpi.Common.{
  ℕ, ◌+◌, ◌≤◌, ◌≡◌, refl, sym, ap, ◌∙◌, Bool, true, false, Option, none, some, List, [], ◌∷◌, ◌++◌,
  ltb, if◌then◌else◌, length, length-append, Text, arith, Bool-cases, Option-cases, inl, inr,
}
use mathlib.Core.List.{append_assoc}
use dashboard_rpi.Common.Json.{Json}
use dashboard_rpi.Terminal.Platform.{Bytes}
use dashboard_rpi.Docker.Stream.{
  StringDecoder, Outcome, throws, returned, and_then, take_line, drain, docker_max_response_bytes,
  Stream, empty_stream, drained, push, finished, finish, decode,
}
use dashboard_rpi.Docker.Stream.Lines.{
  lines_of, lines_of-append, collect, collect-append, with_rest, drain-ends,
}

-- The lines of a text between its newlines, the last one included.
unfoldable pub split_lines : Text → List Text
split_lines p = (lines_of p).0 ++ (lines_of p).1 ∷ []

unfoldable pub byte_size : List Bytes → ℕ
byte_size [] = 0
byte_size (chunk ∷ chunks) = length chunk + byte_size chunks

unfoldable pub joined : List Bytes → Bytes
joined [] = []
joined (chunk ∷ chunks) = chunk ++ joined chunks

unfoldable pub or_throw : Option (List Json) → Outcome (List Json)
or_throw none = throws
or_throw (some values) = returned values

module _ (json_parse : Text → Option Json) where
  collect-split :
      (values values' : List Json) (q w : Text)
      → collect json_parse values (lines_of q).0 ≡ some values'
      → collect json_parse values (split_lines (q ++ w))
        ≡ collect json_parse values' (split_lines ((lines_of q).1 ++ w))
  unfolding split_lines
  collect-split values values' q w e =
      let tail = lines_of ((lines_of q).1 ++ w) in
      rw (lines_of-append q w, append_assoc (lines_of q).0 tail.0 (tail.1 ∷ []))
        (collect-append json_parse values (lines_of q).0 (tail.0 ++ tail.1 ∷ []) ∙ rw e refl)

  collect-split_none :
      (values : List Json) (q w : Text)
      → collect json_parse values (lines_of q).0 ≡ none
      → collect json_parse values (split_lines (q ++ w)) ≡ none
  unfolding split_lines
  collect-split_none values q w e =
      let tail = lines_of ((lines_of q).1 ++ w) in
      rw (lines_of-append q w, append_assoc (lines_of q).0 tail.0 (tail.1 ∷ []))
        (collect-append json_parse values (lines_of q).0 (tail.0 ++ tail.1 ∷ []) ∙ rw e refl)

  module _ (d : StringDecoder) where
    -- What the StringDecoder gives for these chunks and at their end.
    unfoldable pub written : List Bytes → d.Held → Text
    written [] held = d.end held
    written (chunk ∷ chunks) held = (d.write chunk held).1 ++ written chunks (d.write chunk held).0

    last-line :
        (values : List Json) (t : Text)
        → finished json_parse d (returned (values, t))
          ≡ or_throw (collect json_parse values (t ∷ []))
    unfolding finished collect or_throw
    last-line values t = elim (Option-cases (take_line json_parse values t)) [
      | inl bad ↦ rw (bad, collect, finished)
      | inr (values', good) ↦ rw (good, collect, finished)
    ]

    finished-collect :
        (values : List Json) (q : Text)
        → finished json_parse d (drain json_parse values q)
          ≡ or_throw (collect json_parse values (split_lines q))
    unfolding finished with_rest split_lines or_throw
    finished-collect values q =
        rw
          (
            drain-ends json_parse values q,
            collect-append json_parse values (lines_of q).0 ((lines_of q).1 ∷ []),
          )
          (elim (Option-cases (collect json_parse values (lines_of q).0)) [
            | inl bad ↦ rw bad
            | inr (values', good) ↦ rw good (last-line values' (lines_of q).1)
          ])

    -- What a response comes to, from the values that are there and the text that is left.
    unfoldable pub expected : ℕ → List Json → Text → Outcome (List Json)
    unfolding or_throw
    expected total values text =
        if ltb docker_max_response_bytes total
        then throws
        else or_throw (collect json_parse values (split_lines text))

    pub if-throws :
        (b : Bool) (o : Outcome (List Json)) → o ≡ throws → (if b then throws else o) ≡ throws
    if-throws true o e = refl
    if-throws false o e = e

    pub push-over :
        (chunk : Bytes) (s : Stream json_parse d)
        → ltb docker_max_response_bytes (s.total_bytes + length chunk) ≡ true
        → push json_parse d chunk s ≡ throws
    unfolding push
    push-over chunk s over = rw over

    pub push-fits :
        (chunk : Bytes) (s : Stream json_parse d) (o : Option (List Json))
        → ltb docker_max_response_bytes (s.total_bytes + length chunk) ≡ false
        → collect json_parse s.values (lines_of (s.pending ++ (d.write chunk s.decoder).1)).0 ≡ o
        → push json_parse d chunk s
          ≡ drained json_parse d
              (d.write chunk s.decoder).0
              (s.total_bytes + length chunk)
              (with_rest json_parse (lines_of (s.pending ++ (d.write chunk s.decoder).1)).1 o)
    unfolding push
    push-fits chunk s o fits e =
        rw (fits, drain-ends json_parse s.values (s.pending ++ (d.write chunk s.decoder).1), e)

    -- In any state of the decoder, all chunks to come amount to their whole text.
    decode-expected :
        (chunks : List Bytes) (s : Stream json_parse d)
        → s.total_bytes ≤ docker_max_response_bytes
        → decode json_parse d chunks s
          ≡ expected
              (s.total_bytes + byte_size chunks)
              s.values
              (s.pending ++ written chunks s.decoder)
    unfolding decode and_then finish written byte_size expected drained with_rest or_throw
    decode-expected [] s small =
        let fits : ltb docker_max_response_bytes (s.total_bytes + 0) ≡ false = ground arith in
        rw fits (finished-collect s.values (s.pending ++ d.end s.decoder))
    decode-expected (chunk ∷ chunks) s small =
        let total = s.total_bytes + length chunk in
        let held = (d.write chunk s.decoder).0 in
        let q = s.pending ++ (d.write chunk s.decoder).1 in
        elim (Bool-cases (ltb docker_max_response_bytes total)) [
          | inl over ↦
              let over_all : ltb docker_max_response_bytes
                    (s.total_bytes + (length chunk + byte_size chunks))
                  ≡ true =
                ground arith in
              rw (push-over chunk s over, over_all)
          | inr fits ↦ elim (Option-cases (collect json_parse s.values (lines_of q).0)) [
            | inl bad ↦
                rw
                  (
                    push-fits chunk s none fits bad,
                    ← append_assoc s.pending (d.write chunk s.decoder).1 (written chunks held),
                  )
                  (sym (
                    if-throws
                      (ltb docker_max_response_bytes (s.total_bytes + byte_size (chunk ∷ chunks)))
                      (or_throw
                        (collect json_parse s.values (split_lines (q ++ written chunks held))))
                      (rw (collect-split_none s.values q (written chunks held) bad))))
            | inr (values', good) ↦
                let s' : Stream json_parse d = record {
                  decoder = held;
                  values = values';
                  pending = (lines_of q).1;
                  total_bytes = total;
                } in
                let sum : s.total_bytes + (length chunk + byte_size chunks)
                    ≡ total + byte_size chunks =
                  omega arith in
                rw
                  (
                    push-fits chunk s (some values') fits good,
                    ← append_assoc s.pending (d.write chunk s.decoder).1 (written chunks held),
                    collect-split s.values values' q (written chunks held) good,
                    sum,
                  )
                  (decode-expected chunks s' (ground arith))
          ]
        ]

pub length-joined : (chunks : List Bytes) → length (joined chunks) ≡ byte_size chunks
unfolding joined byte_size
length-joined [] = refl
length-joined (chunk ∷ chunks) =
    length-append chunk (joined chunks) ∙ ap (λ n. length chunk + n) (length-joined chunks)

-- Let the StringDecoder give, in all, the text of all the bytes. Then the reading of a response ends,
-- in however many chunks the response comes and wherever it is cut: its loops over lines never run out
-- of their fuel. It throws if the response has more than 1048576 bytes, or if a line of its text,
-- trimmed and not empty, is no JSON, and else gives the values of all those lines, in order.
pub decode-ends :
    (json_parse : Text → Option Json) (d : StringDecoder) (utf8_text : Bytes → Text)
    → ((chunks : List Bytes) → written json_parse d chunks d.nothing ≡ utf8_text (joined chunks))
    → (chunks : List Bytes)
    → decode json_parse d chunks (empty_stream json_parse d) ≡ (
        if ltb docker_max_response_bytes (length (joined chunks))
        then throws
        else or_throw (collect json_parse [] (split_lines (utf8_text (joined chunks)))))
unfolding expected
decode-ends json_parse d utf8_text whole chunks =
    let sum : length (joined chunks) ≡ 0 + byte_size chunks = omega (arith, length-joined chunks) in
    rw (sum, ← whole chunks)
      (decode-expected json_parse d chunks (empty_stream json_parse d) (omega arith))
