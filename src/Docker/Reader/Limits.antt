-- ===== src/Docker/Reader/Limits.antt =====
-- What a response of events comes to, with the limits of the reader.
use dashboard_rpi.Common.{
  ℕ, zero, suc, ◌+◌, ◌≤◌, ◌≡◌, ◌⊎◌, inl, inr, refl, sym, ap, ◌∙◌, Bool, true, false, ◌||◌, Option,
  none, some, List, [], ◌∷◌, ◌++◌, ltb, length, Text, arith, Bool-cases, Option-cases,
}
use dashboard_rpi.Common.Json.{Json}
use dashboard_rpi.Terminal.Platform.{Bytes}
use dashboard_rpi.Docker.Stream.{
  StringDecoder, Outcome, throws, returned, and_then, Stream, drained, push, decode,
  docker_max_response_bytes,
}
use dashboard_rpi.Docker.Stream.Lines.{lines_of, collect, with_rest}
use dashboard_rpi.Docker.Stream.Decoding.{
  split_lines, byte_size, joined, or_throw, written, push-over, push-fits, length-joined,
  decode-ends,
}
use dashboard_rpi.Docker.Reader.{
  Bounds, bounded_option, both, bounds_of, count_newlines, Reader, empty_reader, pushed, on_data,
  succeed, read_response,
}

bounded_option-le : (o : Option ℕ) (limit n : ℕ) → bounded_option o limit ≡ some n → n ≤ limit
unfolding bounded_option
bounded_option-le none limit n e = ground arith
bounded_option-le (some zero) limit n e = absurd (ground arith)
bounded_option-le (some (suc m)) limit n e = ground arith

both-some :
    (o p : Option ℕ) (b : Bounds)
    → both o p ≡ some b
    → (o ≡ some b.max_response_bytes) × (p ≡ some b.max_items)
unfolding both
both-some (some bytes) (some items) b e = ground arith
both-some none p b e = absurd (ground arith)
both-some (some bytes) none b e = absurd (ground arith)

bounds_of-le :
    (bytes items : Option ℕ) (b : Bounds)
    → bounds_of bytes items ≡ some b
    → b.max_response_bytes ≤ docker_max_response_bytes
unfolding bounds_of
bounds_of-le bytes items b e =
    bounded_option-le bytes docker_max_response_bytes b.max_response_bytes (both-some _ _ b e).0

unfoldable pub newlines : List Bytes → ℕ
newlines [] = 0
newlines (chunk ∷ chunks) = count_newlines chunk + newlines chunks

count_newlines-append :
    (x y : Bytes) → count_newlines (x ++ y) ≡ count_newlines x + count_newlines y
unfolding count_newlines
count_newlines-append [] y = omega arith
count_newlines-append (c ∷ x) y = let rest = count_newlines-append x y in ground arith

count_newlines-joined : (chunks : List Bytes) → count_newlines (joined chunks) ≡ newlines chunks
unfolding joined newlines count_newlines
count_newlines-joined [] = refl
count_newlines-joined (chunk ∷ chunks) =
    count_newlines-append chunk (joined chunks)
    ∙ ap (λ n. count_newlines chunk + n) (count_newlines-joined chunks)

module _ (json_parse : Text → Option Json) (d : StringDecoder) (b : Bounds) where
  push-cases :
      (chunk : Bytes) (s : Stream json_parse d)
      → (push json_parse d chunk s ≡ throws)
        ⊎ ((s' : Stream json_parse d) × (push json_parse d chunk s ≡ returned s'))
  unfolding drained with_rest
  push-cases chunk s =
      elim (Bool-cases (ltb docker_max_response_bytes (s.total_bytes + length chunk))) [
        | inl over ↦ inl (push-over json_parse d chunk s over)
        | inr fits ↦
            elim (Option-cases (
              collect json_parse s.values
                (lines_of (s.pending ++ (d.write chunk s.decoder).1)).0)) [
                  | inl bad ↦ inl (push-fits json_parse d chunk s none fits bad)
                  | inr (values, good) ↦
                      inr (_, push-fits json_parse d chunk s (some values) fits good)
                ]
      ]

  abbrev pub is_over : ℕ → ℕ → Bool
  is_over total frames = ltb b.max_response_bytes total || ltb b.max_items frames

  -- The whole of what is to come, against the limits.
  unfoldable pub limited : Bool → Outcome (List Json) → Outcome (List Json)
  limited true o = throws
  limited false o = and_then o (succeed json_parse d b)

  limited-throws : (over : Bool) → limited over throws ≡ throws
  unfolding limited and_then
  limited-throws true = refl
  limited-throws false = refl

  read-limited :
      (chunks : List Bytes) (r : Reader json_parse d b)
      → is_over r.total_bytes r.completed_frames ≡ false
      → read_response json_parse d b chunks r
        ≡ limited
            (is_over (r.total_bytes + byte_size chunks) (r.completed_frames + newlines chunks))
            (decode json_parse d chunks r.stream)
  unfolding read_response limited decode byte_size newlines and_then on_data pushed
  read-limited [] r fits =
      let now : is_over (r.total_bytes + 0) (r.completed_frames + 0) ≡ false = ground arith in
      rw now
  read-limited (chunk ∷ chunks) r fits =
      let total = r.total_bytes + length chunk in
      let frames = r.completed_frames + count_newlines chunk in
      let sum : r.total_bytes + (length chunk + byte_size chunks) ≡ total + byte_size chunks =
        omega arith in
      let count : r.completed_frames + (count_newlines chunk + newlines chunks)
          ≡ frames + newlines chunks =
        omega arith in
      elim (Bool-cases (is_over total frames)) [
        | inl over ↦
            let over_all : is_over (total + byte_size chunks) (frames + newlines chunks) ≡ true =
              ground arith in
            rw (over, sum, count, over_all)
        | inr small ↦ elim (push-cases chunk r.stream) [
          | inl bad ↦ rw (small, bad) (sym (limited-throws _))
          | inr (s', good) ↦
              rw (small, good, sum, count)
                (read-limited chunks
                  (record { stream = s'; total_bytes = total; completed_frames = frames }) small)
        ]
      ]

  limited-both :
      (over : Bool) (o p : Outcome (List Json))
      → (over ≡ false → o ≡ p)
      → limited over o ≡ limited over p
  unfolding limited
  limited-both true o p same = refl
  limited-both false o p same = ap (λ x. and_then x (succeed json_parse d b)) (same refl)

-- Let a reader have bounds that its options gave, and let the StringDecoder give, in all, the text of
-- all the bytes. Then the reading of a response ends, in however many chunks it comes and wherever
-- it is cut: its loops never run out of their fuel. It fails if the response has more bytes than
-- the bound or more newlines than the bound of items, and else fails if a line of the whole text,
-- trimmed and not empty, is no JSON, or if there are more such lines than the bound of items; and
-- else it gives the values of all those lines, in order.
pub read_response-ends :
    (json_parse : Text → Option Json) (d : StringDecoder) (utf8_text : Bytes → Text)
    (bytes items : Option ℕ) (b : Bounds)
    → bounds_of bytes items ≡ some b
    → ((chunks : List Bytes) → written json_parse d chunks d.nothing ≡ utf8_text (joined chunks))
    → (chunks : List Bytes)
    → read_response json_parse d b chunks (empty_reader json_parse d b)
      ≡ limited json_parse d b
          (is_over json_parse d b (length (joined chunks)) (count_newlines (joined chunks)))
          (or_throw (collect json_parse [] (split_lines (utf8_text (joined chunks)))))
read_response-ends json_parse d utf8_text bytes items b built whole chunks =
    let small = bounds_of-le bytes items b built in
    let size : 0 + byte_size chunks ≡ length (joined chunks) =
      omega (arith, length-joined chunks) in
    let count : 0 + newlines chunks ≡ count_newlines (joined chunks) =
      omega (arith, count_newlines-joined chunks) in
    let read = read-limited json_parse d b chunks (empty_reader json_parse d b) (ground arith) in
    rw (size, count) at read
    ∙ limited-both json_parse d b
        (is_over json_parse d b (length (joined chunks)) (count_newlines (joined chunks))) _ _
        (λ fits.
          let fits_all : ltb docker_max_response_bytes (length (joined chunks)) ≡ false =
            ground arith in
          decode-ends json_parse d utf8_text whole chunks ∙ rw fits_all)
