-- ===== src/Terminal/Lines/Chunking.antt =====
-- The line decoders over the chunks of a stream.
use dashboard_rpi.Common.{
  ℕ, ◌≤◌, ◌≡◌, refl, sym, ap, ◌∙◌, Option, none, some, List, [], ◌∷◌, ◌++◌, length, arith,
  Option-cases, inl, inr,
}
use mathlib.Core.List.{append_assoc, flatten}
use dashboard_rpi.Terminal.Platform.{Bytes}
use dashboard_rpi.Terminal.Lines.{scan, settle, push}
use dashboard_rpi.Terminal.Lines.Readable.{readable, readable-append}
use dashboard_rpi.Terminal.Lines.Scanning.{
  NoNewline, after, limit, scan-append, scan-line, scan-NoNewline, limit-some, limit-continue,
  rest-scan,
}

-- What the decoder may hold between two chunks, as long as it has not thrown: it assigns the pending
-- bytes before it throws for their size, so that after such a throw it may hold more.
pub record IsPending (max : ℕ) (pending : Bytes) : Type 0 where
  pub unfinished : NoNewline pending
  pub bounded : length pending ≤ max

-- What a call of `push` comes to, as one value.
unfoldable pub outcome : {F : Type 0} → Bytes × Option (List F) → Option (List F × Bytes)
outcome (pending, none) = none
outcome (pending, some frames) = some (frames, pending)

-- What a stream of chunks comes to if no chunk throws.
unfoldable pub unbroken : {F : Type 0} → List F × Option Bytes → Option (List F × Bytes)
unbroken (frames, none) = none
unbroken (frames, some pending) = some (frames, pending)

module _ {F : Type 0} (max : ℕ) (parse : Bytes → Option F) where
  -- The decoder over the chunks of a stream, which the first throw ends: the frames that the calls
  -- before it have returned, and the pending bytes, or `none` for a throw.
  unfoldable pub feed : Bytes → List Bytes → List F × Option Bytes
  feed pending [] = ([], some pending)
  feed pending (chunk ∷ chunks) = elim (outcome (push max parse pending chunk)) [
    | none ↦ ([], none)
    | some (frames, rest) ↦ let later = feed rest chunks in (frames ++ later.0, later.1)
  ]

  unbroken-after :
      (frames : List F) (o : List F × Option Bytes)
      → unbroken (frames ++ o.0, o.1) ≡ after frames (unbroken o)
  unfolding unbroken after
  unbroken-after frames (more, none) = refl
  unbroken-after frames (more, some rest) = refl

  outcome-settle :
      (pending : Bytes) (o : Option (List F × Bytes))
      → outcome (settle max parse pending o) ≡ limit max parse o
  unfolding outcome settle limit
  outcome-settle pending none = refl
  outcome-settle pending (some _) = ground arith

  outcome-push :
      (pending chunk : Bytes)
      → IsPending max pending
      → outcome (push max parse pending chunk) ≡ limit max parse (scan max parse pending chunk)
  unfolding push
  outcome-push pending [] p = unfold outcome limit scan in ground arith
  outcome-push pending (c ∷ chunk) p =
      outcome-settle pending _
      ∙ ap (limit max parse) (scan-line max parse [] pending (c ∷ chunk) p.unfinished)

  -- What a chunk that does not throw leaves.
  limit-IsPending :
      (pending chunk line : Bytes) (frames : List F)
      → IsPending max pending
      → limit max parse (scan max parse pending chunk) ≡ some (frames, line)
      → (scan max parse pending chunk ≡ some (frames, line)) × IsPending max line
  limit-IsPending pending chunk line frames p e =
      let (scanned, bounded) = limit-some max parse (scan max parse pending chunk) e in
      (
        scanned,
        record {
          unfinished =
              scan-NoNewline max parse pending chunk {frames = frames} {l = line} p.unfinished
                scanned;
          bounded = bounded;
        },
      )

  feed-scan :
      (pending : Bytes) (chunks : List Bytes)
      → IsPending max pending
      → unbroken (feed pending chunks) ≡ limit max parse (scan max parse pending (flatten chunks))
  unfolding feed flatten unbroken
  feed-scan pending [] p = let b = p.bounded in unfold limit scan in ground arith
  feed-scan pending (chunk ∷ chunks) p =
      elim (Option-cases (limit max parse (scan max parse pending chunk))) [
        | inl stopped ↦
            rw
              (
                feed,
                outcome-push pending chunk p,
                stopped,
                scan-append max parse pending chunk (flatten chunks),
              )
              (sym
                (limit-continue max parse (scan max parse pending chunk) (flatten chunks) stopped))
        | inr ((frames, line), passed) ↦
            let (scanned, p') = limit-IsPending pending chunk line frames p passed in
            rw
              (
                feed,
                outcome-push pending chunk p,
                passed,
                scan-append max parse pending chunk (flatten chunks),
                scanned,
              )
              (unbroken-after frames (feed line chunks)
                ∙ rest-scan max parse frames line (flatten chunks) (feed-scan line chunks p'))
      ]

  -- The frames that are returned come first among the readable ones.
  feed-readable :
      (pending : Bytes) (chunks : List Bytes)
      → IsPending max pending
      → (rest : List F) × (readable max parse pending (flatten chunks)
          ≡ (feed pending chunks).0 ++ rest)
  unfolding feed flatten
  feed-readable pending [] p = (readable max parse pending [], refl)
  feed-readable pending (chunk ∷ chunks) p =
      elim (Option-cases (limit max parse (scan max parse pending chunk))) [
        | inl stopped ↦ (
          readable max parse pending (chunk ++ flatten chunks),
          rw (feed, outcome-push pending chunk p, stopped) refl,
        )
        | inr ((frames, line), passed) ↦
            let (scanned, p') = limit-IsPending pending chunk line frames p passed in
            let (rest, first) = feed-readable line chunks p' in
            (
              rest,
              rw (feed, outcome-push pending chunk p, passed)
                  (readable-append max parse pending chunk (flatten chunks) {frames = frames}
                      {l = line} scanned
                    ∙ ap (λ xs. frames ++ xs) first
                    ∙ sym (append_assoc frames (feed line chunks).0 rest)),
            )
      ]

  -- Let the decoder hold an unfinished line within the limit, as it does until it throws. The chunks
  -- of a stream, fed one after the other up to the first throw, throw exactly if the whole stream
  -- throws when it is fed at once. If they do not, they return the same frames and leave the same
  -- pending bytes. In any case, throw or not, the frames that they return are the first ones, in
  -- order, of those of the complete lines before the first that is empty, too long or does not parse.
  pub feed-flatten :
      (pending : Bytes) (chunks : List Bytes)
      → IsPending max pending
      → (unbroken (feed pending chunks) ≡ outcome (push max parse pending (flatten chunks)))
        × (rest : List F) × (readable max parse pending (flatten chunks)
            ≡ (feed pending chunks).0 ++ rest)
  feed-flatten pending chunks p =
      let (rest, first) = feed-readable pending chunks p in
      (feed-scan pending chunks p ∙ sym (outcome-push pending (flatten chunks) p), rest, first)

  -- A decoder that held an unfinished line within the limit holds one again after a chunk on which
  -- it did not throw.
  pub push-IsPending :
      (pending chunk rest : Bytes) (frames : List F)
      → IsPending max pending
      → push max parse pending chunk ≡ (rest, some frames)
      → IsPending max rest
  push-IsPending pending chunk rest frames p e =
      let reached : outcome (push max parse pending chunk) ≡ some (frames, rest) =
        rw e (unfold outcome in refl) in
      (limit-IsPending pending chunk rest frames p (sym (outcome-push pending chunk p) ∙ reached)).1
