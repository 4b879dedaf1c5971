-- ===== src/Docker/Stream.antt =====
-- `DockerEventStreamDecoder` of apps/agent/src/docker-events.ts. node's StringDecoder is a
-- parameter, and so is `JSON.parse`. The loop of `#drainLines` runs on fuel.
pub mod Lines
pub mod Decoding
use dashboard_rpi.Common.{
  ℕ, zero, suc, ◌+◌, Bool, true, false, Option, none, some, List, [], ◌∷◌, ◌++◌, ◌==◌, ltb,
  if◌then◌else◌, is_empty, length, Text,
}
use dashboard_rpi.Common.Json.{Json}
use dashboard_rpi.Terminal.Platform.{Bytes}
use dashboard_rpi.Owner.Strings.{trim}

abbrev pub docker_max_response_bytes : ℕ
docker_max_response_bytes = 1048576

-- A StringDecoder: the bytes it holds back, and the text it gives for a chunk and at the end.
pub record StringDecoder : Type 1 where
  pub Held : Type 0
  pub nothing : Held
  pub write : Bytes → Held → Held × Text
  pub end : Held → Text

-- How a method ends: out of fuel, with an exception, or with a value.
pub data Outcome {ℓ} (A : Type ℓ) : Type ℓ where
  exhausted throws : Outcome A
  returned : A → Outcome A

-- An exception leaves the rest out.
unfoldable pub and_then {ℓ κ} : {A : Type ℓ} {B : Type κ} → Outcome A → (A → Outcome B) → Outcome B
and_then exhausted next = exhausted
and_then throws next = throws
and_then (returned a) next = next a

-- The pending text up to its first newline, and what follows it.
unfoldable pub cut_line : Text → Option (Text × Text)
cut_line [] = none
cut_line (c ∷ s) =
    if c == 10
    then some ([], s)
    else elim (cut_line s) [ none ↦ none | some (line, rest) ↦ some (c ∷ line, rest) ]

module _ (json_parse : Text → Option Json) where
  -- `#parseLine`; `none` is a throw.
  unfoldable pub parse_line : List Json → Text → Option (List Json)
  parse_line values line = elim (json_parse line) [
    | none ↦ none
    | some value ↦ some (values ++ value ∷ [])
  ]

  unfoldable pub take_line : List Json → Text → Option (List Json)
  unfolding trim parse_line
  take_line values line =
      if is_empty (trim line) then some values else parse_line values (trim line)

  -- `#drainLines`: the values and the pending text after the loop.
  unfoldable pub drain_lines : ℕ → List Json → Text → Outcome (List Json × Text)
  unfolding cut_line take_line
  drain_lines zero values pending = exhausted
  drain_lines (suc fuel) values pending = elim (cut_line pending) [
    | none ↦ returned (values, pending)
    | some (line, rest) ↦ elim (take_line values line) [
      | none ↦ throws
      | some values' ↦ drain_lines fuel values' rest
    ]
  ]

  abbrev pub drain : List Json → Text → Outcome (List Json × Text)
  drain values pending = drain_lines (suc (length pending)) values pending

  module _ (d : StringDecoder) where
    pub record Stream : Type 0 where
      pub decoder : d.Held
      pub values : List Json
      pub pending : Text
      pub total_bytes : ℕ

    abbrev pub empty_stream : Stream
    empty_stream = record { decoder = d.nothing; values = []; pending = []; total_bytes = 0 }

    unfoldable pub drained : d.Held → ℕ → Outcome (List Json × Text) → Outcome Stream
    drained decoder total exhausted = exhausted
    drained decoder total throws = throws
    drained decoder total (returned (values, pending)) =
        returned
          (record { decoder = decoder; values = values; pending = pending; total_bytes = total })

    -- `push`.
    unfoldable pub push : Bytes → Stream → Outcome Stream
    unfolding drained drain_lines
    push chunk s =
        if ltb docker_max_response_bytes (s.total_bytes + length chunk)
        then throws
        else drained (d.write chunk s.decoder).0 (s.total_bytes + length chunk)
            (drain s.values (s.pending ++ (d.write chunk s.decoder).1))

    unfoldable pub finished : Outcome (List Json × Text) → Outcome (List Json)
    unfolding take_line
    finished exhausted = exhausted
    finished throws = throws
    finished (returned (values, tail)) = elim (take_line values tail) [
      | none ↦ throws
      | some values' ↦ returned values'
    ]

    -- `finish`.
    unfoldable pub finish : Stream → Outcome (List Json)
    unfolding finished drain_lines
    finish s = finished (drain s.values (s.pending ++ d.end s.decoder))

    -- The chunks of a response one after the other, and its end.
    unfoldable pub decode : List Bytes → Stream → Outcome (List Json)
    unfolding push finish and_then
    decode [] s = finish s
    decode (chunk ∷ chunks) s = and_then (push chunk s) (decode chunks)
