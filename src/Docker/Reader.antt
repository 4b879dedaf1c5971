-- ===== src/Docker/Reader.antt =====
-- The reading of a response of events by `createDockerEventReader` of
-- apps/agent/src/docker-broker-events.ts: its limits around the decoder. A failed promise is
-- `throws`.
pub mod Limits
use dashboard_rpi.Common.{
  ℕ, zero, suc, ◌+◌, Bool, true, false, ◌&&◌, ◌||◌, Option, none, some, List, [], ◌∷◌, ◌==◌, ltb,
  leb, if◌then◌else◌, length, Text,
}
use dashboard_rpi.Common.Json.{Json}
use dashboard_rpi.Terminal.Platform.{Bytes}
use dashboard_rpi.Owner.Strings.{max_safe_integer}
use dashboard_rpi.Docker.Stream.{
  StringDecoder, Outcome, exhausted, throws, returned, and_then, Stream, empty_stream, push, finish,
  docker_max_response_bytes,
}

abbrev pub docker_broker_events_max_items : ℕ
docker_broker_events_max_items = 512

-- The options, which the constructor bounds.
pub record Bounds : Type 0 where
  pub max_response_bytes : ℕ
  pub max_items : ℕ

-- `positiveBound` and the minimum with the constant; `none` is a throw.
unfoldable pub bounded_option : Option ℕ → ℕ → Option ℕ
bounded_option none limit = some limit
bounded_option (some zero) limit = none
bounded_option (some (suc n)) limit =
    if ltb max_safe_integer (suc n) then none else some (if ltb limit (suc n) then limit else suc n)

unfoldable pub both : Option ℕ → Option ℕ → Option Bounds
both (some bytes) (some items) = some (record { max_response_bytes = bytes; max_items = items })
both _ _ = none

unfoldable pub bounds_of : (max_response_bytes max_items : Option ℕ) → Option Bounds
unfolding bounded_option both
bounds_of bytes items =
    both (bounded_option bytes docker_max_response_bytes)
      (bounded_option items docker_broker_events_max_items)

unfoldable pub count_newlines : Bytes → ℕ
count_newlines [] = 0
count_newlines (byte ∷ bytes) =
    if byte == 10 then suc (count_newlines bytes) else count_newlines bytes

module _ (json_parse : Text → Option Json) (d : StringDecoder) (b : Bounds) where
  pub record Reader : Type 0 where
    pub stream : Stream json_parse d
    pub total_bytes : ℕ
    pub completed_frames : ℕ

  abbrev pub empty_reader : Reader
  empty_reader = record {
    stream = empty_stream json_parse d;
    total_bytes = 0;
    completed_frames = 0;
  }

  unfoldable pub pushed : ℕ → ℕ → Outcome (Stream json_parse d) → Outcome Reader
  pushed total frames exhausted = exhausted
  pushed total frames throws = throws
  pushed total frames (returned s) =
      returned (record { stream = s; total_bytes = total; completed_frames = frames })

  -- The listener of "data".
  unfoldable pub on_data : Bytes → Reader → Outcome Reader
  unfolding count_newlines pushed
  on_data chunk r =
      if ltb b.max_response_bytes (r.total_bytes + length chunk)
        || ltb b.max_items (r.completed_frames + count_newlines chunk)
      then throws
      else pushed (r.total_bytes + length chunk) (r.completed_frames + count_newlines chunk)
          (push json_parse d chunk r.stream)

  -- `succeed`.
  unfoldable pub succeed : List Json → Outcome (List Json)
  succeed values = if ltb b.max_items (length values) then throws else returned values

  -- The chunks, each for the listener of "data", and then "end".
  unfoldable pub read_response : List Bytes → Reader → Outcome (List Json)
  unfolding on_data and_then succeed
  read_response [] r = and_then (finish json_parse d r.stream) succeed
  read_response (chunk ∷ chunks) r = and_then (on_data chunk r) (read_response chunks)
