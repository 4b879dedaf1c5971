-- ===== src/Terminal/Platform.antt =====
-- What the terminal's code takes from the JavaScript platform: decoding UTF-8 with a fatal
-- `TextDecoder`, and `JSON.parse`. `none` is a throw.
use dashboard_rpi.Common.{ℕ, List, Option, Text}
use dashboard_rpi.Common.Json.{Json}

abbrev pub Bytes : Type 0
Bytes = List ℕ

pub record Platform : Type 0 where
  pub utf8_decode : Bytes → Option Text
  pub json_parse : Text → Option Json
