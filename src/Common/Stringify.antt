-- ===== src/Common/Stringify.antt =====
-- `JSON.stringify` on the objects that the code serialises: no nesting, and values that are
-- strings, integers or null; `negative n` is -(n + 1).
use Prim.Native.Nat.{ℕ, zero, suc, ◌+◌, ◌/◌, ◌%◌}
use mathlib.Core.Bool.{◌&&◌}
use mathlib.Core.List.{List, [], ◌∷◌, ◌++◌}
use dashboard_rpi.Common.Tests.{ltb, leb, ◌==◌, if◌then◌else◌}
use dashboard_rpi.Common.Texts.{Text, codes}
use dashboard_rpi.Common.Json.{Json, null, number, string, pos, negsuc, Fields, end, field}

pub data Value : Type 0 where
  nothing : Value
  natural negative : ℕ → Value
  text : Text → Value

abbrev pub Frame : Type 0
Frame = List (Text × Value)

unfoldable pub hex_digit : ℕ → ℕ
hex_digit d = if ltb d 10 then b'0' + d else 87 + d

-- `\uXXXX`.
unfoldable pub unicode_escape : ℕ → Text
unfolding hex_digit
unicode_escape c =
    b'\\'
    ∷ b'u'
    ∷ hex_digit (c / 4096)
    ∷ hex_digit (c / 256 % 16)
    ∷ hex_digit (c / 16 % 16)
    ∷ hex_digit (c % 16)
    ∷ []

unfoldable pub escape : ℕ → Text
unfolding unicode_escape
escape c =
    if c == b'"'
    then b'\\' ∷ b'"' ∷ []
    else if c == b'\\'
    then b'\\' ∷ b'\\' ∷ []
    else if c == 8
    then b'\\' ∷ b'b' ∷ []
    else if c == 9
    then b'\\' ∷ b't' ∷ []
    else if c == 10
    then b'\\' ∷ b'n' ∷ []
    else if c == 12
    then b'\\' ∷ b'f' ∷ []
    else if c == 13
    then b'\\' ∷ b'r' ∷ []
    else if ltb c 32
    then unicode_escape c
    else if leb 0xd800 c && leb c 0xdfff
    then unicode_escape c
    else c ∷ []

unfoldable pub escape_all : Text → Text
escape_all [] = []
escape_all (c ∷ s) = escape c ++ escape_all s

unfoldable pub quote : Text → Text
unfolding escape escape_all
quote s = b'"' ∷ (escape_all s ++ b'"' ∷ [])

-- The decimal digits; a number has fewer digits than the fuel `suc n`.
unfoldable pub digits_from : ℕ → ℕ → Text → Text
digits_from zero n rest = rest
digits_from (suc fuel) n rest =
    let more = digits_from fuel (n / 10) ((b'0' + n % 10) ∷ rest) in
    if ltb n 10 then (b'0' + n) ∷ rest else more

unfoldable pub decimal : ℕ → Text
unfolding digits_from
decimal n = digits_from (suc n) n []

unfoldable pub stringify_value : Value → Text
unfolding decimal quote
stringify_value nothing = codes "null"
stringify_value (natural n) = decimal n
stringify_value (negative n) = b'-' ∷ decimal (suc n)
stringify_value (text s) = quote s

unfoldable pub stringify_members : Frame → Text
unfolding stringify_value
stringify_members [] = []
stringify_members ((k, v) ∷ []) = quote k ++ (b':' ∷ stringify_value v)
stringify_members ((k, v) ∷ rest) =
    quote k ++ (b':' ∷ (stringify_value v ++ (b',' ∷ stringify_members rest)))

unfoldable pub stringify : Frame → Text
unfolding stringify_members
stringify frame = b'{' ∷ (stringify_members frame ++ b'}' ∷ [])

-- The value that `JSON.parse` makes of such a text.
unfoldable pub value_json : Value → Json
value_json nothing = null
value_json (natural n) = number (pos n)
value_json (negative n) = number (negsuc n)
value_json (text s) = string s

unfoldable pub frame_fields : Frame → Fields
unfolding value_json
frame_fields [] = end
frame_fields ((k, v) ∷ rest) = field k (value_json v) (frame_fields rest)
