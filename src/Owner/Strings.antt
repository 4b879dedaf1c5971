-- ===== src/Owner/Strings.antt =====
-- The readers of strings of cloudflare-access-owner-auth.ts. Lengths and indices of JavaScript
-- strings count UTF-16 units.
pub mod Readers
use dashboard_rpi.Common.{
  ℕ, ◌+◌, ◌-◌, Bool, true, false, not, ◌&&◌, ◌||◌, Option, none, some, List, [], ◌∷◌, ◌++◌, ◌==◌,
  ltb, leb, if◌then◌else◌, is_empty, length, Text, text_eq,
}
use mathlib.Core.List.{reverse}
use dashboard_rpi.Common.Json.{Json, string, number, Number, pos}

unfoldable pub utf16_width : ℕ → ℕ
utf16_width c = if ltb c 0x10000 then 1 else 2

-- `value.length`.
unfoldable pub utf16_length : Text → ℕ
unfolding utf16_width
utf16_length [] = 0
utf16_length (c ∷ s) = utf16_width c + utf16_length s

-- `\s`, which is also what `trim` removes.
unfoldable pub is_space : ℕ → Bool
is_space c =
    (leb 9 c && leb c 13)
    || c == 32
    || c == 0xa0
    || c == 0x1680
    || (leb 0x2000 c && leb c 0x200a)
    || c == 0x2028
    || c == 0x2029
    || c == 0x202f
    || c == 0x205f
    || c == 0x3000
    || c == 0xfeff

unfoldable pub has_space : Text → Bool
has_space [] = false
has_space (c ∷ s) = is_space c || has_space s

unfoldable pub drop_spaces : Text → Text
drop_spaces [] = []
drop_spaces (c ∷ s) = if is_space c then drop_spaces s else c ∷ s

-- `value.trim()`.
unfoldable pub trim : Text → Text
unfolding drop_spaces
trim value = reverse (drop_spaces (reverse (drop_spaces value)))

unfoldable pub bounded : ℕ → Text → Option Text
bounded max_length value =
    if is_empty value || ltb max_length (utf16_length value)
    then none
    else if not (text_eq value (trim value)) || has_space value
    then none
    else some value

-- `readBoundedString`; `none` is null.
unfoldable pub read_bounded_string : Option Json → ℕ → Option Text
unfolding bounded
read_bounded_string (some (string value)) max_length = bounded max_length value
read_bounded_string _ max_length = none

unfoldable pub later : ℕ → Option ℕ → Option ℕ
later width none = none
later width (some i) = some (width + i)

-- `value.indexOf(c)` and `value.lastIndexOf(c)` for one character; `none` is -1.
unfoldable pub index_of : ℕ → Text → Option ℕ
unfolding later
index_of c [] = none
index_of c (d ∷ s) = if d == c then some 0 else later (utf16_width d) (index_of c s)

unfoldable pub last_index_of : ℕ → Text → Option ℕ
unfolding later
last_index_of c [] = none
last_index_of c (d ∷ s) = elim (last_index_of c s) [
  | some i ↦ some (utf16_width d + i)
  | none ↦ if d == c then some 0 else none
]

unfoldable pub is_at : ℕ → Option ℕ → Bool
is_at i none = false
is_at i (some j) = i == j

abbrev pub max_email_length : ℕ
max_email_length = 320

-- `isValidEmailValue`.
unfoldable pub is_valid_email_value : Text → Bool
unfolding bounded index_of last_index_of is_at
is_valid_email_value value = elim (bounded max_email_length value) [
  | none ↦ false
  | some _ ↦ elim (index_of b'@' value) [
    | none ↦ false
    | some at ↦ ltb 0 at && is_at at (last_index_of b'@' value) && ltb at (utf16_length value - 1)
  ]
]

unfoldable pub is_base64url : ℕ → Bool
is_base64url c =
    (leb b'A' c && leb c b'Z')
    || (leb b'a' c && leb c b'z')
    || (leb b'0' c && leb c b'9')
    || c == b'_'
    || c == b'-'

unfoldable pub all_base64url : Text → Bool
unfolding is_base64url
all_base64url [] = true
all_base64url (c ∷ s) = is_base64url c && all_base64url s

-- `BASE64URL_PATTERN`, `/^[A-Za-z0-9_-]+$/`.
unfoldable pub matches_base64url : Text → Bool
unfolding all_base64url
matches_base64url s = not (is_empty s) && all_base64url s

abbrev pub max_safe_integer : ℕ
max_safe_integer = 9007199254740991

-- `readNumericDate`.
unfoldable pub read_numeric_date : Option Json → Option ℕ
read_numeric_date (some (number (pos n))) = if leb n max_safe_integer then some n else none
read_numeric_date _ = none

-- Whether a member is this string.
unfoldable pub is_string : Text → Option Json → Bool
is_string t (some (string s)) = text_eq s t
is_string t _ = false
