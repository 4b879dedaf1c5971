-- ===== src/Owner/Strings/Readers.antt =====
-- What the readers of cloudflare-access-owner-auth.ts have seen where they answer.
use dashboard_rpi.Common.{ℕ, ◌≡◌, true, Option, none, some, Text, text_eq_iff, arith}
use dashboard_rpi.Common.Json.{Json, string, number, pos}
use dashboard_rpi.Owner.Strings.{bounded, read_bounded_string, read_numeric_date, is_string}

pub is_string-true : (t : Text) (o : Option Json) → is_string t o ≡ true → o ≡ some (string t)
unfolding is_string
is_string-true t none e = cc
is_string-true t (some v) e = string_only t v e
  where
    string_only :
        (t : Text) (v : Json)
        → is_string t (some v) ≡ true
        → ◌≡◌ {A = Option Json} (some v) (some (string t))
    string_only t (string s) e = ground (arith, text_eq_iff s t)
    string_only t Json.null e = cc
    string_only t (Json.boolean _) e = cc
    string_only t (number _) e = cc
    string_only t (Json.array _) e = cc
    string_only t (Json.object _) e = cc

bounded-some : (max : ℕ) (s t : Text) → bounded max s ≡ some t → s ≡ t
unfolding bounded
bounded-some max s t e = ground arith

pub read_bounded_string-some :
    (o : Option Json) (max : ℕ) (t : Text)
    → read_bounded_string o max ≡ some t
    → o ≡ some (string t)
unfolding read_bounded_string
read_bounded_string-some (some (string s)) max t e = ground (arith, bounded-some max s t)
read_bounded_string-some none max t e = cc
read_bounded_string-some (some Json.null) max t e = cc
read_bounded_string-some (some (Json.boolean _)) max t e = cc
read_bounded_string-some (some (number _)) max t e = cc
read_bounded_string-some (some (Json.array _)) max t e = cc
read_bounded_string-some (some (Json.object _)) max t e = cc

pub read_numeric_date-some :
    (o : Option Json) (n : ℕ) → read_numeric_date o ≡ some n → o ≡ some (number (pos n))
unfolding read_numeric_date
read_numeric_date-some o n e = ground arith
