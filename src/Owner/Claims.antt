-- ===== src/Owner/Claims.antt =====
-- The claims of a token whose signature is right: `#validateVerifiedClaims`.
use dashboard_rpi.Common.{
  ℕ, ◌+◌, ◌/◌, Bool, true, false, not, ◌&&◌, ◌||◌, Option, none, some, List, [], ◌∷◌, ltb, leb,
  if◌then◌else◌, is_empty, length, Text, codes, text_eq,
}
use dashboard_rpi.Common.Json.{Json, Items, nil, cons, string, array, Fields, get}
use dashboard_rpi.Owner.Strings.{
  read_bounded_string, read_numeric_date, is_string, is_valid_email_value, max_email_length,
}
use dashboard_rpi.Owner.Config.{Runtime, Config}

abbrev pub max_subject_length : ℕ
max_subject_length = 512

pub data Rejection : Type 0 where
  token_missing token_malformed unsupported_algorithm key_unavailable : Rejection
  signature_invalid issuer_mismatch audience_mismatch token_not_active : Rejection
  token_expired identity_required owner_mismatch : Rejection

-- `verified` has the identity's email and subject; `throws` is a rejected promise.
pub data Result : Type 0 where
  verified : (email subject : Text) → Result
  refused : Rejection → Result
  throws : Result

-- The elements of an array.
unfoldable pub elements : Items → List Json
elements nil = []
elements (cons v items) = v ∷ elements items

unfoldable pub all_strings : List Json → Bool
all_strings [] = true
all_strings (string s ∷ values) = all_strings values
all_strings (_ ∷ values) = false

-- `value.includes(expected)`.
unfoldable pub includes_string : Text → List Json → Bool
unfolding is_string
includes_string t [] = false
includes_string t (v ∷ values) = is_string t (some v) || includes_string t values

-- `hasExpectedAudience`.
unfoldable pub has_expected_audience : Option Json → Text → Bool
unfolding elements all_strings includes_string
has_expected_audience (some (array items)) expected =
    not (is_empty (elements items))
    && leb (length (elements items)) 16
    && all_strings (elements items)
    && includes_string expected (elements items)
has_expected_audience _ expected = false

-- The tests of time, once the three dates are read; `none` is a clock that throws.
unfoldable pub check_dates : Config → Option ℕ → (email subject : Text) → (exp iat nbf : ℕ) → Result
check_dates c now_ms email subject exp iat nbf =
    if leb exp iat || leb exp nbf then refused token_malformed else elim now_ms [
      | none ↦ throws
      | some now ↦
          if ltb (now / 1000 + c.clock_skew_seconds) iat
            || ltb (now / 1000 + c.clock_skew_seconds) nbf
          then refused token_not_active
          else if leb (exp + c.clock_skew_seconds) (now / 1000)
          then refused token_expired
          else verified email subject
    ]

unfoldable pub dated :
    Config → Option ℕ → (email subject : Text) → (exp iat nbf : Option ℕ) → Result
unfolding check_dates
dated c now_ms email subject (some exp) (some iat) (some nbf) =
    check_dates c now_ms email subject exp iat nbf
dated c now_ms email subject _ _ _ = refused token_malformed

unfoldable pub identified :
    Runtime → Config → Option ℕ → Fields → (email subject : Option Text) → Result
unfolding dated is_valid_email_value read_numeric_date
identified r c now_ms claims (some email) (some subject) =
    if not (is_valid_email_value email)
    then refused identity_required
    else if not (text_eq (r.lower_case email) c.owner_email)
    then refused owner_mismatch
    else dated c now_ms email subject (read_numeric_date (get (codes "exp") claims))
        (read_numeric_date (get (codes "iat") claims))
        (read_numeric_date (get (codes "nbf") claims))
identified r c now_ms claims _ _ = refused identity_required

-- `#validateVerifiedClaims`.
unfoldable pub validate_verified_claims : Runtime → Config → Option ℕ → Fields → Result
unfolding is_string has_expected_audience identified read_bounded_string
validate_verified_claims r c now_ms claims =
    if not (is_string c.issuer (get (codes "iss") claims))
    then refused issuer_mismatch
    else if not (has_expected_audience (get (codes "aud") claims) c.application_audience)
    then refused audience_mismatch
    else if not (is_string (codes "app") (get (codes "type") claims))
    then refused identity_required
    else identified r c now_ms claims
        (read_bounded_string (get (codes "email") claims) max_email_length)
        (read_bounded_string (get (codes "sub") claims) max_subject_length)
