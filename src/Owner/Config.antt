-- ===== src/Owner/Config.antt =====
-- The constructor of `CloudflareAccessOwnerAuthVerifier`. What the runtime gives is a record: the
-- decoders, `toLowerCase`, and the cryptography of node:crypto.
use dashboard_rpi.Common.{
  ℕ, ◌*◌, Bool, true, false, not, ◌&&◌, ◌||◌, Option, none, some, [], ◌∷◌, ◌++◌, ◌==◌, leb,
  if◌then◌else◌, length, Text, codes,
}
use mathlib.Core.List.{reverse}
use dashboard_rpi.Common.Json.{Json}
use dashboard_rpi.Terminal.Platform.{Bytes}
use dashboard_rpi.Owner.Strings.{bounded, is_valid_email_value, max_safe_integer}

-- A public key is imported from its modulus and exponent.
pub record SigningKey : Type 0 where
  pub modulus : Text
  pub exponent : Text

-- `verify_signature` answers `none` where the library throws.
pub record Runtime : Type 0 where
  pub base64url_decode : Text → Bytes
  pub utf8_text : Bytes → Text
  pub json_parse : Text → Option Json
  pub lower_case : Text → Text
  pub can_import : SigningKey → Bool
  pub verify_signature : Text → SigningKey → Bytes → Option Bool

abbrev pub max_audience_length : ℕ
max_audience_length = 512

pub record Options : Type 0 where
  pub team_name : Text
  pub application_audience : Text
  pub owner_email : Text
  pub key_cache_ttl_ms : Option ℕ
  pub request_timeout_ms : Option ℕ
  pub unknown_kid_refresh_cooldown_ms : Option ℕ
  pub clock_skew_seconds : Option ℕ

pub record Config : Type 0 where
  pub issuer : Text
  pub application_audience : Text
  pub owner_email : Text
  pub key_cache_ttl_ms : ℕ
  pub request_timeout_ms : ℕ
  pub unknown_kid_refresh_cooldown_ms : ℕ
  pub clock_skew_seconds : ℕ

unfoldable pub is_team_edge : ℕ → Bool
is_team_edge c = (leb b'a' c && leb c b'z') || (leb b'0' c && leb c b'9')

unfoldable pub all_team : Text → Bool
unfolding is_team_edge
all_team [] = true
all_team (c ∷ s) = (is_team_edge c || c == b'-') && all_team s

unfoldable pub starts_with_edge : Text → Bool
unfolding is_team_edge
starts_with_edge [] = false
starts_with_edge (c ∷ s) = is_team_edge c

-- `TEAM_NAME_PATTERN`: letters, digits and inner dashes, at most 63.
unfoldable pub matches_team_name : Text → Bool
unfolding all_team starts_with_edge
matches_team_name s =
    starts_with_edge s && starts_with_edge (reverse s) && all_team s && leb (length s) 63

unfoldable pub resolved : Option ℕ → ℕ → ℕ
resolved none fallback = fallback
resolved (some value) fallback = value

-- `readBoundedPositiveOption` at an option that is an integer; `none` is a throw.
unfoldable pub read_bounded_positive_option : Option ℕ → ℕ → ℕ → ℕ → Option ℕ
unfolding resolved
read_bounded_positive_option value fallback min max =
    let n = resolved value fallback in
    if leb n max_safe_integer && leb min n && leb n max then some n else none

unfoldable pub is_some : Option Text → Bool
is_some none = false
is_some (some _) = true

abbrev pub issuer_of : Text → Text
issuer_of team_name = codes "https://" ++ (team_name ++ codes ".cloudflareaccess.com")

unfoldable pub configured :
    Runtime → Options → (ttl timeout cooldown skew : Option ℕ) → Option Config
configured r o (some ttl) (some timeout) (some cooldown) (some skew) = some (record {
  issuer = issuer_of o.team_name;
  application_audience = o.application_audience;
  owner_email = r.lower_case o.owner_email;
  key_cache_ttl_ms = ttl;
  request_timeout_ms = timeout;
  unknown_kid_refresh_cooldown_ms = cooldown;
  clock_skew_seconds = skew;
})
configured r o _ _ _ _ = none

-- The constructor; `none` is a throw.
unfoldable pub construct : Runtime → Options → Option Config
unfolding matches_team_name bounded is_valid_email_value is_some read_bounded_positive_option
    configured
construct r o =
    if not (matches_team_name o.team_name)
      || not (is_some (bounded max_audience_length o.application_audience))
      || not (is_valid_email_value o.owner_email)
    then none
    else configured r o
        (read_bounded_positive_option o.key_cache_ttl_ms (5 * 60 * 1000) 1000 (60 * 60 * 1000))
        (read_bounded_positive_option o.request_timeout_ms 3000 250 10000)
        (read_bounded_positive_option o.unknown_kid_refresh_cooldown_ms 30000 1000 (5 * 60 * 1000))
        (read_bounded_positive_option o.clock_skew_seconds 30 1 300)
