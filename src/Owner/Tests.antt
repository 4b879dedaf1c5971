-- ===== src/Owner/Tests.antt =====
-- The verifier on a concrete assertion: a runtime whose decoders are the identity.
use dashboard_rpi.Terminal.Protocol.{as_record}
use dashboard_rpi.Common.{
  utf8_width, ◌+◌, ◌*◌, ◌-◌, ◌≤◌, ◌≡◌, refl, true, Option, none, some, List, [], ◌∷◌, length, All,
  arith, Text, codes, text_eq, if◌then◌else◌, byte_length,
}
use dashboard_rpi.Common.Json.{
  Json, string, number, pos, array, object, nil, cons, Fields, field, end, get,
}
use dashboard_rpi.Owner.Strings
use dashboard_rpi.Owner.Strings.{read_bounded_string}
use dashboard_rpi.Owner.Config.{Runtime, Options, Config, construct, issuer_of}
use dashboard_rpi.Owner.Jwt
use dashboard_rpi.Owner.Claims
use dashboard_rpi.Owner.Claims.{verified}
use dashboard_rpi.Owner.Keys
use dashboard_rpi.Owner.Keys.{KeyCache, empty_cache, responds}
use dashboard_rpi.Owner.Verifier
use dashboard_rpi.Owner.Verifier.{Answers, verify_assertion, begins, comes_back, Move}
use dashboard_rpi.Owner.Verifier.Assertion.{Owns, verify_assertion-Owns}
use dashboard_rpi.Owner.Verifier.Cooldown.{Within, Spaced, refreshes, refreshes_limit}
use dashboard_rpi.Owner.Verifier.Keyset.{CacheWellFormed, moves-WellFormed}
use dashboard_rpi.Server.Wiring.{owner_options}

abbrev jwt_header : Fields
jwt_header =
    field (codes "alg") (string (codes "RS256")) (field (codes "kid") (string (codes "k1")) end)

abbrev issuer : Text
issuer = issuer_of (codes "team")

abbrev jwt_claims : Fields
jwt_claims = field (codes "iss") (string issuer) (
    field (codes "aud") (array (cons (string (codes "app-1")) nil)) (
      field (codes "type") (string (codes "app")) (
        field (codes "email") (string (codes "o@h.lv")) (
          field (codes "sub") (string (codes "u1")) (
            field (codes "exp") (number (pos 100))
              (field (codes "iat") (number (pos 1)) (field (codes "nbf") (number (pos 1)) end)))))))

abbrev jwk : Fields
jwk = field (codes "kty") (string (codes "RSA")) (
    field (codes "kid") (string (codes "k1"))
      (field (codes "n") (string (codes "AQAB")) (field (codes "e") (string (codes "AQAB")) end)))

abbrev parse_text : Text → Option Json
parse_text t =
    if text_eq t (codes "head")
    then some (object jwt_header)
    else if text_eq t (codes "body")
    then some (object jwt_claims)
    else if text_eq t (codes "keys")
    then some (object (field (codes "keys") (array (cons (object jwk) nil)) end))
    else none

abbrev pub runtime : Runtime
runtime = record {
  base64url_decode = λ t. t;
  utf8_text = λ t. t;
  json_parse = parse_text;
  lower_case = λ t. t;
  can_import = λ _. true;
  verify_signature = λ _ _ _. some true;
}

abbrev options : Options
options = owner_options (codes "team") (codes "app-1") (codes "o@h.lv")

abbrev pub config : Config
config = record {
  issuer = issuer;
  application_audience = codes "app-1";
  owner_email = codes "o@h.lv";
  key_cache_ttl_ms = 300000;
  request_timeout_ms = 3000;
  unknown_kid_refresh_cooldown_ms = 30000;
  clock_skew_seconds = 30;
}

abbrev pub answers : Answers
answers = record {
  at_lookup = some 2000;
  fetch = responds true (codes "keys");
  at_fetch = some 2000;
  at_claims = some 2000;
}

abbrev pub assertion : Option Text
assertion = some (codes "head.body.sign")

abbrev pub cache : KeyCache
cache = record {
  keys = (codes "k1", record { modulus = codes "AQAB"; exponent = codes "AQAB" }) ∷ [];
  keys_fetched_at = some 2000;
  last_unknown_kid_refresh_at = none;
}

constructed : construct runtime options ≡ some config
unfolding construct Strings.utf16_length text_eq Strings.trim Strings.is_space Strings.has_space
constructed = refl

pub verifies :
    verify_assertion runtime config answers assertion empty_cache
    ≡ (cache, verified (codes "o@h.lv") (codes "u1"))
unfolding verify_assertion Verifier.verify_parsed Jwt.parse_jwt text_eq Verifier.verify_checked
    Verifier.check_header get Strings.trim Strings.is_space Strings.has_space Verifier.with_key
    Verifier.get_signing_key Verifier.continue_lookup Keys.begin_lookup Keys.refresh_signing_keys
    Verifier.verify_with_key byte_length Keys.end_lookup utf8_width Claims.all_strings
    Claims.check_dates Claims.dated Claims.elements Claims.has_expected_audience Claims.identified
    Claims.includes_string Claims.validate_verified_claims Jwt.is_sized
    Jwt.is_valid_base64url_segment Jwt.jwt_of Jwt.parse_json_segment Jwt.parse_segments Jwt.prepend
    Jwt.split_dot Keys.collect_keys Keys.find_key Keys.has_key Keys.has_passed Keys.is_absent_or
    Keys.jwk_of Keys.keys_of_member Keys.parse_signing_keys Keys.read_jwk_record
    Keys.read_rsa_signing_jwk Keys.set_key Keys.store_keys Strings.all_base64url Strings.bounded
    Strings.drop_spaces Strings.index_of Strings.is_at Strings.is_base64url Strings.is_string
    Strings.is_valid_email_value Strings.last_index_of Strings.later Strings.matches_base64url
    read_bounded_string Strings.read_numeric_date Strings.utf16_length Strings.utf16_width as_record
verifies = refl

pub verifies_again :
    verify_assertion runtime config answers assertion cache
    ≡ (cache, verified (codes "o@h.lv") (codes "u1"))
unfolding verify_assertion Verifier.verify_parsed Jwt.parse_jwt text_eq Verifier.verify_checked
    Verifier.check_header get Strings.trim Strings.is_space Strings.has_space Verifier.with_key
    Verifier.get_signing_key Verifier.continue_lookup Keys.begin_lookup Keys.find_key
    Verifier.verify_with_key Claims.validate_verified_claims byte_length utf8_width
    Claims.all_strings Claims.check_dates Claims.dated Claims.elements Claims.has_expected_audience
    Claims.identified Claims.includes_string Jwt.is_sized Jwt.is_valid_base64url_segment Jwt.jwt_of
    Jwt.parse_json_segment Jwt.parse_segments Jwt.prepend Jwt.split_dot Keys.collect_keys
    Keys.end_lookup Keys.has_key Keys.has_passed Keys.is_absent_or Keys.jwk_of Keys.keys_of_member
    Keys.parse_signing_keys Keys.read_jwk_record Keys.read_rsa_signing_jwk Keys.refresh_signing_keys
    Keys.set_key Keys.store_keys Strings.all_base64url Strings.bounded Strings.drop_spaces
    Strings.index_of Strings.is_at Strings.is_base64url Strings.is_string
    Strings.is_valid_email_value Strings.last_index_of Strings.later Strings.matches_base64url
    read_bounded_string Strings.read_numeric_date Strings.utf16_length Strings.utf16_width as_record
verifies_again = refl

verify_assertion-Owns_example :
    Owns runtime config answers assertion cache (codes "o@h.lv") (codes "u1")
verify_assertion-Owns_example =
    verify_assertion-Owns runtime config answers assertion empty_cache cache (codes "o@h.lv")
      (codes "u1") verifies

abbrev lookups : List Move
lookups =
    begins (some 5000) (codes "k2")
    ∷ begins (some 6000) (codes "k3")
    ∷ comes_back (responds true (codes "keys")) (some 7000)
    ∷ begins (some 40000) (codes "k2")
    ∷ []

asked_twice : refreshes runtime config lookups cache ≡ 5000 ∷ 40000 ∷ []
unfolding refreshes Keys.begin_lookup Keys.find_key text_eq Keys.refresh_signing_keys byte_length
    utf8_width Keys.parse_signing_keys get Strings.utf16_length Strings.trim Strings.is_space
    Strings.has_space
asked_twice = refl

readings : All (Within 5000 40000) lookups
unfolding Within
readings = (
  (omega arith, omega arith),
  ((omega arith, omega arith), (tt, ((omega arith, omega arith), tt))),
)

refreshes_limit_example :
    Spaced 30000 none (refreshes runtime config lookups cache)
    × (length (refreshes runtime config lookups cache) * 30000 ≤ (40000 - 5000) + 30000)
refreshes_limit_example =
    refreshes_limit runtime options config lookups cache 5000 40000 constructed readings
      (omega arith)

moves-WellFormed_example :
    CacheWellFormed runtime (Verifier.moves runtime config lookups empty_cache)
moves-WellFormed_example = moves-WellFormed runtime config lookups
