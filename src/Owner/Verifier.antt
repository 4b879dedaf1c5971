-- ===== src/Owner/Verifier.antt =====
-- `verifyAssertion`, and the key cache that concurrent verifications share.
pub mod Keyset
pub mod Ownership
pub mod Freshness
pub mod Assertion
pub mod Cooldown
use dashboard_rpi.Common.{
  ℕ, Bool, true, false, not, Option, none, some, List, [], ◌∷◌, ◌++◌, if◌then◌else◌, is_empty, Text,
  codes,
}
use dashboard_rpi.Common.Json.{Fields, get}
use dashboard_rpi.Owner.Strings.{read_bounded_string, is_string}
use dashboard_rpi.Owner.Config.{SigningKey, Runtime, Config}
use dashboard_rpi.Owner.Jwt.{ParsedJwt, parse_jwt}
use dashboard_rpi.Owner.Claims.{
  Rejection, token_missing, token_malformed, unsupported_algorithm, key_unavailable,
  signature_invalid, Result, refused, throws, validate_verified_claims,
}
use dashboard_rpi.Owner.Keys.{
  max_kid_length, is_absent_or, KeyCache, Fetch, refresh_signing_keys, Lookup, found, missing,
  stale, unknown_kid, begin_lookup, end_lookup,
}

-- The tests of a token's header: the key's name, or a rejection.
pub data HeaderCheck : Type 0 where
  names : Text → HeaderCheck
  rejects : Rejection → HeaderCheck

unfoldable pub check_header : Fields → HeaderCheck
unfolding is_string is_absent_or read_bounded_string
check_header header =
    if not (is_string (codes "RS256") (get (codes "alg") header))
    then rejects unsupported_algorithm
    else if not (is_absent_or (codes "JWT") (get (codes "typ") header))
    then rejects token_malformed
    else elim (read_bounded_string (get (codes "kid") header) max_kid_length) [
      | none ↦ rejects token_malformed
      | some kid ↦ names kid
    ]

-- The part of `verifyAssertion` after the key is there.
unfoldable pub verify_with_key :
    Runtime → Config → Option ℕ → ParsedJwt → Option SigningKey → Result
verify_with_key r c now jwt none = refused key_unavailable
verify_with_key r c now jwt (some key) =
    elim (r.verify_signature jwt.signing_input key jwt.signature) [
      | none ↦ refused signature_invalid
      | some valid ↦
          if valid then validate_verified_claims r c now jwt.claims else refused signature_invalid
    ]

-- What the clock and the network answer during one verification: the readings of the clock at the
-- lookup, after the fetch and at the claims, and the fetch, where there is one.
pub record Answers : Type 0 where
  pub at_lookup : Option ℕ
  pub fetch : Fetch
  pub at_fetch : Option ℕ
  pub at_claims : Option ℕ

abbrev pub refreshed_lookup : Text → KeyCache × Bool → KeyCache × Option SigningKey
refreshed_lookup kid (cache, refreshed) = (cache, end_lookup refreshed kid cache)

-- `#getSigningKey` without another verification in between; `none` in front is a throw.
unfoldable pub continue_lookup :
    Runtime → Answers → Text → KeyCache × Lookup → KeyCache × Option (Option SigningKey)
continue_lookup r a kid (cache, found key) = (cache, some (some key))
continue_lookup r a kid (cache, missing) = (cache, some none)
continue_lookup r a kid (cache, Lookup.throws) = (cache, none)
continue_lookup r a kid (cache, stale) =
    let (cache', key) = refreshed_lookup kid (refresh_signing_keys r a.fetch a.at_fetch cache) in
    (cache', some key)
continue_lookup r a kid (cache, unknown_kid) =
    let (cache', key) = refreshed_lookup kid (refresh_signing_keys r a.fetch a.at_fetch cache) in
    (cache', some key)

unfoldable pub get_signing_key :
    Runtime → Config → Answers → Text → KeyCache → KeyCache × Option (Option SigningKey)
get_signing_key r c a kid cache = continue_lookup r a kid (begin_lookup c a.at_lookup kid cache)

unfoldable pub with_key :
    Runtime
    → Config
    → Answers
    → ParsedJwt
    → KeyCache × Option (Option SigningKey)
    → KeyCache × Result
with_key r c a jwt (cache, none) = (cache, throws)
with_key r c a jwt (cache, some key) = (cache, verify_with_key r c a.at_claims jwt key)

unfoldable pub verify_checked :
    Runtime → Config → Answers → ParsedJwt → HeaderCheck → KeyCache → KeyCache × Result
verify_checked r c a jwt (rejects reason) cache = (cache, refused reason)
verify_checked r c a jwt (names kid) cache = with_key r c a jwt (get_signing_key r c a kid cache)

unfoldable pub verify_parsed :
    Runtime → Config → Answers → Option ParsedJwt → KeyCache → KeyCache × Result
verify_parsed r c a none cache = (cache, refused token_malformed)
verify_parsed r c a (some jwt) cache = verify_checked r c a jwt (check_header jwt.header) cache

-- `verifyAssertion`.
unfoldable pub verify_assertion :
    Runtime → Config → Answers → Option Text → KeyCache → KeyCache × Result
verify_assertion r c a none cache = (cache, refused token_missing)
verify_assertion r c a (some assertion) cache =
    if is_empty assertion
    then (cache, refused token_missing)
    else verify_parsed r c a (parse_jwt r assertion) cache

-- What concurrent verifications do to the cache, in the order in which they do it: a lookup begins,
-- or a fetch of one of them comes back.
pub data Move : Type 0 where
  begins : Option ℕ → Text → Move
  comes_back : Fetch → Option ℕ → Move

unfoldable pub move : Runtime → Config → Move → KeyCache → KeyCache
move r c (begins now kid) cache = (begin_lookup c now kid cache).0
move r c (comes_back fetch now) cache = (refresh_signing_keys r fetch now cache).0

unfoldable pub moves : Runtime → Config → List Move → KeyCache → KeyCache
moves r c [] cache = cache
moves r c (m ∷ ms) cache = moves r c ms (move r c m cache)
