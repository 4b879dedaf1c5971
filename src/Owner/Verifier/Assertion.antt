-- ===== src/Owner/Verifier/Assertion.antt =====
-- What a verified assertion shows.
use dashboard_rpi.Common.{
  ℕ, ◌≡◌, inl, inr, refl, true, Option, none, some, Text, codes, arith, Option-cases,
}
use dashboard_rpi.Common.Json.{string, Fields, get}
use dashboard_rpi.Owner.Strings.{read_bounded_string}
use dashboard_rpi.Owner.Strings.Readers.{is_string-true, read_bounded_string-some}
use dashboard_rpi.Owner.Config.{SigningKey, Runtime, Config}
use dashboard_rpi.Owner.Jwt.{ParsedJwt, parse_jwt}
use dashboard_rpi.Owner.Claims.{verified, validate_verified_claims}
use dashboard_rpi.Owner.Keys.{max_kid_length, KeyCache}
use dashboard_rpi.Owner.Verifier.{
  HeaderCheck, names, rejects, check_header, verify_with_key, Answers, get_signing_key, with_key,
  verify_checked, verify_parsed, verify_assertion,
}
use dashboard_rpi.Owner.Verifier.Ownership.{Names, InForce, validate-Names}
use dashboard_rpi.Owner.Verifier.Freshness.{Fresh, continue_lookup-Fresh}

-- What is known of an assertion that was verified, with the cache as it is then.
pub record Owns (r : Runtime) (c : Config) (a : Answers) (assertion : Option Text)
    (cache : KeyCache) (email subject : Text) : Type 0 where
  pub token : Text
  pub jwt : ParsedJwt
  pub kid : Text
  pub key : SigningKey
  pub given : assertion ≡ some token
  pub parses : parse_jwt r token ≡ some jwt
  pub algorithm : get (codes "alg") jwt.header ≡ some (string (codes "RS256"))
  pub key_name : get (codes "kid") jwt.header ≡ some (string kid)
  pub fresh : Fresh c a kid key cache
  pub signed : r.verify_signature jwt.signing_input key jwt.signature ≡ some true
  pub owner : Names r c jwt.claims email subject
  pub in_force : InForce c jwt.claims a.at_claims

check_header-names :
    (header : Fields) (kid : Text)
    → check_header header ≡ names kid
    → (get (codes "alg") header ≡ some (string (codes "RS256")))
      × (get (codes "kid") header ≡ some (string kid))
unfolding check_header
check_header-names header kid e =
    elim (Option-cases (read_bounded_string (get (codes "kid") header) max_kid_length)) [
      | inl unread ↦ absurd (ground arith)
      | inr (k, read) ↦ (
        is_string-true (codes "RS256") _ (ground arith),
        read_bounded_string-some _ max_kid_length kid (ground arith),
      )
    ]

verify_with_key-verified :
    (r : Runtime) (c : Config) (now : Option ℕ) (jwt : ParsedJwt) (k : Option SigningKey)
    (email subject : Text)
    → verify_with_key r c now jwt k ≡ verified email subject
    → (key : SigningKey) × (k ≡ some key)
      × (r.verify_signature jwt.signing_input key jwt.signature ≡ some true)
      × (validate_verified_claims r c now jwt.claims ≡ verified email subject)
unfolding verify_with_key
verify_with_key-verified r c now jwt none email subject e = absurd (ground arith)
verify_with_key-verified r c now jwt (some key) email subject e =
    (key, refl, ground arith, ground arith)

with_key-verified :
    (r : Runtime) (c : Config) (a : Answers) (jwt : ParsedJwt) (kid : Text)
    (cache cache' : KeyCache) (l : KeyCache × Option (Option SigningKey)) (email subject : Text)
    → get_signing_key r c a kid cache ≡ l
    → with_key r c a jwt l ≡ (cache', verified email subject)
    → (key : SigningKey) × Fresh c a kid key cache'
      × (r.verify_signature jwt.signing_input key jwt.signature ≡ some true)
      × (validate_verified_claims r c a.at_claims jwt.claims ≡ verified email subject)
unfolding with_key get_signing_key
with_key-verified r c a jwt kid cache cache' (k, none) email subject g e = absurd (ground arith)
with_key-verified r c a jwt kid cache cache' (k, some o) email subject g e =
    let (key, is_key, signed, valid) =
      verify_with_key-verified r c a.at_claims jwt o email subject (ground arith) in
    (key, continue_lookup-Fresh r c a kid key cache cache' _ refl (ground arith), signed, valid)

verify_checked-verified :
    (r : Runtime) (c : Config) (a : Answers) (jwt : ParsedJwt) (h : HeaderCheck)
    (cache cache' : KeyCache) (email subject : Text)
    → verify_checked r c a jwt h cache ≡ (cache', verified email subject)
    → (kid : Text) × (h ≡ names kid)
      × (with_key r c a jwt (get_signing_key r c a kid cache) ≡ (cache', verified email subject))
unfolding verify_checked
verify_checked-verified r c a jwt (rejects reason) cache cache' email subject e =
    absurd (ground arith)
verify_checked-verified r c a jwt (names kid) cache cache' email subject e = (kid, refl, e)

verify_parsed-verified :
    (r : Runtime) (c : Config) (a : Answers) (o : Option ParsedJwt) (cache cache' : KeyCache)
    (email subject : Text)
    → verify_parsed r c a o cache ≡ (cache', verified email subject)
    → (jwt : ParsedJwt) × (o ≡ some jwt)
      × (verify_checked r c a jwt (check_header jwt.header) cache
          ≡ (cache', verified email subject))
unfolding verify_parsed
verify_parsed-verified r c a none cache cache' email subject e = absurd (ground arith)
verify_parsed-verified r c a (some jwt) cache cache' email subject e = (jwt, refl, e)

-- When an assertion is verified with an email and a subject, it is a token that parses; its header
-- says RS256 and names a key that the cache holds then, out of a key set fetched in this very
-- verification or less than the time to live before it; the runtime accepts the token's signature
-- under that key; and its claims are of the configured issuer, for the configured application among
-- others, of type app, with that email, which in lower case is the owner's, and that subject, and
-- with dates that hold the present within the allowed skew.
pub verify_assertion-Owns :
    (r : Runtime) (c : Config) (a : Answers) (assertion : Option Text) (cache cache' : KeyCache)
    (email subject : Text)
    → verify_assertion r c a assertion cache ≡ (cache', verified email subject)
    → Owns r c a assertion cache' email subject
unfolding verify_assertion
verify_assertion-Owns r c a none cache cache' email subject e = absurd (ground arith)
verify_assertion-Owns r c a (some token) cache cache' email subject e =
    let (jwt, parses, checked) =
      verify_parsed-verified r c a (parse_jwt r token) cache cache' email subject (ground arith) in
    let (kid, named, keyed) =
      verify_checked-verified r c a jwt (check_header jwt.header) cache cache' email subject
        checked in
    let (key, fresh, signed, valid) =
      with_key-verified r c a jwt kid cache cache' _ email subject refl keyed in
    let (algorithm, key_name) = check_header-names jwt.header kid named in
    let (owner, in_force) = validate-Names r c a.at_claims jwt.claims email subject valid in
    record {
      token = token;
      jwt = jwt;
      kid = kid;
      key = key;
      given = refl;
      parses = parses;
      algorithm = algorithm;
      key_name = key_name;
      fresh = fresh;
      signed = signed;
      owner = owner;
      in_force = in_force;
    }
