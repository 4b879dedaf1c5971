-- ===== src/Owner/Keys.antt =====
-- The signing keys of cloudflare-access-owner-auth.ts: the reading of a key set, and the cache. The
-- map of keys is an association list in insertion order. A time of minus infinity is `none`; the
-- cache's intervals are positive, so a truncated difference of times is below them where the
-- difference is.
pub mod Collecting
use dashboard_rpi.Common.{
  ℕ, ◌-◌, Bool, true, false, not, ◌&&◌, ◌||◌, Option, none, some, List, [], ◌∷◌, ◌++◌, ltb, leb,
  if◌then◌else◌, is_empty, length, Text, codes, text_eq, byte_length,
}
use dashboard_rpi.Common.Json.{Json, array, Fields, get}
use dashboard_rpi.Terminal.Protocol.{as_record}
use dashboard_rpi.Owner.Strings.{read_bounded_string, is_string, matches_base64url}
use dashboard_rpi.Owner.Config.{SigningKey, Runtime, Config}
use dashboard_rpi.Owner.Claims.{elements}

abbrev pub max_jwks_body_bytes : ℕ
max_jwks_body_bytes = 131072

abbrev pub max_jwks_keys : ℕ
max_jwks_keys = 16

abbrev pub max_kid_length : ℕ
max_kid_length = 256

abbrev pub SigningKeys : Type 0
SigningKeys = List (Text × SigningKey)

unfoldable pub find_key : Text → SigningKeys → Option SigningKey
find_key kid [] = none
find_key kid ((k, key) ∷ keys) = if text_eq k kid then some key else find_key kid keys

unfoldable pub has_key : Text → SigningKeys → Bool
has_key kid [] = false
has_key kid ((k, key) ∷ keys) = text_eq k kid || has_key kid keys

-- A member that is absent or this string.
unfoldable pub is_absent_or : Text → Option Json → Bool
unfolding is_string
is_absent_or t none = true
is_absent_or t (some v) = is_string t (some v)

unfoldable pub jwk_of : (kid modulus exponent : Option Text) → Option (Text × SigningKey)
unfolding matches_base64url
jwk_of (some kid) (some modulus) (some exponent) =
    if matches_base64url modulus && matches_base64url exponent
    then some (kid, record { modulus = modulus; exponent = exponent })
    else none
jwk_of _ _ _ = none

unfoldable pub read_jwk_record : Option Fields → Option (Text × SigningKey)
unfolding is_string is_absent_or jwk_of read_bounded_string
read_jwk_record none = none
read_jwk_record (some value) =
    if not (is_string (codes "RSA") (get (codes "kty") value))
      || not (is_absent_or (codes "RS256") (get (codes "alg") value))
      || not (is_absent_or (codes "sig") (get (codes "use") value))
    then none
    else jwk_of (read_bounded_string (get (codes "kid") value) max_kid_length)
        (read_bounded_string (get (codes "n") value) 2048)
        (read_bounded_string (get (codes "e") value) 32)

-- `readRsaSigningJwk`.
unfoldable pub read_rsa_signing_jwk : Json → Option (Text × SigningKey)
unfolding read_jwk_record as_record
read_rsa_signing_jwk value = read_jwk_record (as_record (some value))

-- The end of the loop's body: a key that cannot be imported is passed over.
unfoldable pub set_key : Runtime → Text → SigningKey → SigningKeys → SigningKeys
set_key r kid key keys = if r.can_import key then keys ++ (kid, key) ∷ [] else keys

-- The loop of `parseSigningKeys`.
unfoldable pub collect_keys : Runtime → SigningKeys → List Json → Option SigningKeys
unfolding read_rsa_signing_jwk has_key set_key
collect_keys r keys [] = some keys
collect_keys r keys (value ∷ values) = elim (read_rsa_signing_jwk value) [
  | none ↦ collect_keys r keys values
  | some (kid, key) ↦ elim (has_key kid keys) [
    | true ↦ none
    | false ↦ collect_keys r (set_key r kid key keys) values
  ]
]

unfoldable pub keys_of_member : Runtime → Option Json → Option SigningKeys
unfolding collect_keys elements
keys_of_member r (some (array items)) =
    if ltb max_jwks_keys (length (elements items)) then none else collect_keys r [] (elements items)
keys_of_member r _ = none

-- `parseSigningKeys`.
unfoldable pub parse_signing_keys : Runtime → Text → Option SigningKeys
unfolding keys_of_member as_record
parse_signing_keys r body = elim (as_record (r.json_parse body)) [
  | none ↦ none
  | some value ↦ keys_of_member r (get (codes "keys") value)
]

pub record KeyCache : Type 0 where
  pub keys : SigningKeys
  pub keys_fetched_at : Option ℕ
  pub last_unknown_kid_refresh_at : Option ℕ

abbrev pub empty_cache : KeyCache
empty_cache = record { keys = []; keys_fetched_at = none; last_unknown_kid_refresh_at = none }

-- What a request for the key set comes to.
pub data Fetch : Type 0 where
  fails : Fetch
  responds : (ok : Bool) (body : Text) → Fetch

-- The keys are replaced before the clock is read, which throws at `none`.
unfoldable pub store_keys : Option ℕ → Option SigningKeys → KeyCache → KeyCache × Bool
store_keys now none cache = (cache, false)
store_keys now (some keys) cache = if is_empty keys then (cache, false) else elim now [
  | none ↦ (record cache { keys = keys }, false)
  | some t ↦ (record cache { keys = keys; keys_fetched_at = some t }, true)
]

-- `#refreshSigningKeys`, once the response is there.
unfoldable pub refresh_signing_keys : Runtime → Fetch → Option ℕ → KeyCache → KeyCache × Bool
unfolding store_keys
refresh_signing_keys r fails now cache = (cache, false)
refresh_signing_keys r (responds ok body) now cache =
    if not ok || ltb max_jwks_body_bytes (byte_length body)
    then (cache, false)
    else store_keys now (parse_signing_keys r body) cache

-- What `#getSigningKey` does before it awaits: an answer, or the reason of a request.
pub data Lookup : Type 0 where
  found : SigningKey → Lookup
  missing throws stale unknown_kid : Lookup

unfoldable pub has_passed : ℕ → ℕ → Option ℕ → Bool
has_passed interval now none = true
has_passed interval now (some t) = leb interval (now - t)

unfoldable pub begin_lookup : Config → Option ℕ → Text → KeyCache → KeyCache × Lookup
unfolding has_passed
begin_lookup c none kid cache = (cache, throws)
begin_lookup c (some now) kid cache =
    if is_empty cache.keys || has_passed c.key_cache_ttl_ms now cache.keys_fetched_at
    then (cache, stale)
    else elim (find_key kid cache.keys) [
      | some key ↦ (cache, found key)
      | none ↦
          if has_passed c.unknown_kid_refresh_cooldown_ms now cache.last_unknown_kid_refresh_at
          then (record cache { last_unknown_kid_refresh_at = some now }, unknown_kid)
          else (cache, missing)
    ]

-- What it does after the request: `refreshed` is the outcome of `#refreshSigningKeys`.
unfoldable pub end_lookup : (refreshed : Bool) → Text → KeyCache → Option SigningKey
end_lookup refreshed kid cache = if refreshed then find_key kid cache.keys else none
