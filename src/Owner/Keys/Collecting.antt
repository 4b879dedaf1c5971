-- ===== src/Owner/Keys/Collecting.antt =====
-- What the reading of a key set gives.
use dashboard_rpi.Common.{
  ℕ, suc, ◌+◌, ◌≤◌, ◌≡◌, inl, inr, true, false, Option, none, some, List, [], ◌∷◌, ◌++◌, length,
  length-append, Text, text_eq, text_eq_iff, arith, Option-cases, Bool-cases, codes,
}
use dashboard_rpi.Common.Json.{Json, array, get}
use dashboard_rpi.Terminal.Protocol.{as_record}
use dashboard_rpi.Owner.Config.{SigningKey, Runtime}
use dashboard_rpi.Owner.Claims.{elements}
use dashboard_rpi.Owner.Keys.{
  SigningKeys, has_key, read_rsa_signing_jwk, set_key, collect_keys, keys_of_member,
  parse_signing_keys,
}

-- Keys that the runtime imports, no two of one name.
unfoldable pub Importable : Runtime → SigningKeys → Type 0
Importable r [] = Unit
Importable r ((kid, key) ∷ keys) = (r.can_import key ≡ true) × Importable r keys

unfoldable pub Distinct : SigningKeys → Type 0
Distinct [] = Unit
Distinct ((kid, key) ∷ keys) = (has_key kid keys ≡ false) × Distinct keys

pub record KeysWellFormed (r : Runtime) (keys : SigningKeys) : Type 0 where
  pub few : length keys ≤ 16
  pub distinct : Distinct keys
  pub importable : Importable r keys

has_key-append :
    (kid k : Text) (key : SigningKey) (keys : SigningKeys)
    → has_key kid keys ≡ false
    → text_eq k kid ≡ false
    → has_key kid (keys ++ (k, key) ∷ []) ≡ false
unfolding has_key
has_key-append kid k key [] absent other = ground arith
has_key-append kid k key ((k', key') ∷ keys) absent other =
    let rest = has_key-append kid k key keys (ground arith) other in ground arith

text_eq-swap : (s t : Text) → text_eq s t ≡ false → text_eq t s ≡ false
text_eq-swap s t e = ground (arith, text_eq_iff s t, text_eq_iff t s)

Distinct-append :
    (kid : Text) (key : SigningKey) (keys : SigningKeys)
    → Distinct keys
    → has_key kid keys ≡ false
    → Distinct (keys ++ (kid, key) ∷ [])
unfolding Distinct has_key
Distinct-append kid key [] distinct absent = ground arith
Distinct-append kid key ((k, key') ∷ keys) (here, distinct) absent =
    let other : text_eq k kid ≡ false = ground arith in
    (
      has_key-append k kid key keys here (text_eq-swap k kid other),
      Distinct-append kid key keys distinct (ground arith),
    )

Importable-append :
    (r : Runtime) (kid : Text) (key : SigningKey) (keys : SigningKeys)
    → Importable r keys
    → r.can_import key ≡ true
    → Importable r (keys ++ (kid, key) ∷ [])
unfolding Importable
Importable-append r kid key [] ok can = (can, tt)
Importable-append r kid key (k ∷ keys) (here, ok) can =
    (here, Importable-append r kid key keys ok can)

-- A step of the loop over the key set, with the number of elements that are left.
record Collected (r : Runtime) (keys : SigningKeys) (left : ℕ) : Type 0 where
  room : length keys + left ≤ 16
  distinct : Distinct keys
  importable : Importable r keys

set_key-Collected :
    (r : Runtime) (kid : Text) (key : SigningKey) (keys : SigningKeys) (left : ℕ)
    → Collected r keys (suc left)
    → has_key kid keys ≡ false
    → Collected r (set_key r kid key keys) left
unfolding set_key
set_key-Collected r kid key keys left h absent = elim (Bool-cases (r.can_import key)) [
  | inl can ↦ rw can (record {
    room = let room = h.room in omega (arith, length-append keys ((kid, key) ∷ []));
    distinct = Distinct-append kid key keys h.distinct absent;
    importable = Importable-append r kid key keys h.importable can;
  })
  | inr cannot ↦ rw cannot (record {
    room = let room = h.room in omega arith;
    distinct = h.distinct;
    importable = h.importable;
  })
]

collect_keys-WellFormed :
    (r : Runtime) (keys : SigningKeys) (values : List Json) (keys' : SigningKeys)
    → Collected r keys (length values)
    → collect_keys r keys values ≡ some keys'
    → KeysWellFormed r keys'
unfolding collect_keys
collect_keys-WellFormed r keys [] keys' h e =
    let same : keys ≡ keys' = ground arith in
    let room = h.room in
    let formed : KeysWellFormed r keys = record {
      few = omega arith;
      distinct = h.distinct;
      importable = h.importable;
    } in
    rw same at formed
collect_keys-WellFormed r keys (v ∷ values) keys' h e =
    elim (Option-cases (read_rsa_signing_jwk v)) [
      | inl unread ↦
          let room = h.room in
          collect_keys-WellFormed r keys values keys'
            (record { room = omega arith; distinct = h.distinct; importable = h.importable })
            (ground arith)
      | inr ((kid, key), read) ↦ elim (Bool-cases (has_key kid keys)) [
        | inl twice ↦ absurd (ground arith)
        | inr new ↦
            collect_keys-WellFormed r (set_key r kid key keys) values keys'
              (set_key-Collected r kid key keys (length values) h new) (ground arith)
      ]
    ]

keys_of_member-WellFormed :
    (r : Runtime) (member : Option Json) (keys : SigningKeys)
    → keys_of_member r member ≡ some keys
    → KeysWellFormed r keys
unfolding keys_of_member Distinct Importable
keys_of_member-WellFormed r (some (array items)) keys e =
    collect_keys-WellFormed r [] (elements items) keys
      (record { room = ground arith; distinct = tt; importable = tt }) (ground arith)
keys_of_member-WellFormed r none keys e = absurd (ground arith)
keys_of_member-WellFormed r (some Json.null) keys e = absurd (ground arith)
keys_of_member-WellFormed r (some (Json.boolean _)) keys e = absurd (ground arith)
keys_of_member-WellFormed r (some (Json.number _)) keys e = absurd (ground arith)
keys_of_member-WellFormed r (some (Json.string _)) keys e = absurd (ground arith)
keys_of_member-WellFormed r (some (Json.object _)) keys e = absurd (ground arith)

pub parse_signing_keys-WellFormed :
    (r : Runtime) (body : Text) (keys : SigningKeys)
    → parse_signing_keys r body ≡ some keys
    → KeysWellFormed r keys
unfolding parse_signing_keys
parse_signing_keys-WellFormed r body keys e = elim (Option-cases (as_record (r.json_parse body))) [
  | inl bad ↦ absurd (ground arith)
  | inr (value, good) ↦ keys_of_member-WellFormed r (get (codes "keys") value) keys (ground arith)
]
