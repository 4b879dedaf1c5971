-- ===== src/Owner/Verifier/Keyset.antt =====
-- What holds of the key cache at any time.
use dashboard_rpi.Common.{
  ℕ, ◌≡◌, ◌⊎◌, inl, inr, refl, Bool, true, false, Option, none, some, List, [], ◌∷◌, Text, arith,
  Option-cases, Bool-cases, is_empty, if◌then◌else◌,
}
use dashboard_rpi.Owner.Config.{Runtime, Config}
use dashboard_rpi.Owner.Keys.{
  SigningKeys, parse_signing_keys, KeyCache, Fetch, fails, responds, store_keys,
  refresh_signing_keys, begin_lookup, empty_cache, find_key,
}
use dashboard_rpi.Owner.Verifier.{Move, begins, comes_back, move, moves}
use dashboard_rpi.Owner.Keys.Collecting.{
  Importable, Distinct, KeysWellFormed, parse_signing_keys-WellFormed,
}

-- The cache: its keys are well formed, and there are some once a fetch was dated.
pub record CacheWellFormed (r : Runtime) (cache : KeyCache) : Type 0 where
  pub keys_well_formed : KeysWellFormed r cache.keys
  pub dated_keys : (cache.keys_fetched_at ≡ none) ⊎ (is_empty cache.keys ≡ false)

store_keys-WellFormed :
    (r : Runtime) (now : Option ℕ) (keys : Option SigningKeys) (cache : KeyCache)
    → ((ks : SigningKeys) → keys ≡ some ks → KeysWellFormed r ks)
    → CacheWellFormed r cache
    → CacheWellFormed r (store_keys now keys cache).0
unfolding store_keys
store_keys-WellFormed r now none cache good h = h
store_keys-WellFormed r now (some keys) cache good h = elim (Bool-cases (is_empty keys)) [
  | inl no_keys ↦ rw no_keys h
  | inr some_keys ↦ elim (Option-cases now) [
    | inl unread ↦
        rw (some_keys, unread)
          (record { keys_well_formed = good keys refl; dated_keys = inr some_keys })
    | inr (t, read) ↦
        rw (some_keys, read)
          (record { keys_well_formed = good keys refl; dated_keys = inr some_keys })
  ]
]

if-WellFormed :
    (r : Runtime) (b : Bool) (cache : KeyCache) (stored : KeyCache × Bool)
    → CacheWellFormed r cache
    → CacheWellFormed r stored.0
    → CacheWellFormed r (if b then (cache, false) else stored).0
if-WellFormed r true cache stored h hs = h
if-WellFormed r false cache stored h hs = hs

refresh-WellFormed :
    (r : Runtime) (fetch : Fetch) (now : Option ℕ) (cache : KeyCache)
    → CacheWellFormed r cache
    → CacheWellFormed r (refresh_signing_keys r fetch now cache).0
unfolding refresh_signing_keys
refresh-WellFormed r fails now cache h = h
refresh-WellFormed r (responds ok body) now cache h = if-WellFormed r _ cache _ h (
    store_keys-WellFormed r now (parse_signing_keys r body) cache
      (parse_signing_keys-WellFormed r body) h)

-- The start of a lookup leaves the keys.
begin_lookup-keys :
    (c : Config) (now : Option ℕ) (kid : Text) (cache : KeyCache)
    → ((begin_lookup c now kid cache).0.keys ≡ cache.keys)
      × ((begin_lookup c now kid cache).0.keys_fetched_at ≡ cache.keys_fetched_at)
unfolding begin_lookup
begin_lookup-keys c none kid cache = (refl, refl)
begin_lookup-keys c (some now) kid cache = elim (Option-cases (find_key kid cache.keys)) [
  | inl unknown ↦ (ground arith, ground arith)
  | inr (key, held) ↦ (ground arith, ground arith)
]

move-WellFormed :
    (r : Runtime) (c : Config) (m : Move) (cache : KeyCache)
    → CacheWellFormed r cache
    → CacheWellFormed r (move r c m cache)
unfolding move
move-WellFormed r c (comes_back fetch now) cache h = refresh-WellFormed r fetch now cache h
move-WellFormed r c (begins now kid) cache h =
    let (same, same_time) = begin_lookup-keys c now kid cache in
    record {
      keys_well_formed = rw same h.keys_well_formed;
      dated_keys = rw (same, same_time) h.dated_keys;
    }

moves-step :
    (r : Runtime) (c : Config) (ms : List Move) (cache : KeyCache)
    → CacheWellFormed r cache
    → CacheWellFormed r (moves r c ms cache)
unfolding moves
moves-step r c [] cache h = h
moves-step r c (m ∷ ms) cache h =
    moves-step r c ms (move r c m cache) (move-WellFormed r c m cache h)

-- From the verifier's start on, whatever lookups and answers of fetches follow one another, the
-- cache has at most 16 keys, no two of them under one name, each of which the runtime imports; and
-- once it has a time of fetching, it has a key.
pub moves-WellFormed :
    (r : Runtime) (c : Config) (ms : List Move) → CacheWellFormed r (moves r c ms empty_cache)
unfolding Distinct Importable
moves-WellFormed r c ms = moves-step r c ms empty_cache (record {
  keys_well_formed = record { few = omega arith; distinct = tt; importable = tt };
  dated_keys = inl refl;
})
