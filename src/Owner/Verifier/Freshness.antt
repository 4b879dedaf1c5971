-- ===== src/Owner/Verifier/Freshness.antt =====
-- Where the key of a verification comes from.
use dashboard_rpi.Common.{
  ℕ, ◌+◌, ◌<◌, ◌≡◌, ◌⊎◌, inl, inr, refl, ap, true, Option, none, some, Text, arith, Option-cases,
}
use dashboard_rpi.Owner.Config.{SigningKey, Runtime, Config}
use dashboard_rpi.Owner.Keys.{
  find_key, KeyCache, store_keys, refresh_signing_keys, Lookup, found, missing, stale, unknown_kid,
  begin_lookup, end_lookup, Fetch, fails, responds, parse_signing_keys, SigningKeys,
}
use dashboard_rpi.Owner.Verifier.{Answers, continue_lookup, refreshed_lookup}

-- The key of this name in the cache, whose keys were fetched during this verification, or before it
-- and less than the time to live ago.
pub record Fresh (c : Config) (a : Answers) (kid : Text) (key : SigningKey) (cache : KeyCache)
    : Type 0 where
  pub fetched : ℕ
  pub held : find_key kid cache.keys ≡ some key
  pub since : cache.keys_fetched_at ≡ some fetched
  pub recent :
      (a.at_fetch ≡ some fetched)
      ⊎ ((now : ℕ) × (a.at_lookup ≡ some now) × (now < fetched + c.key_cache_ttl_ms))

store_keys-true :
    (now : Option ℕ) (keys : Option SigningKeys) (cache : KeyCache)
    → (store_keys now keys cache).1 ≡ true
    → (t : ℕ) × (now ≡ some t) × ((store_keys now keys cache).0.keys_fetched_at ≡ some t)
unfolding store_keys
store_keys-true none none cache e = cc
store_keys-true (some t) none cache e = cc
store_keys-true none (some keys) cache e = absurd (ground arith)
store_keys-true (some t) (some keys) cache e = (t, refl, ground arith)

refresh-true :
    (r : Runtime) (fetch : Fetch) (now : Option ℕ) (cache : KeyCache)
    → (refresh_signing_keys r fetch now cache).1 ≡ true
    → (t : ℕ) × (now ≡ some t)
      × ((refresh_signing_keys r fetch now cache).0.keys_fetched_at ≡ some t)
unfolding refresh_signing_keys
refresh-true r fails now cache e = cc
refresh-true r (responds ok body) now cache e =
    let (t, at, since) = store_keys-true now (parse_signing_keys r body) cache (ground arith) in
    (t, at, ground arith)

refreshed-Fresh :
    (r : Runtime) (c : Config) (a : Answers) (kid : Text) (key : SigningKey)
    (cache cache' : KeyCache)
    → refreshed_lookup kid (refresh_signing_keys r a.fetch a.at_fetch cache) ≡ (cache', some key)
    → Fresh c a kid key cache'
unfolding end_lookup
refreshed-Fresh r c a kid key cache cache' e =
    let (t, at, since) = refresh-true r a.fetch a.at_fetch cache (ground arith) in
    let same : (refresh_signing_keys r a.fetch a.at_fetch cache).0 ≡ cache' = ap (λ p. p.0) e in
    record { fetched = t; held = ground arith; since = rw same at since; recent = inl at }

-- A key that the cache already holds.
begin_lookup-found :
    (c : Config) (now : Option ℕ) (kid : Text) (key : SigningKey) (cache cache' : KeyCache)
    → begin_lookup c now kid cache ≡ (cache', found key)
    → (t : ℕ) × (n : ℕ) × (cache ≡ cache')
      × (now ≡ some n)
      × (find_key kid cache.keys ≡ some key)
      × (cache.keys_fetched_at ≡ some t)
      × (n < t + c.key_cache_ttl_ms)
unfolding begin_lookup
begin_lookup-found c none kid key cache cache' e = absurd (ground arith)
begin_lookup-found c (some n) kid key cache cache' e = elim (Option-cases cache.keys_fetched_at) [
  | inl never ↦ absurd (ground arith)
  | inr (t, at) ↦ (t, n, ground arith, refl, ground arith, at, ground arith)
]

pub continue_lookup-Fresh :
    (r : Runtime) (c : Config) (a : Answers) (kid : Text) (key : SigningKey)
    (cache cache' : KeyCache) (l : KeyCache × Lookup)
    → begin_lookup c a.at_lookup kid cache ≡ l
    → continue_lookup r a kid l ≡ (cache', some (some key))
    → Fresh c a kid key cache'
unfolding continue_lookup
continue_lookup-Fresh r c a kid key cache cache' (k, found key') b e =
    let same : k ≡ cache' = ground arith in
    let same_key : key' ≡ key = ground arith in
    let (t, n, old, at, held, since, recent) =
      begin_lookup-found c a.at_lookup kid key cache cache' (ground arith) in
    record {
      fetched = t;
      held = rw old at held;
      since = rw old at since;
      recent = inr (n, at, recent);
    }
continue_lookup-Fresh r c a kid key cache cache' (k, missing) b e = absurd (ground arith)
continue_lookup-Fresh r c a kid key cache cache' (k, Lookup.throws) b e = absurd (ground arith)
continue_lookup-Fresh r c a kid key cache cache' (k, stale) b e =
    refreshed-Fresh r c a kid key k cache' (ground arith)
continue_lookup-Fresh r c a kid key cache cache' (k, unknown_kid) b e =
    refreshed-Fresh r c a kid key k cache' (ground arith)
