-- ===== src/Owner/Verifier/Cooldown.antt =====
-- How often names of unknown keys make the verifier fetch the key set.
use dashboard_rpi.Common.{
  ℕ, ◌+◌, ◌*◌, ◌-◌, ◌≤◌, ◌≡◌, ◌⊎◌, inl, inr, refl, Option, none, some, List, [], ◌∷◌, length, Text,
  arith, Option-cases, Bool-cases, All, All-map, is_empty, leb, ◌||◌,
}
use dashboard_rpi.Owner.Config.{Runtime, Options, Config, construct}
use dashboard_rpi.Owner.Constructed.{construct-Constructed}
use dashboard_rpi.Owner.Keys.{
  KeyCache, Fetch, fails, responds, store_keys, refresh_signing_keys, Lookup, found, missing, stale,
  unknown_kid, begin_lookup, parse_signing_keys, find_key, has_passed,
}
use dashboard_rpi.Owner.Verifier.{Move, begins, comes_back, move}

-- The reading of the clock at which a lookup asks for the keys because of an unknown name.
unfoldable pub refreshed_at : Option ℕ → Lookup → Option ℕ
refreshed_at now (found key) = none
refreshed_at now missing = none
refreshed_at now Lookup.throws = none
refreshed_at now stale = none
refreshed_at now unknown_kid = now

unfoldable pub move_refresh : Config → Move → KeyCache → Option ℕ
unfolding refreshed_at
move_refresh c (begins now kid) cache = refreshed_at now (begin_lookup c now kid cache).1
move_refresh c (comes_back fetch now) cache = none

unfoldable pub and_then : Option ℕ → List ℕ → List ℕ
and_then none ts = ts
and_then (some t) ts = t ∷ ts

-- Those readings, along a history.
unfoldable pub refreshes : Runtime → Config → List Move → KeyCache → List ℕ
unfolding move_refresh and_then move
refreshes r c [] cache = []
refreshes r c (m ∷ ms) cache =
    and_then (move_refresh c m cache) (refreshes r c ms (move r c m cache))

-- Every reading is at least `d` after the one in front of it, the first after `last`.
unfoldable pub After : ℕ → Option ℕ → ℕ → Type 0
After d none t = Unit
After d (some s) t = s + d ≤ t

unfoldable pub Spaced : ℕ → Option ℕ → List ℕ → Type 0
unfolding After
Spaced d last [] = Unit
Spaced d last (t ∷ ts) = After d last t × Spaced d (some t) ts

-- The clock's readings at the lookups are from `lo` to `hi`.
unfoldable pub Within : ℕ → ℕ → Move → Type 0
Within lo hi (begins none kid) = Unit
Within lo hi (begins (some now) kid) = (lo ≤ now) × (now ≤ hi)
Within lo hi (comes_back fetch now) = Unit

refresh-last :
    (r : Runtime) (fetch : Fetch) (now : Option ℕ) (cache : KeyCache)
    → (refresh_signing_keys r fetch now cache).0.last_unknown_kid_refresh_at
      ≡ cache.last_unknown_kid_refresh_at
unfolding refresh_signing_keys store_keys
refresh-last r fails now cache = refl
refresh-last r (responds ok body) now cache = elim (Option-cases (parse_signing_keys r body)) [
  | inl bad ↦ ground arith
  | inr (keys, good) ↦ elim (Option-cases now) [
    | inl unread ↦ ground arith
    | inr (t, read) ↦ ground arith
  ]
]

-- What the start of a lookup does to the reading of the last such request.
begin_lookup-last :
    (c : Config) (now : Option ℕ) (kid : Text) (cache : KeyCache)
    → 1 ≤ c.unknown_kid_refresh_cooldown_ms
    → ((refreshed_at now (begin_lookup c now kid cache).1 ≡ none)
        × ((begin_lookup c now kid cache).0.last_unknown_kid_refresh_at
            ≡ cache.last_unknown_kid_refresh_at))
      ⊎ ((t : ℕ) × (now ≡ some t)
          × (refreshed_at now (begin_lookup c now kid cache).1 ≡ some t)
          × ((begin_lookup c now kid cache).0.last_unknown_kid_refresh_at ≡ some t)
          × After c.unknown_kid_refresh_cooldown_ms cache.last_unknown_kid_refresh_at t)
unfolding begin_lookup refreshed_at has_passed After
begin_lookup-last c none kid cache pos = inl (refl, refl)
begin_lookup-last c (some now) kid cache pos =
    elim (Bool-cases
      (is_empty cache.keys || has_passed c.key_cache_ttl_ms now cache.keys_fetched_at)) [
        | inl old ↦ inl (ground arith, ground arith)
        | inr recent ↦ elim (Option-cases (find_key kid cache.keys)) [
          | inr (key, held) ↦ inl (ground arith, ground arith)
          | inl unknown ↦ elim (Option-cases cache.last_unknown_kid_refresh_at) [
            | inl never ↦ inr (now, refl, ground arith, ground arith, rw never tt)
            | inr (t, last) ↦ elim (Bool-cases (leb c.unknown_kid_refresh_cooldown_ms (now - t))) [
              | inl passed ↦ inr (now, refl, ground arith, ground arith, rw last (ground arith))
              | inr soon ↦ inl (ground arith, ground arith)
            ]
          ]
        ]
      ]

refreshes-Spaced :
    (r : Runtime) (c : Config) (ms : List Move) (cache : KeyCache)
    → 1 ≤ c.unknown_kid_refresh_cooldown_ms
    → Spaced c.unknown_kid_refresh_cooldown_ms cache.last_unknown_kid_refresh_at
        (refreshes r c ms cache)
unfolding refreshes Spaced and_then move_refresh move
refreshes-Spaced r c [] cache pos = tt
refreshes-Spaced r c (comes_back fetch now ∷ ms) cache pos =
    let rest = refreshes-Spaced r c ms (refresh_signing_keys r fetch now cache).0 pos in
    rw (refresh-last r fetch now cache) at rest
refreshes-Spaced r c (begins now kid ∷ ms) cache pos =
    let cache' = (begin_lookup c now kid cache).0 in
    let rest = refreshes-Spaced r c ms cache' pos in
    elim (begin_lookup-last c now kid cache pos) [
      | inl (quiet, same) ↦ rw quiet (rw same at rest)
      | inr (t, read, asks, last, after) ↦ rw asks (after, rw last at rest)
    ]

Spaced-bound :
    (d hi s : ℕ) (ts : List ℕ)
    → Spaced d (some s) ts
    → All (λ t. t ≤ hi) ts
    → s ≤ hi
    → s + length ts * d ≤ hi
unfolding Spaced After
Spaced-bound d hi s [] spaced bounded le = omega arith
Spaced-bound d hi s (t ∷ ts) (after, spaced) (here, bounded) le =
    let rest = Spaced-bound d hi t ts spaced bounded here in ground arith

refreshed_at-Within :
    (lo hi : ℕ) (now : Option ℕ) (kid : Text) (l : Lookup) (t : ℕ)
    → Within lo hi (begins now kid)
    → refreshed_at now l ≡ some t
    → (lo ≤ t) × (t ≤ hi)
unfolding refreshed_at Within
refreshed_at-Within lo hi (some now) kid unknown_kid t (le, ge) e = ground arith
refreshed_at-Within lo hi none kid unknown_kid t h e = cc
refreshed_at-Within lo hi now kid (found key) t h e = cc
refreshed_at-Within lo hi now kid missing t h e = cc
refreshed_at-Within lo hi now kid Lookup.throws t h e = cc
refreshed_at-Within lo hi now kid stale t h e = cc

refreshes-Within :
    (r : Runtime) (c : Config) (lo hi : ℕ) (ms : List Move) (cache : KeyCache)
    → All (Within lo hi) ms
    → All (λ t. (lo ≤ t) × (t ≤ hi)) (refreshes r c ms cache)
unfolding refreshes and_then move_refresh move
refreshes-Within r c lo hi [] cache h = tt
refreshes-Within r c lo hi (comes_back fetch now ∷ ms) cache (h, hs) =
    refreshes-Within r c lo hi ms (refresh_signing_keys r fetch now cache).0 hs
refreshes-Within r c lo hi (begins now kid ∷ ms) cache (h, hs) =
    let rest = refreshes-Within r c lo hi ms (begin_lookup c now kid cache).0 hs in
    let asks = refreshed_at now (begin_lookup c now kid cache).1 in
    elim (Option-cases asks) [
      | inl quiet ↦ rw quiet rest
      | inr (t, e) ↦ rw e (refreshed_at-Within lo hi now kid _ t h e, rest)
    ]

window-bound :
    (d lo hi : ℕ) (last : Option ℕ) (ts : List ℕ)
    → Spaced d last ts
    → All (λ t. (lo ≤ t) × (t ≤ hi)) ts
    → lo ≤ hi
    → length ts * d ≤ (hi - lo) + d
unfolding Spaced
window-bound d lo hi last [] spaced bounded le = omega arith
window-bound d lo hi last (t ∷ ts) (after, spaced) ((ge, here), bounded) le =
    let rest = Spaced-bound d hi t ts spaced (All-map (λ u h. h.1) ts bounded) here in ground arith

-- Whatever lookups and answers of fetches follow one another, however they interleave, the verifier
-- of a successful construction asks for the key set because of an unknown key's name only when the
-- cooldown has passed since it last did so; and while the clock's readings at the lookups stay
-- from `lo` to `hi`, it does so at most once for each whole cooldown in between, and once more.
pub refreshes_limit :
    (r : Runtime) (o : Options) (c : Config) (ms : List Move) (cache : KeyCache) (lo hi : ℕ)
    → construct r o ≡ some c
    → All (Within lo hi) ms
    → lo ≤ hi
    → Spaced c.unknown_kid_refresh_cooldown_ms cache.last_unknown_kid_refresh_at
        (refreshes r c ms cache)
      × (length (refreshes r c ms cache) * c.unknown_kid_refresh_cooldown_ms
          ≤ (hi - lo) + c.unknown_kid_refresh_cooldown_ms)
refreshes_limit r o c ms cache lo hi built within le =
    let (least, most) = (construct-Constructed r o c built).cooldown in
    let spaced = refreshes-Spaced r c ms cache (omega arith) in
    (spaced, window-bound _ lo hi _ _ spaced (refreshes-Within r c lo hi ms cache within) le)
