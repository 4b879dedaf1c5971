-- ===== src/Owner/Constructed.antt =====
-- What a successful construction gives.
use dashboard_rpi.Common.{ℕ, ◌*◌, ◌≤◌, ◌≡◌, refl, Option, none, some, arith}
use dashboard_rpi.Owner.Config.{
  Runtime, Options, Config, read_bounded_positive_option, configured, construct, issuer_of,
}

pub record Constructed (r : Runtime) (o : Options) (c : Config) : Type 0 where
  pub issuer : c.issuer ≡ issuer_of o.team_name
  pub audience : c.application_audience ≡ o.application_audience
  pub owner_email : c.owner_email ≡ r.lower_case o.owner_email
  pub ttl : (1000 ≤ c.key_cache_ttl_ms) × (c.key_cache_ttl_ms ≤ 3600000)
  pub cooldown :
      (1000 ≤ c.unknown_kid_refresh_cooldown_ms) × (c.unknown_kid_refresh_cooldown_ms ≤ 300000)
  pub skew : (1 ≤ c.clock_skew_seconds) × (c.clock_skew_seconds ≤ 300)

read_bounded-some :
    (value : Option ℕ) (fallback min max n : ℕ)
    → read_bounded_positive_option value fallback min max ≡ some n
    → (min ≤ n) × (n ≤ max)
unfolding read_bounded_positive_option
read_bounded-some value fallback min max n e = ground arith

configured-Constructed :
    (r : Runtime) (o : Options) (ttl timeout cooldown skew : Option ℕ) (c : Config)
    → read_bounded_positive_option o.key_cache_ttl_ms (5 * 60 * 1000) 1000 (60 * 60 * 1000) ≡ ttl
    → read_bounded_positive_option o.unknown_kid_refresh_cooldown_ms 30000 1000 (5 * 60 * 1000)
      ≡ cooldown
    → read_bounded_positive_option o.clock_skew_seconds 30 1 300 ≡ skew
    → configured r o ttl timeout cooldown skew ≡ some c
    → Constructed r o c
unfolding configured
configured-Constructed r o (some ttl) (some timeout) (some cooldown) (some skew) c t d s e =
    record {
      issuer = ground arith;
      audience = ground arith;
      owner_email = ground arith;
      ttl = let bounds = read_bounded-some _ _ _ _ _ t in ground arith;
      cooldown = let bounds = read_bounded-some _ _ _ _ _ d in ground arith;
      skew = let bounds = read_bounded-some _ _ _ _ _ s in ground arith;
    }
configured-Constructed r o none timeout cooldown skew c t d s e = absurd (ground arith)
configured-Constructed r o (some ttl) none cooldown skew c t d s e = absurd (ground arith)
configured-Constructed r o (some ttl) (some timeout) none skew c t d s e = absurd (ground arith)
configured-Constructed r o (some ttl) (some timeout) (some cooldown) none c t d s e =
    absurd (ground arith)

pub construct-Constructed :
    (r : Runtime) (o : Options) (c : Config) → construct r o ≡ some c → Constructed r o c
unfolding construct
construct-Constructed r o c e =
    configured-Constructed r o
      (read_bounded_positive_option o.key_cache_ttl_ms (5 * 60 * 1000) 1000 (60 * 60 * 1000))
      (read_bounded_positive_option o.request_timeout_ms 3000 250 10000)
      (read_bounded_positive_option o.unknown_kid_refresh_cooldown_ms 30000 1000 (5 * 60 * 1000))
      (read_bounded_positive_option o.clock_skew_seconds 30 1 300) c refl refl refl (ground arith)
