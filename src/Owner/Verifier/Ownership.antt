-- ===== src/Owner/Verifier/Ownership.antt =====
-- What the claims of a verified assertion show.
use dashboard_rpi.Common.{
  ℕ, ◌+◌, ◌/◌, ◌≤◌, ◌<◌, ◌≡◌, refl, ap, true, Option, none, some, Text, codes, text_eq_iff, arith,
}
use dashboard_rpi.Common.Json.{Json, string, number, pos, array, Items, Fields, get}
use dashboard_rpi.Owner.Strings.{read_numeric_date, max_email_length}
use dashboard_rpi.Owner.Strings.Readers.{
  is_string-true, read_bounded_string-some, read_numeric_date-some,
}
use dashboard_rpi.Owner.Config.{Runtime, Config}
use dashboard_rpi.Owner.Claims.{
  verified, max_subject_length, elements, includes_string, has_expected_audience, check_dates,
  dated, identified, validate_verified_claims,
}

-- The times at which a token is good, in seconds, at a reading of the clock in milliseconds.
pub record InForce (c : Config) (claims : Fields) (reading : Option ℕ) : Type 0 where
  pub exp : ℕ
  pub iat : ℕ
  pub nbf : ℕ
  pub now : ℕ
  pub expires : get (codes "exp") claims ≡ some (number (pos exp))
  pub issued : get (codes "iat") claims ≡ some (number (pos iat))
  pub starts : get (codes "nbf") claims ≡ some (number (pos nbf))
  pub ordered : (iat < exp) × (nbf < exp)
  pub read : reading ≡ some now
  pub begun : (iat ≤ now / 1000 + c.clock_skew_seconds) × (nbf ≤ now / 1000 + c.clock_skew_seconds)
  pub unexpired : now / 1000 < exp + c.clock_skew_seconds

-- The claims that name the owner.
pub record Names (r : Runtime) (c : Config) (claims : Fields) (email subject : Text) : Type 0 where
  pub audience : Items
  pub issued_by : get (codes "iss") claims ≡ some (string c.issuer)
  pub issued_for : get (codes "aud") claims ≡ some (array audience)
  pub application : includes_string c.application_audience (elements audience) ≡ true
  pub of_app : get (codes "type") claims ≡ some (string (codes "app"))
  pub with_email : get (codes "email") claims ≡ some (string email)
  pub of_owner : r.lower_case email ≡ c.owner_email
  pub with_subject : get (codes "sub") claims ≡ some (string subject)

has_expected_audience-true :
    (o : Option Json) (t : Text)
    → has_expected_audience o t ≡ true
    → (items : Items) × (o ≡ some (array items)) × (includes_string t (elements items) ≡ true)
unfolding has_expected_audience
has_expected_audience-true (some (array items)) t e = (items, refl, ground arith)
has_expected_audience-true none t e = cc
has_expected_audience-true (some Json.null) t e = cc
has_expected_audience-true (some (Json.boolean _)) t e = cc
has_expected_audience-true (some (number _)) t e = cc
has_expected_audience-true (some (string _)) t e = cc
has_expected_audience-true (some (Json.object _)) t e = cc

-- The three dates as they were read.
dated-InForce :
    (c : Config) (reading : Option ℕ) (claims : Fields) (m s email subject : Text)
    (exp iat nbf : Option ℕ)
    → read_numeric_date (get (codes "exp") claims) ≡ exp
    → read_numeric_date (get (codes "iat") claims) ≡ iat
    → read_numeric_date (get (codes "nbf") claims) ≡ nbf
    → dated c reading m s exp iat nbf ≡ verified email subject
    → InForce c claims reading × (m ≡ email) × (s ≡ subject)
unfolding dated check_dates
dated-InForce c none claims m s email subject (some exp) (some iat) (some nbf) x i n e =
    absurd (ground arith)
dated-InForce c (some now) claims m s email subject (some exp) (some iat) (some nbf) x i n e = (
  record {
    exp = exp;
    iat = iat;
    nbf = nbf;
    now = now;
    expires = read_numeric_date-some _ exp x;
    issued = read_numeric_date-some _ iat i;
    starts = read_numeric_date-some _ nbf n;
    ordered = ground arith;
    read = refl;
    begun = ground arith;
    unexpired = ground arith;
  },
  ground arith,
  ground arith,
)
dated-InForce c reading claims m s email subject none iat nbf x i n e = absurd (ground arith)
dated-InForce c reading claims m s email subject (some exp) none nbf x i n e = absurd (ground arith)
dated-InForce c reading claims m s email subject (some exp) (some iat) none x i n e =
    absurd (ground arith)

identified-verified :
    (r : Runtime) (c : Config) (reading : Option ℕ) (claims : Fields) (m s : Option Text)
    (email subject : Text)
    → identified r c reading claims m s ≡ verified email subject
    → (m ≡ some email)
      × (s ≡ some subject)
      × (r.lower_case email ≡ c.owner_email)
      × InForce c claims reading
unfolding identified
identified-verified r c reading claims (some m) (some s) email subject e =
    let (force, same, same') =
      dated-InForce c reading claims m s email subject _ _ _ refl refl refl (ground arith) in
    let owner : r.lower_case m ≡ c.owner_email =
      ground (arith, text_eq_iff (r.lower_case m) c.owner_email) in
    (ap some same, ap some same', rw same at owner, force)
identified-verified r c reading claims none s email subject e = absurd (ground arith)
identified-verified r c reading claims (some m) none email subject e = absurd (ground arith)

pub validate-Names :
    (r : Runtime) (c : Config) (reading : Option ℕ) (claims : Fields) (email subject : Text)
    → validate_verified_claims r c reading claims ≡ verified email subject
    → Names r c claims email subject × InForce c claims reading
unfolding validate_verified_claims
validate-Names r c reading claims email subject e =
    let (audience, issued_for, application) =
      has_expected_audience-true (get (codes "aud") claims) c.application_audience (ground arith) in
    let (m, s, owner, force) =
      identified-verified r c reading claims _ _ email subject (ground arith) in
    (
      record {
        audience = audience;
        issued_by = is_string-true c.issuer _ (ground arith);
        issued_for = issued_for;
        application = application;
        of_app = is_string-true (codes "app") _ (ground arith);
        with_email = read_bounded_string-some _ max_email_length email m;
        of_owner = owner;
        with_subject = read_bounded_string-some _ max_subject_length subject s;
      },
      force,
    )
