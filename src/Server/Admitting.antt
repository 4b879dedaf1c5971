-- ===== src/Server/Admitting.antt =====
-- Whom the runtime's gates let in, from the environment to the claims of the assertion.
use dashboard_rpi.Common.{
  ◌≡◌, refl, ap, sym, ◌∙◌, Bool, true, false, Option, none, some, Text, codes, text_eq_iff, arith,
  Option-cases, inl, inr,
}
use dashboard_rpi.Owner.Config.{Runtime, Config, construct, issuer_of}
use dashboard_rpi.Owner.Constructed.{Constructed, construct-Constructed}
use dashboard_rpi.Owner.Claims.{Result, refused, throws, Rejection}
use dashboard_rpi.Owner.Keys.{KeyCache}
use dashboard_rpi.Owner.Verifier.{Answers, verify_assertion}
use dashboard_rpi.Owner.Verifier.Assertion.{Owns, verify_assertion-Owns}
use dashboard_rpi.Terminal.Session.Boundary.{is_terminal_explicitly_enabled}
use dashboard_rpi.Terminal.Admission.Gate.{AuthResult}
use dashboard_rpi.Server.Wiring.{
  Environment, read_required_configuration, owner_options, owner_verifier_of,
  default_owner_verifier, TerminalRuntime, with_verifier, create_default_terminal_runtime,
}
use dashboard_rpi.Server.Requests.{access_result, answered, owner_answer}

-- An assertion of the environment's owner, with the verifier that the environment configures.
pub record OwnerAsserts (r : Runtime) (env : Environment) (a : Answers) (assertion : Option Text)
    (cache : KeyCache) : Type 0 where
  pub team : Text
  pub aud : Text
  pub owner : Text
  pub config : Config
  pub email : Text
  pub subject : Text
  pub enabled : env.terminal_enabled ≡ some (codes "enabled")
  pub of_team : env.access_team ≡ some team
  pub of_application : env.access_aud ≡ some aud
  pub of_owner : env.owner_email ≡ some owner
  pub issuer : config.issuer ≡ issuer_of team
  pub audience : config.application_audience ≡ aud
  pub owner_email : config.owner_email ≡ r.lower_case owner
  pub owns : Owns r config a assertion cache email subject

read_required-some :
    (o : Option Text) (value : Text) → read_required_configuration o ≡ some value → o ≡ some value
unfolding read_required_configuration
read_required-some none value e = cc
read_required-some (some v) value e = ground arith

owner_verifier_of-some :
    (r : Runtime) (t a o : Option Text) (c : Config)
    → owner_verifier_of r t a o ≡ some (some c)
    → (team : Text) × (aud : Text) × (owner : Text) × (t ≡ some team)
      × (a ≡ some aud)
      × (o ≡ some owner)
      × Constructed r (owner_options team aud owner) c
unfolding owner_verifier_of
owner_verifier_of-some r (some team) (some aud) (some owner) c e =
    elim (Option-cases (construct r (owner_options team aud owner))) [
      | inl threw ↦ absurd (ground arith)
      | inr (c', made) ↦
          let same : c' ≡ c = ground arith in
          (
            team,
            aud,
            owner,
            refl,
            refl,
            refl,
            construct-Constructed r (owner_options team aud owner) c (rw same at made),
          )
    ]
owner_verifier_of-some r none a o c e = absurd (ground arith)
owner_verifier_of-some r (some team) none o c e = absurd (ground arith)
owner_verifier_of-some r (some team) (some aud) none c e = absurd (ground arith)

with_verifier-some :
    (enabled : Bool) (v : Option Config) (rt : TerminalRuntime)
    → with_verifier enabled v ≡ some rt
    → (rt.terminal_enabled ≡ enabled) × (rt.owner_auth_verifier ≡ v)
unfolding with_verifier
with_verifier-some true none rt e = absurd (ground arith)
with_verifier-some true (some c) rt e = ground arith
with_verifier-some false v rt e = ground arith

access_result-verified :
    (result : Result)
    → access_result result ≡ AuthResult.verified
    → (email : Text) × (subject : Text) × (result ≡ Result.verified email subject)
unfolding access_result
access_result-verified (Result.verified email subject) e = (email, subject, refl)
access_result-verified (refused Rejection.key_unavailable) e = cc
access_result-verified (refused Rejection.token_missing) e = cc
access_result-verified (refused Rejection.token_malformed) e = cc
access_result-verified (refused Rejection.unsupported_algorithm) e = cc
access_result-verified (refused Rejection.signature_invalid) e = cc
access_result-verified (refused Rejection.issuer_mismatch) e = cc
access_result-verified (refused Rejection.audience_mismatch) e = cc
access_result-verified (refused Rejection.token_not_active) e = cc
access_result-verified (refused Rejection.token_expired) e = cc
access_result-verified (refused Rejection.identity_required) e = cc
access_result-verified (refused Rejection.owner_mismatch) e = cc
access_result-verified throws e = cc

answered-Owns :
    (r : Runtime) (c : Config) (a : Answers) (assertion : Option Text) (cache cache' : KeyCache)
    (o : KeyCache × Result)
    → verify_assertion r c a assertion cache ≡ o
    → answered o ≡ (cache', AuthResult.verified)
    → (email : Text) × (subject : Text) × Owns r c a assertion cache' email subject
unfolding answered
answered-Owns r c a assertion cache cache' (k, result) v e =
    let (email, subject, same) = access_result-verified result (ground arith) in
    let here : k ≡ cache' = ground arith in
    (
      email,
      subject,
      verify_assertion-Owns r c a assertion cache cache' email subject (rw (here, same) at v),
    )

owner_answer-verified :
    (r : Runtime) (rt : TerminalRuntime) (a : Answers) (assertion : Option Text)
    (cache cache' : KeyCache)
    → owner_answer r rt a assertion cache ≡ (cache', AuthResult.verified)
    → (c : Config) × (rt.owner_auth_verifier ≡ some c)
      × (rt.terminal_enabled ≡ true)
      × (email : Text) × (subject : Text) × Owns r c a assertion cache' email subject
unfolding owner_answer
owner_answer-verified r rt a assertion cache cache' e = elim (Option-cases rt.owner_auth_verifier) [
  | inl absent ↦ absurd (ground arith)
  | inr (c, present) ↦
      let on : rt.terminal_enabled ≡ true = ground arith in
      let (email, subject, owns) =
        answered-Owns r c a assertion cache cache' (verify_assertion r c a assertion cache) refl
          (ground arith) in
      (c, present, on, email, subject, owns)
]

default_owner_verifier-some :
    (r : Runtime) (env : Environment) (c : Config)
    → default_owner_verifier r env ≡ some (some c)
    → (is_terminal_explicitly_enabled env.terminal_enabled ≡ true)
      × (owner_verifier_of r
            (read_required_configuration env.access_team)
            (read_required_configuration env.access_aud)
            (read_required_configuration env.owner_email)
          ≡ some (some c))
unfolding default_owner_verifier
default_owner_verifier-some r env c e = (ground arith, ground arith)

runtime-verifier :
    (r : Runtime) (env : Environment) (rt : TerminalRuntime) (c : Config)
    → create_default_terminal_runtime r env ≡ some rt
    → rt.owner_auth_verifier ≡ some c
    → default_owner_verifier r env ≡ some (some c)
unfolding create_default_terminal_runtime
runtime-verifier r env rt c made verifier = elim (Option-cases (default_owner_verifier r env)) [
  | inl threw ↦ absurd (ground arith)
  | inr (v, e) ↦
      let (enabled, same) =
        with_verifier-some (is_terminal_explicitly_enabled env.terminal_enabled) v rt
          (ground arith) in
      e ∙ ap some (sym same ∙ verifier)
]

enabled-text :
    (o : Option Text) → is_terminal_explicitly_enabled o ≡ true → o ≡ some (codes "enabled")
unfolding is_terminal_explicitly_enabled
enabled-text none e = cc
enabled-text (some t) e = ap some ((text_eq_iff t (codes "enabled")).0 e)

-- When the verifier of a runtime that the environment made accepts an assertion, it is the owner's.
pub owner_answer-OwnerAsserts :
    (r : Runtime) (env : Environment) (rt : TerminalRuntime) (a : Answers) (assertion : Option Text)
    (cache cache' : KeyCache)
    → create_default_terminal_runtime r env ≡ some rt
    → owner_answer r rt a assertion cache ≡ (cache', AuthResult.verified)
    → OwnerAsserts r env a assertion cache'
owner_answer-OwnerAsserts r env rt a assertion cache cache' made e =
    let (c, verifier, on, email, subject, owns) =
      owner_answer-verified r rt a assertion cache cache' e in
    let (enabled, reads) =
      default_owner_verifier-some r env c (runtime-verifier r env rt c made verifier) in
    let (team, aud, owner, t, d, o, formed) = owner_verifier_of-some r _ _ _ c reads in
    record {
      team = team;
      aud = aud;
      owner = owner;
      config = c;
      email = email;
      subject = subject;
      enabled = enabled-text env.terminal_enabled enabled;
      of_team = read_required-some env.access_team team t;
      of_application = read_required-some env.access_aud aud d;
      of_owner = read_required-some env.owner_email owner o;
      issuer = formed.issuer;
      audience = formed.audience;
      owner_email = formed.owner_email;
      owns = owns;
    }
