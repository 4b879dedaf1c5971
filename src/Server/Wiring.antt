-- ===== src/Server/Wiring.antt =====
-- `createDefaultTerminalRuntime` and the part of `createDefaultTerminalSessionAdmission` that
-- reads the environment.
use dashboard_rpi.Common.{
  Bool, true, not, ◌||◌, Option, none, some, if◌then◌else◌, is_empty, Text, text_eq,
}
use dashboard_rpi.Owner.Strings.{trim}
use dashboard_rpi.Owner.Config.{Runtime, Options, Config, construct}
use dashboard_rpi.Terminal.Session.Boundary.{is_terminal_explicitly_enabled}

-- The variables DASHBOARD_TERMINAL_ENABLED, _ACCESS_TEAM, _ACCESS_AUD and _OWNER_EMAIL.
pub record Environment : Type 0 where
  pub terminal_enabled : Option Text
  pub access_team : Option Text
  pub access_aud : Option Text
  pub owner_email : Option Text

-- `readRequiredConfiguration`; `none` is a throw.
unfoldable pub read_required_configuration : Option Text → Option Text
unfolding trim
read_required_configuration none = none
read_required_configuration (some value) =
    if is_empty value || not (text_eq value (trim value)) then none else some value

-- The options that the gate gives the verifier's factory; the others take their defaults.
abbrev pub owner_options : (team aud email : Text) → Options
owner_options team aud email = record {
  team_name = team;
  application_audience = aud;
  owner_email = email;
  key_cache_ttl_ms = none;
  request_timeout_ms = none;
  unknown_kid_refresh_cooldown_ms = none;
  clock_skew_seconds = none;
}

unfoldable pub owner_verifier_of : Runtime → (team aud email : Option Text) → Option (Option Config)
owner_verifier_of r (some team) (some aud) (some email) =
    elim (construct r (owner_options team aud email)) [ none ↦ none | some c ↦ some (some c) ]
owner_verifier_of r _ _ _ = none

-- The verifier that `createDefaultTerminalSessionAdmission` makes, if any; `none` in front is a
-- throw.
unfoldable pub default_owner_verifier : Runtime → Environment → Option (Option Config)
unfolding is_terminal_explicitly_enabled read_required_configuration owner_verifier_of
default_owner_verifier r env =
    if not (is_terminal_explicitly_enabled env.terminal_enabled)
    then some none
    else owner_verifier_of r (read_required_configuration env.access_team)
        (read_required_configuration env.access_aud) (read_required_configuration env.owner_email)

-- The registry and the verifier's cache are the state of `Requests`.
pub record TerminalRuntime : Type 0 where
  pub terminal_enabled : Bool
  pub owner_auth_verifier : Option Config

-- The test of `createTerminalWebSocketAdmission`, which throws without a verifier.
unfoldable pub with_verifier : Bool → Option Config → Option TerminalRuntime
with_verifier true none = none
with_verifier enabled verifier =
    some (record { terminal_enabled = enabled; owner_auth_verifier = verifier })

-- `createDefaultTerminalRuntime`; `none` is a throw.
unfoldable pub create_default_terminal_runtime : Runtime → Environment → Option TerminalRuntime
unfolding default_owner_verifier with_verifier is_terminal_explicitly_enabled
create_default_terminal_runtime r env = elim (default_owner_verifier r env) [
  | none ↦ none
  | some verifier ↦ with_verifier (is_terminal_explicitly_enabled env.terminal_enabled) verifier
]
