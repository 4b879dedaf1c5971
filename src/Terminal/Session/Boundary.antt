-- ===== src/Terminal/Session/Boundary.antt =====
-- The admission checks of terminal-session-security.ts, with its constants.
use dashboard_rpi.Common.{
  ℕ, Bool, true, false, not, ◌&&◌, ◌||◌, Option, none, some, [], ◌∷◌, ◌==◌, leb, if◌then◌else◌,
  length, is_empty, Text, codes, text_eq,
}

abbrev pub expected_origin : Text
expected_origin = codes "https://dash.rozkalns.net"

abbrev pub idle_timeout_ms : ℕ
idle_timeout_ms = 300000

abbrev pub max_lifetime_ms : ℕ
max_lifetime_ms = 1800000

abbrev pub max_concurrent_sessions : ℕ
max_concurrent_sessions = 1

abbrev pub max_token_generation_attempts : ℕ
max_token_generation_attempts = 8

-- `TerminalAdmissionRejection` and the further cases of `TerminalTransportClaimRejection`.
pub data Rejection : Type 0 where
  terminal_disabled owner_auth_required origin_required origin_rejected : Rejection
  concurrency_limit : Rejection
  session_token_required session_token_invalid session_not_found : Rejection
  session_already_claimed : Rejection

-- What every boundary check reads; `none` is an absent header.
pub record Boundary : Type 0 where
  pub terminal_enabled : Bool
  pub owner_auth_verified : Bool
  pub origin : Option Text

-- `isTerminalExplicitlyEnabled`: `none` is an unset variable.
unfoldable pub is_terminal_explicitly_enabled : Option Text → Bool
is_terminal_explicitly_enabled none = false
is_terminal_explicitly_enabled (some value) = text_eq value (codes "enabled")

unfoldable pub is_hex_digit : ℕ → Bool
is_hex_digit c = leb b'0' c && leb c b'9' || leb b'a' c && leb c b'f'

unfoldable pub all_hex : Text → Bool
unfolding is_hex_digit
all_hex [] = true
all_hex (c ∷ s) = is_hex_digit c && all_hex s

-- `/^[0-9a-f]{64}$/`.
unfoldable pub is_terminal_session_token : Text → Bool
unfolding all_hex
is_terminal_session_token value = (length value == 64) && all_hex value

unfoldable pub origin_rejection : Option Text → Option Rejection
origin_rejection none = some origin_required
origin_rejection (some origin) =
    if is_empty origin
    then some origin_required
    else if text_eq origin expected_origin
    then none
    else some origin_rejected

-- `evaluateTerminalBoundary`: `none` lets the request pass.
unfoldable pub evaluate_terminal_boundary : Boundary → Option Rejection
unfolding origin_rejection
evaluate_terminal_boundary input =
    if not input.terminal_enabled
    then some terminal_disabled
    else if not input.owner_auth_verified
    then some owner_auth_required
    else origin_rejection input.origin

-- `evaluateTerminalAdmission`; the count is the size of a map, so a non-negative integer.
unfoldable pub evaluate_terminal_admission : Boundary → ℕ → Option Rejection
evaluate_terminal_admission input active_sessions = elim (evaluate_terminal_boundary input) [
  | some reason ↦ some reason
  | none ↦ if leb max_concurrent_sessions active_sessions then some concurrency_limit else none
]
