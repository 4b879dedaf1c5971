-- ===== src/Terminal/Agent/Native.antt =====
-- apps/terminal-agent/src/native-pty.ts: under which identity the agent starts a shell, and at
-- which sizes. What the process and `node:path` answer is a record; `none` is `undefined`.
pub mod Identity
use dashboard_rpi.Common.{
  ℕ, zero, suc, Bool, true, false, not, ◌&&◌, ◌||◌, Option, none, some, List, [], ◌∷◌, ◌++◌, ltb,
  leb, ◌==◌, if◌then◌else◌, Text, codes, text_eq, is_empty, length,
}
use dashboard_rpi.Common.Json.{Number, pos, negsuc, fraction}
use dashboard_rpi.Terminal.Protocol.{contains_nul}
use dashboard_rpi.Terminal.Agent.Protocol.{
  native_min_cols, native_max_cols, native_min_rows, native_max_rows,
}

pub record UserInfo : Type 0 where
  pub username : Text
  pub uid : Number
  pub gid : Number
  pub homedir : Text

pub record Runtime : Type 0 where
  pub platform : Text
  pub arch : Text
  pub effective_uid : Option Number
  pub effective_gid : Option Number
  pub groups : Option (List Number)
  pub user_info : UserInfo
  pub is_absolute : Text → Bool

-- The integer above 0 that a value is, if it is one.
unfoldable pub positive : Option Number → Option ℕ
positive (some (pos (suc n))) = some (suc n)
positive _ = none

unfoldable pub is_number : ℕ → Number → Bool
is_number n (pos m) = n == m
is_number n (negsuc _) = false
is_number n fraction = false

-- `Set.has` and `Set.add`.
unfoldable pub member : ℕ → List ℕ → Bool
member n [] = false
member n (m ∷ set) = m == n || member n set

unfoldable pub add : ℕ → List ℕ → List ℕ
add n set = if member n set then set else set ++ n ∷ []

-- The loop of `hasOnlyPrimaryGroup`.
unfoldable pub collect : List ℕ → List Number → Option (List ℕ)
collect set [] = some set
collect set (pos n ∷ groups) = collect (add n set) groups
collect set (negsuc n ∷ groups) = none
collect set (fraction ∷ groups) = none

unfoldable pub only_member : ℕ → Option (List ℕ) → Bool
only_member gid none = false
only_member gid (some set) = (length set == 1) && member gid set

-- `hasOnlyPrimaryGroup`.
unfoldable pub has_only_primary_group : List Number → ℕ → Bool
has_only_primary_group groups gid =
    if is_empty groups then false else only_member gid (collect [] groups)

unfoldable pub is_name_character : ℕ → Bool
is_name_character c =
    (leb b'A' c && leb c b'Z')
    || (leb b'a' c && leb c b'z')
    || (leb b'0' c && leb c b'9')
    || c == b'.'
    || c == b'_'
    || c == b'-'

unfoldable pub all_name_characters : Text → Bool
all_name_characters [] = true
all_name_characters (c ∷ s) = is_name_character c && all_name_characters s

-- `/^[A-Za-z0-9._-]+$/`.
unfoldable pub is_username : Text → Bool
is_username s = not (is_empty s) && all_name_characters s

-- The tests of `getUserInfo()`.
unfoldable pub is_identity : Runtime → ℕ → ℕ → Bool
is_identity r uid gid =
    is_number uid r.user_info.uid
    && is_number gid r.user_info.gid
    && is_username r.user_info.username
    && not (is_empty r.user_info.homedir)
    && not (text_eq r.user_info.homedir (codes "/"))
    && not (contains_nul r.user_info.homedir)
    && r.is_absolute r.user_info.homedir

unfoldable pub checked : Runtime → Option ℕ → Option ℕ → Option (List Number) → Option UserInfo
checked r (some uid) (some gid) (some groups) =
    if has_only_primary_group groups gid && is_identity r uid gid then some r.user_info else none
checked r _ _ _ = none

-- `validateRuntime`; `none` is a throw.
unfoldable pub validate_runtime : Runtime → Option UserInfo
validate_runtime r =
    if text_eq r.platform (codes "linux")
      && (text_eq r.arch (codes "x64") || text_eq r.arch (codes "arm64"))
    then checked r (positive r.effective_uid) (positive r.effective_gid) r.groups
    else none

unfoldable pub is_size : ℕ → ℕ → Number → Bool
is_size min max (pos n) = leb min n && leb n max
is_size min max (negsuc _) = false
is_size min max fraction = false

-- `validateDimensions`; `false` is a throw.
unfoldable pub valid_dimensions : Number → Number → Bool
valid_dimensions cols rows =
    is_size native_min_cols native_max_cols cols && is_size native_min_rows native_max_rows rows
