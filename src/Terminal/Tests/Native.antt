-- ===== src/Terminal/Tests/Native.antt =====
-- A runtime that may start a shell.
use dashboard_rpi.Terminal.Protocol.{contains_nul}
use dashboard_rpi.Common.{text_eq, ◌≡◌, refl, true, some, [], ◌∷◌, codes}
use dashboard_rpi.Common.Json.{pos}
use dashboard_rpi.Terminal.Agent.Native.{
  is_name_character, all_name_characters, is_username, is_number, is_identity, member, add, collect,
  only_member, has_only_primary_group, positive, checked, UserInfo, Runtime, validate_runtime,
}
use dashboard_rpi.Terminal.Agent.Native.Identity.{Safe, validate_runtime-Safe}

abbrev owner : UserInfo
owner = record {
  username = codes "sandris";
  uid = pos 1000;
  gid = pos 1000;
  homedir = codes "/home/sandris";
}

abbrev runtime : Runtime
runtime = record {
  platform = codes "linux";
  arch = codes "arm64";
  effective_uid = some (pos 1000);
  effective_gid = some (pos 1000);
  groups = some (pos 1000 ∷ pos 1000 ∷ []);
  user_info = owner;
  is_absolute = λ s. true;
}

runtime-passes : validate_runtime runtime ≡ some owner
unfolding validate_runtime text_eq checked positive has_only_primary_group only_member collect add
    member is_identity is_number is_username all_name_characters is_name_character contains_nul
runtime-passes = refl

validate_runtime-Safe_example : Safe runtime × (owner ≡ owner)
validate_runtime-Safe_example = validate_runtime-Safe runtime owner runtime-passes
