-- ===== src/Quick/Command.antt =====
-- The catalogue of commands, and the cleaning of their output.
use dashboard_rpi.Common.{
  ℕ, Bool, ◌&&◌, ◌||◌, List, [], ◌∷◌, ◌++◌, ◌==◌, leb, if◌then◌else◌, Text, codes,
}
use mathlib.Core.List.{reverse, map}
use dashboard_rpi.Terminal.Platform.{Bytes}
use dashboard_rpi.Owner.Strings.{drop_spaces}

abbrev pub max_output_bytes : ℕ
max_output_bytes = 16384

pub data CommandId : Type 0 where
  host_uptime host_kernel host_disk_root host_failed_units : CommandId

pub record CommandSpec : Type 0 where
  pub name : Text
  pub label : Text
  pub description : Text
  pub executable : Text
  pub args : List Text

-- `COMMANDS`; `name` is the key.
unfoldable pub command_spec : CommandId → CommandSpec
command_spec host_uptime = record {
  name = codes "host.uptime";
  label = codes "Uptime";
  description = codes "Human-readable host uptime";
  executable = codes "/usr/bin/uptime";
  args = codes "--pretty" ∷ [];
}
command_spec host_kernel = record {
  name = codes "host.kernel";
  label = codes "Kernel";
  description = codes "Kernel release and machine architecture";
  executable = codes "/usr/bin/uname";
  args = codes "-srmo" ∷ [];
}
command_spec host_disk_root = record {
  name = codes "host.disk-root";
  label = codes "Root disk usage";
  description = codes "Bounded root filesystem usage summary";
  executable = codes "/usr/bin/df";
  args = codes "-h" ∷ codes "--output=source,size,used,avail,pcent,target" ∷ codes "/" ∷ [];
}
command_spec host_failed_units = record {
  name = codes "host.failed-units";
  label = codes "Failed services";
  description = codes "Systemd units currently in failed state";
  executable = codes "/usr/bin/systemctl";
  args = codes "--failed" ∷ codes "--no-legend" ∷ codes "--plain" ∷ codes "--no-pager" ∷ [];
}

pub record CatalogEntry : Type 0 where
  pub id : Text
  pub label : Text
  pub description : Text

unfoldable pub catalog_entry : CommandId → CatalogEntry
unfolding command_spec
catalog_entry id = record {
  id = (command_spec id).name;
  label = (command_spec id).label;
  description = (command_spec id).description;
}

-- `listQuickCommands`.
unfoldable pub list_quick_commands : List CatalogEntry
unfolding catalog_entry
list_quick_commands =
    map catalog_entry (host_uptime ∷ host_kernel ∷ host_disk_root ∷ host_failed_units ∷ [])

unfoldable pub is_disallowed_control_code : ℕ → Bool
is_disallowed_control_code code =
    leb code 0x08
    || code == 0x0b
    || code == 0x0c
    || (leb 0x0e code && leb code 0x1f)
    || (leb 0x7f code && leb code 0x9f)

abbrev pub replacement_character : ℕ
replacement_character = 0xfffd

-- A code point beyond U+FFFF starts with a surrogate, which is allowed as the code point is.
unfoldable pub sanitize_character : ℕ → ℕ
unfolding is_disallowed_control_code
sanitize_character code = if is_disallowed_control_code code then replacement_character else code

-- `value.trimEnd()`.
unfoldable pub trim_end : Text → Text
unfolding drop_spaces
trim_end value = reverse (drop_spaces (reverse value))

unfoldable pub concat : List Bytes → Bytes
concat [] = []
concat (chunk ∷ chunks) = chunk ++ concat chunks

-- `sanitizeOutput`; `utf8_text` decodes bytes as `toString("utf8")` does.
unfoldable pub sanitize_output : (Bytes → Text) → List Bytes → Text
unfolding sanitize_character trim_end concat
sanitize_output utf8_text chunks = trim_end (map sanitize_character (utf8_text (concat chunks)))
