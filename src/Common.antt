-- ===== src/Common.antt =====
-- Names that all modules share: the libraries', passed on, and those of the children below.
pub mod Tests
pub mod Lists
pub mod Texts
pub mod Json
pub mod Stringify
pub use Prim.Native.Nat.{◌/◌, ◌%◌, ℕ, zero, suc, ◌+◌, ◌-◌, ◌*◌, ◌≤◌, ◌<◌}
pub use mathlib.Core.Path.{◌≡◌, refl, sym, ap, ◌∙◌}
pub use mathlib.Core.Logic.{◌≢◌, ◌↔◌, ◌⊎◌, inl, inr}
pub use mathlib.Core.Bool.{Bool, true, false, not, ◌&&◌, ◌||◌}
pub use mathlib.Core.Option.{Option, none, some}
pub use mathlib.Core.List.{List, [], ◌∷◌, ◌++◌}
pub use native.Mathlib.Omega.{arith}
pub use Tests.{ltb, leb, ◌==◌, if◌then◌else◌, ==_iff, Bool-cases, Option-cases}
pub use Lists.{length, All, All-append, All-map, length-append, is_empty}
pub use Texts.{Text, codes, text_eq_iff, text_eq_refl, byte_length-append}
unfoldable pub use Texts.{text_eq, utf8_width, byte_length}
