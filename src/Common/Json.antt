-- ===== src/Common/Json.antt =====
-- The values of `JSON.parse`, and the checks of an object's shape.
use Prim.Native.Nat.{ℕ, compare, Ordering}
use mathlib.Core.Bool.{Bool, true, false, ◌&&◌}
use mathlib.Core.Option.{Option, none, some}
use mathlib.Core.List.{List, [], ◌∷◌}
use dashboard_rpi.Common.Tests.{if◌then◌else◌}
use dashboard_rpi.Common.Texts.{Text, text_eq}

-- A number is an integer below 2^53 in size, `negsuc n` being -(n + 1), or one that `Number.isInteger` refuses.
pub data Number : Type 0 where
  pos : ℕ → Number
  negsuc : ℕ → Number
  fraction : Number

mutual
  pub data Json : Type 0 where
    null : Json
    boolean : Bool → Json
    number : Number → Json
    string : Text → Json
    array : Items → Json
    object : Fields → Json

  pub data Items : Type 0 where
    nil : Items
    cons : Json → Items → Items

  -- The own properties in the order of `Object.keys`, each key once.
  pub data Fields : Type 0 where
    end : Fields
    field : Text → Json → Fields → Fields

unfoldable pub keys : Fields → List Text
keys end = []
keys (field k v fs) = k ∷ keys fs

-- `value[k]`; `none` is `undefined`.
unfoldable pub get : Text → Fields → Option Json
get k end = none
get k (field j v fs) = if text_eq j k then some v else get k fs

-- The order of strings that `sort` uses.
unfoldable pub text_le : Text → Text → Bool
text_le [] t = true
text_le (a ∷ s) [] = false
text_le (a ∷ s) (b ∷ t) = elim (compare a b) [
  | Ordering.lt ↦ true
  | Ordering.eq ↦ text_le s t
  | Ordering.gt ↦ false
]

insert_key : Text → List Text → List Text
insert_key k [] = k ∷ []
insert_key k (j ∷ ks) = if text_le k j then k ∷ j ∷ ks else j ∷ insert_key k ks

sort_keys : List Text → List Text
sort_keys [] = []
sort_keys (k ∷ ks) = insert_key k (sort_keys ks)

same_texts : List Text → List Text → Bool
same_texts [] [] = true
same_texts (s ∷ ss) (t ∷ ts) = text_eq s t && same_texts ss ts
same_texts _ _ = false

-- `hasExactKeys` and `assertExactKeys`: both key lists are sorted and compared.
unfoldable pub has_exact_keys : Fields → List Text → Bool
unfolding keys text_le insert_key sort_keys same_texts
has_exact_keys fs expected = same_texts (sort_keys (keys fs)) (sort_keys expected)
