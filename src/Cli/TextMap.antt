-- ===== src/Cli/TextMap.antt =====
-- A `std::map` from strings, as the list of its entries in order, which the shell keeps its commands in.
pub mod Laws
use Prim.Native.Nat.{Ordering}
use Prim.Native.Nat.Ordering.{lt, eq, gt}
use cpp_tools.Base.{Bool, true, false, List, [], ◌∷◌, Option, none, some, if◌then◌else◌}
use cpp_tools.Text.Chars.{Text, text_eq}
use cpp_tools.Cli.Arguments.Values.{compare_text}

module _ {ℓ} (V : Type ℓ) where
  abbrev pub TextMap : Type ℓ
  TextMap = List (Text × V)

module _ {ℓ} {V : Type ℓ} where
  -- `std::map::find`
  abbrev pub find : Text → TextMap V → Option V
  find k [] = none
  find k ((j, v) ∷ m) = let rest = find k m in if text_eq j k then some v else rest

  -- `std::map::insert`, which leaves an entry with the key alone.
  unfoldable pub insert : Text → V → TextMap V → TextMap V
  insert k v [] = (k, v) ∷ []
  insert k v ((j, w) ∷ m) =
      let rest = insert k v m in
      elim (compare_text k j) [ lt ↦ (k, v) ∷ (j, w) ∷ m | eq ↦ (j, w) ∷ m | gt ↦ (j, w) ∷ rest ]

  -- `std::map::erase`
  unfoldable pub erase : Text → TextMap V → TextMap V
  erase k [] = []
  erase k ((j, w) ∷ m) = let rest = erase k m in if text_eq j k then m else (j, w) ∷ rest
