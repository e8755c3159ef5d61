-- ===== src/Tree/Unsafe/Place.antt =====
-- `emplace_node`, at any place.
use cpp_tools.Base.{ℕ, Option, none, some, ◌<◌, ◌≡◌, arith}
use cpp_tools.Base.Result.{ok}
use cpp_tools.Tree.Store.{Ptr, Heap}
use cpp_tools.Tree.Forest.{Forest, nil, tree, times, depth}
use cpp_tools.Tree.Graft.{graft}
use cpp_tools.Tree.Unsafe.{UnsafeTree, emplace_node}
use cpp_tools.Tree.Unsafe.Model.{Models}
use cpp_tools.Tree.Unsafe.Emplace.{emplace_below-Models, emplace_root-Models, emplace_root_empty}

module _ {ℓ} {T : Type ℓ} where
  -- The new leaf below a node, or the new root above the old tree.
  abbrev pub placed : Option Ptr → Ptr → T → Forest T → Forest T
  placed none fresh v f = tree fresh v f nil
  placed (some w) fresh v f = graft w (tree fresh v nil nil) f

  -- The place is null, or a node of the tree.
  abbrev pub IsPlace : Option Ptr → Forest T → Type 0
  IsPlace none f = Unit
  IsPlace (some w) f = 0 < times w f

  -- On a tree that stands for a forest, with an address that the forest does not have, a place in
  -- it and rounds for its depth, `emplace_node` returns a tree that stands for the forest with the
  -- new node: as the last child of the place, or as the root above the old one.
  pub emplace_node-Models :
      {h : Heap T} {t : UnsafeTree} (fuel : ℕ) (place : Option Ptr) (fresh : Ptr) (v : T)
      (f : Forest T)
      → Models h t f
      → IsPlace place f
      → times fresh f ≡ 0
      → depth f < fuel
      → (h' : Heap T) × (t' : UnsafeTree) × (emplace_node fuel h t place fresh v ≡ ok (h', t'))
        × Models h' t' (placed place fresh v f)
  unfolding emplace_node
  emplace_node-Models fuel none fresh v nil m inside out le = emplace_root_empty fresh v m
  emplace_node-Models fuel none fresh v (tree r x kids nil) m inside out le =
      emplace_root-Models fresh v 0 r x kids m out
  emplace_node-Models fuel none fresh v (tree r x kids (tree s y k rest)) m inside out le =
      absurd m.points
  emplace_node-Models fuel (some w) fresh v nil m inside out le = absurd (omega arith)
  emplace_node-Models fuel (some w) fresh v (tree r x kids nil) m inside out le =
      emplace_below-Models fresh v w r x kids fuel m inside out le
  emplace_node-Models fuel (some w) fresh v (tree r x kids (tree s y k rest)) m inside out le =
      absurd m.points
