-- ===== src/Tree/Forest.antt =====
-- What the nodes stand for: an ordered forest whose nodes keep their addresses, and when a heap
-- holds it.
use cpp_tools.Base.{
  if◌then◌else◌, ◌+◌, ◌≤◌, ℕ, suc, max, List, [], ◌∷◌, ◌++◌, Option, some, ◌==◌, ◌≡◌,
}
use cpp_tools.Tree.Store.{Ptr, Heap, node}

-- `tree p v kids rest` is the tree at `p` with the children `kids`, then the trees of `rest`.
pub data Forest {ℓ} (T : Type ℓ) : Type ℓ where
  nil : Forest T
  tree : Ptr → T → Forest T → Forest T → Forest T

module _ {ℓ} {T : Type ℓ} where
  abbrev pub roots : Forest T → List Ptr
  roots nil = []
  roots (tree p v kids rest) = p ∷ roots rest

  -- Node before children.
  abbrev pub preorder : Forest T → List Ptr
  preorder nil = []
  preorder (tree p v kids rest) = p ∷ (preorder kids ++ preorder rest)

  -- Children before node.
  abbrev pub postorder : Forest T → List Ptr
  postorder nil = []
  postorder (tree p v kids rest) = postorder kids ++ (p ∷ postorder rest)

  abbrev pub depth : Forest T → ℕ
  depth nil = 0
  depth (tree p v kids rest) = max (suc (depth kids)) (depth rest)

  abbrev pub node_count : Forest T → ℕ
  node_count nil = 0
  node_count (tree p v kids rest) = suc (node_count kids + node_count rest)

  -- How often an address stands in the forest.
  abbrev pub times : Ptr → Forest T → ℕ
  times a nil = 0
  times a (tree p v kids rest) = (if a == p then 1 else 0) + (times a kids + times a rest)

  abbrev pub Distinct : Forest T → Type 0
  Distinct f = (a : Ptr) → times a f ≤ 1

  -- Every root of the forest has this parent and the index at which it stands, from `i` on.
  abbrev pub Holds : Heap T → Option Ptr → ℕ → Forest T → Type ℓ
  Holds h q i nil = Unit
  Holds h q i (tree p v kids rest) =
      (h p ≡ some (node v q i (roots kids))) × Holds h (some p) 0 kids × Holds h q (suc i) rest
