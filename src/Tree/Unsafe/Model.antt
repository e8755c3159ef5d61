-- ===== src/Tree/Unsafe/Model.antt =====
-- When a tree in memory stands for a forest of one tree, or of none.
use cpp_tools.Base.{ℕ, List, none, some, ◌==◌, ◌≡◌, if◌then◌else◌, ◌+◌, [], ◌∷◌}
use cpp_tools.Tree.Store.{Ptr, Heap}
use cpp_tools.Tree.Forest.{Forest, nil, tree, preorder, postorder, times, Distinct, Holds}
use cpp_tools.Tree.Node.Descend.{head_or, last_or}
use cpp_tools.Tree.Unsafe.{UnsafeTree}

abbrev pub count : Ptr → List Ptr → ℕ
count a [] = 0
count a (x ∷ xs) = (if a == x then 1 else 0) + count a xs

module _ {ℓ} {T : Type ℓ} where
  -- The three pointers of a tree: null without a root; else the root, the first node in post-order
  -- and the last node in pre-order.
  abbrev pub Points : UnsafeTree → Forest T → Type 0
  Points t nil = (t.root ≡ none) × (t.leftmost ≡ none) × (t.rightmost ≡ none)
  Points t (tree p v kids nil) =
      (t.root ≡ some p)
      × (t.leftmost ≡ some (head_or (postorder kids) p))
      × (t.rightmost ≡ some (last_or (preorder kids) p))
  Points t (tree p v kids (tree q w more rest)) = ⊥

  pub record Models (h : Heap T) (t : UnsafeTree) (f : Forest T) : Type ℓ where
    pub held : Holds h none 0 f
    pub distinct : Distinct f
    pub owned : (a : Ptr) → count a t.nodes ≡ times a f
    pub points : Points t f
