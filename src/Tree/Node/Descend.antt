-- ===== src/Tree/Node/Descend.antt =====
-- The two descents of node.hpp end at the first and the last leaf of the subtree.
use cpp_tools.Base.{
  ℕ, zero, suc, ◌<◌, List, [], ◌∷◌, ◌++◌, Option, some, ◌≡◌, refl, arith, append-nil, ◌∙◌,
}
use cpp_tools.Base.Result.{ok}
use cpp_tools.Tree.Store.{Ptr, Heap, load}
use cpp_tools.Tree.Forest.{Forest, nil, tree, roots, preorder, postorder, depth, Holds}
use cpp_tools.Tree.Node.{last?, leftmost_child_or_this, rightmost_child_or_this}

module _ {ℓ} {A : Type ℓ} where
  abbrev pub head_or : List A → A → A
  head_or [] a = a
  head_or (x ∷ xs) a = x

  abbrev pub last_or : List A → A → A
  last_or [] a = a
  last_or (x ∷ xs) a = last_or xs x

  pub head_or-append : (xs ys : List A) (a : A) → head_or (xs ++ ys) a ≡ head_or xs (head_or ys a)
  head_or-append [] ys a = refl
  head_or-append (x ∷ xs) ys a = refl

  pub last_or-append : (xs ys : List A) (a : A) → last_or (xs ++ ys) a ≡ last_or ys (last_or xs a)
  last_or-append [] ys a = refl
  last_or-append (x ∷ xs) ys a = last_or-append xs ys x

module _ {ℓ} {T : Type ℓ} (h : Heap T) where
  -- From a node of a forest that the heap holds, with fuel for the depth below it,
  -- `leftmost_child_or_this` ends at the first node of its subtree in post-order.
  pub leftmost-postorder :
      (k : ℕ) {q : Option Ptr} {i : ℕ} (p : Ptr) (v : T) (kids rest : Forest T)
      → Holds h q i (tree p v kids rest)
      → depth kids < k
      → leftmost_child_or_this k h p ≡ ok (head_or (postorder kids) p)
  unfolding leftmost_child_or_this load
  leftmost-postorder zero p v kids rest s fuel = absurd (omega arith)
  leftmost-postorder (suc k) p v nil rest s fuel = rw s.0
  leftmost-postorder (suc k) p v (tree c w kids' rest') rest s fuel = rw (
    s.0,
    leftmost-postorder k c w kids' rest' s.1 (omega arith),
    head_or-append (postorder kids') (c ∷ postorder rest') p,
  )

  -- The last root of a forest, and the end of the branch of last children below it.
  rightmost_roots :
      (k : ℕ) {q : Option Ptr} {i : ℕ} (p : Ptr) (v : T) (kids rest : Forest T) (a : Ptr)
      → Holds h q i (tree p v kids rest)
      → depth (tree p v kids rest) < suc k
      → (c : Ptr) × (last? (p ∷ roots rest) ≡ some c)
        × (rightmost_child_or_this k h c ≡ ok (last_or (preorder (tree p v kids rest)) a))
  unfolding rightmost_child_or_this load
  rightmost_roots zero p v kids rest a s fuel = absurd (omega arith)
  rightmost_roots (suc k) p v nil nil a s fuel = (p, refl, rw s.0)
  rightmost_roots (suc k) p v (tree c w kids' rest') nil a s fuel =
      let (d, last, found) = rightmost_roots k c w kids' rest' p s.1 (omega arith) in
      (p, refl, rw (s.0, last) (found ∙ (rw append-nil)))
  rightmost_roots (suc k) p v kids (tree c w kids' rest') a s fuel =
      let (d, last, found) =
        rightmost_roots (suc k) c w kids' rest' (last_or (preorder kids) p) s.2 (omega arith) in
      (
        d,
        last,
        found ∙ (rw (last_or-append (preorder kids) (c ∷ (preorder kids' ++ preorder rest')) p)),
      )

  -- From a node of a forest that the heap holds, with fuel for the depth below it,
  -- `rightmost_child_or_this` ends at the last node of its subtree in pre-order.
  pub rightmost-preorder :
      (k : ℕ) {q : Option Ptr} {i : ℕ} (p : Ptr) (v : T) (kids rest : Forest T)
      → Holds h q i (tree p v kids rest)
      → depth kids < k
      → rightmost_child_or_this k h p ≡ ok (last_or (preorder kids) p)
  unfolding rightmost_child_or_this load
  rightmost-preorder zero p v kids rest s fuel = absurd (omega arith)
  rightmost-preorder (suc k) p v nil rest s fuel = rw s.0
  rightmost-preorder (suc k) p v (tree c w kids' rest') rest s fuel =
      let (d, last, found) = rightmost_roots k c w kids' rest' p s.1 (omega arith) in
      rw (s.0, last) found
