-- ===== src/Tree/Traversal/PreorderBack.antt =====
-- `dfs_previous` in pre-order goes back through the forest.
use cpp_tools.Base.{
  ℕ, suc, ◌≤◌, List, [], ◌∷◌, ◌++◌, Option, some, ◌≡◌, refl, arith, length, length-append,
  append_assoc, ◌∙◌,
}
use cpp_tools.Base.Result.{ok}
use cpp_tools.Tree.Store.{Ptr, Node, node, Heap, load}
use cpp_tools.Tree.Forest.{Forest, nil, tree, roots, preorder, depth, Holds}
use cpp_tools.Tree.Node.{rightmost_child_or_this}
use cpp_tools.Tree.Node.Descend.{last_or, rightmost-preorder}
use cpp_tools.Tree.Traversal.{pre_previous}
use cpp_tools.Tree.Traversal.Visits.{finish, VisitsBack, VisitsBack-append}
use cpp_tools.Tree.Traversal.Siblings.{
  Sits, Sits_of, first_sibling, later_sibling, left_sibling_lem,
}

pub finish-last_or : (x : Ptr) (xs : List Ptr) → finish (some x) xs ≡ some (last_or xs x)
finish-last_or x [] = refl
finish-last_or x (y ∷ xs) = finish-last_or y xs

module _ {ℓ} {T : Type ℓ} (h : Heap T) where
  pub first_child_step :
      (fuel : ℕ) {q p : Ptr} {i : ℕ} {right : List Ptr}
      → Sits h p q i [] right
      → pre_previous fuel h p ≡ ok (some q)
  unfolding pre_previous load
  first_child_step fuel s = rw (s.here, first_sibling s)

  next_sibling_step :
      (fuel : ℕ) {q p : Ptr} {i : ℕ} (l : Ptr) (left right : List Ptr) (e : Ptr)
      → Sits h p q i (left ++ l ∷ []) right
      → rightmost_child_or_this fuel h l ≡ ok e
      → pre_previous fuel h p ≡ ok (some e)
  unfolding pre_previous load
  next_sibling_step fuel l left right e s last =
      rw (s.here, later_sibling l left right s, left_sibling_lem l left right s, last)

  pub preorder-VisitsBack :
      (fuel : ℕ) {q : Ptr} (i : ℕ) (b : Option Ptr) (m : Node T) (left : List Ptr) (f : Forest T)
      → Holds h (some q) i f
      → h q ≡ some m
      → m.children ≡ left ++ roots f
      → i ≡ length left
      → ((p : Ptr) (right : List Ptr) → Sits h p q i left right → pre_previous fuel h p ≡ ok b)
      → depth f ≤ fuel
      → VisitsBack (pre_previous fuel h) b (preorder f)
  unfolding Sits_of
  preorder-VisitsBack fuel i b m left nil s parent siblings index before le = tt
  preorder-VisitsBack fuel {q} i b m left (tree p v kids rest) s parent siblings index before le = (
    before p (roots rest) (Sits_of h m left p v kids rest s parent siblings index),
    VisitsBack-append (pre_previous fuel h) (some p) (preorder kids) (preorder rest)
        (preorder-VisitsBack fuel 0 (some p) (node v (some q) i (roots kids)) [] kids s.1 s.0 refl
          refl (λ c right sits. first_child_step fuel sits) (omega arith))
        (preorder-VisitsBack fuel (suc i) (finish (some p) (preorder kids)) m (left ++ p ∷ []) rest
          s.2 parent (siblings ∙ rw (append_assoc left (p ∷ []) (roots rest)))
          (omega (arith, length-append left (p ∷ [])))
          (λ c right sits. rw (finish-last_or p (preorder kids)) (
            next_sibling_step fuel p left right _ sits
              (rightmost-preorder h fuel p v kids rest s (omega arith))))
          (omega arith)),
  )
