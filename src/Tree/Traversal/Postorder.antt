-- ===== src/Tree/Traversal/Postorder.antt =====
-- `dfs_next` in post-order goes through the forest children before node, left to right.
use cpp_tools.Base.{
  ℕ, suc, ◌≤◌, List, [], ◌∷◌, ◌++◌, Option, some, ◌≡◌, refl, arith, length, length-append,
  append_assoc, ◌∙◌,
}
use cpp_tools.Base.Result.{ok}
use cpp_tools.Tree.Store.{Ptr, Node, node, Heap, load}
use cpp_tools.Tree.Forest.{Forest, nil, tree, roots, postorder, depth, Holds}
use cpp_tools.Tree.Node.Descend.{head_or, leftmost-postorder}
use cpp_tools.Tree.Traversal.{post_next}
use cpp_tools.Tree.Traversal.Visits.{start, Visits, Visits-append}
use cpp_tools.Tree.Traversal.Siblings.{
  Sits, Sits_of, last_sibling, inner_sibling, right_sibling_lem,
}

pub start-append :
    (xs ys : List Ptr) (x : Ptr) (e : Option Ptr) → start (xs ++ x ∷ ys) e ≡ some (head_or xs x)
start-append [] ys x e = refl
start-append (y ∷ xs) ys x e = refl

module _ {ℓ} {T : Type ℓ} (h : Heap T) where
  root_step :
      (fuel : ℕ) {q p : Ptr} {i : ℕ} (j : ℕ) {left : List Ptr} (rest : Forest T)
      → Sits h p q i left (roots rest)
      → Holds h (some q) j rest
      → depth rest ≤ fuel
      → post_next fuel h p ≡ ok (start (postorder rest) (some q))
  unfolding post_next load
  root_step fuel j nil s held le = rw (s.here, last_sibling s)
  root_step fuel {q} j (tree r w kids rest') s held le = rw (
    s.here,
    inner_sibling s,
    right_sibling_lem s,
    leftmost-postorder h fuel r w kids rest' held (omega arith),
    start-append (postorder kids) (postorder rest') r (some q),
  )

  pub postorder-Visits :
      (fuel : ℕ) {q : Ptr} (i : ℕ) (m : Node T) (left : List Ptr) (f : Forest T)
      → Holds h (some q) i f
      → h q ≡ some m
      → m.children ≡ left ++ roots f
      → i ≡ length left
      → depth f ≤ fuel
      → Visits (post_next fuel h) (postorder f) (some q)
  unfolding Sits_of
  postorder-Visits fuel i m left nil s parent siblings index le = tt
  postorder-Visits fuel {q} i m left (tree p v kids rest) s parent siblings index le =
      let sits = Sits_of h m left p v kids rest s parent siblings index in
      Visits-append (post_next fuel h) (postorder kids) (p ∷ postorder rest) (some q)
        (postorder-Visits fuel 0 (node v (some q) i (roots kids)) [] kids s.1 s.0 refl refl
          (omega arith))
        (
          root_step fuel (suc i) rest sits s.2 (omega arith),
          postorder-Visits fuel (suc i) m (left ++ p ∷ []) rest s.2 parent
              (siblings ∙ rw (append_assoc left (p ∷ []) (roots rest)))
              (omega (arith, length-append left (p ∷ []))) (omega arith),
        )
