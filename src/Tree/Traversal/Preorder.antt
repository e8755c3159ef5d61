-- ===== src/Tree/Traversal/Preorder.antt =====
-- `dfs_next` in pre-order goes through the forest node before children, left to right.
use cpp_tools.Base.{
  ℕ, suc, ◌+◌, ◌≤◌, List, [], ◌∷◌, ◌++◌, Option, some, ◌≡◌, refl, arith, length, length-append,
  append_assoc, ◌∙◌,
}
use cpp_tools.Base.Result.{ok}
use cpp_tools.Tree.Store.{Ptr, Node, node, Heap, load}
use cpp_tools.Tree.Forest.{Forest, nil, tree, roots, preorder, depth, Holds}
use cpp_tools.Tree.Node.{is_rightmost_sibling, right_sibling}
use cpp_tools.Tree.Traversal.{pre_next}
use cpp_tools.Tree.Traversal.Visits.{start, Visits, Visits-append}
use cpp_tools.Tree.Traversal.Siblings.{
  Sits, Sits_of, last_sibling, inner_sibling, right_sibling_lem,
}
use cpp_tools.Tree.Traversal.Climb.{Exits, Exits-up, Exits-stop}

module _ {ℓ} {T : Type ℓ} (h : Heap T) where
  -- The exit of a finished subtree: the next sibling, or the exit of the parent.
  exit_of :
      {d : ℕ} {q p : Ptr} {i : ℕ} {e : Option Ptr} {left : List Ptr} (rest : Forest T)
      → Sits h p q i left (roots rest)
      → Exits is_rightmost_sibling right_sibling h d q e
      → Exits is_rightmost_sibling right_sibling h (suc d) p (start (preorder rest) e)
  exit_of nil s exit =
      Exits-up is_rightmost_sibling right_sibling h _ s.here refl (last_sibling s) exit
  exit_of {d} (tree r w kids rest) s exit =
      Exits-stop is_rightmost_sibling right_sibling h d _ s.here refl (inner_sibling s)
        (right_sibling_lem s)

  leaf_step :
      {d : ℕ} (fuel : ℕ) {q p : Ptr} {i : ℕ} {e : Option Ptr} {left : List Ptr} (rest : Forest T)
      → (s : Sits h p q i left (roots rest)) → s.children ≡ []
      → Exits is_rightmost_sibling right_sibling h d q e
      → d ≤ fuel
      → pre_next fuel h p ≡ ok (start (preorder rest) e)
  unfolding pre_next load
  leaf_step fuel nil s leaf exit le = rw (s.here, leaf, last_sibling s) (exit fuel le)
  leaf_step fuel (tree r w kids rest) s leaf exit le =
      rw (s.here, leaf, inner_sibling s, right_sibling_lem s)

  node_step :
      {d : ℕ} (fuel : ℕ) {q p : Ptr} {i : ℕ} {e : Option Ptr} {left : List Ptr}
      (kids rest : Forest T)
      → (s : Sits h p q i left (roots rest)) → s.children ≡ roots kids
      → Exits is_rightmost_sibling right_sibling h d q e
      → d ≤ fuel
      → pre_next fuel h p ≡ ok (start (preorder kids ++ preorder rest) e)
  unfolding pre_next load
  node_step fuel nil rest s cs exit le = leaf_step fuel rest s cs exit le
  node_step fuel (tree c w kids' rest') rest s cs exit le = rw (s.here, cs)

  pub preorder-Visits :
      (fuel d : ℕ) {q : Ptr} (i : ℕ) (e : Option Ptr) (m : Node T) (left : List Ptr) (f : Forest T)
      → Holds h (some q) i f
      → h q ≡ some m
      → m.children ≡ left ++ roots f
      → i ≡ length left
      → Exits is_rightmost_sibling right_sibling h d q e
      → depth f + d ≤ fuel
      → Visits (pre_next fuel h) (preorder f) e
  unfolding Sits_of
  preorder-Visits fuel d i e m left nil s parent siblings index exit le = tt
  preorder-Visits fuel d {q} i e m left (tree p v kids rest) s parent siblings index exit le =
      let sits = Sits_of h m left p v kids rest s parent siblings index in
      (
        node_step fuel kids rest sits refl exit (omega arith),
        Visits-append (pre_next fuel h) (preorder kids) (preorder rest) e
            (preorder-Visits fuel (suc d) 0 (start (preorder rest) e)
              (node v (some q) i (roots kids)) [] kids s.1 s.0 refl refl (exit_of rest sits exit)
              (omega arith))
            (preorder-Visits fuel d (suc i) e m (left ++ p ∷ []) rest s.2 parent
              (siblings ∙ rw (append_assoc left (p ∷ []) (roots rest)))
              (omega (arith, length-append left (p ∷ []))) exit (omega arith)),
      )
