-- ===== src/Tree/Traversal/PostorderBack.antt =====
-- `dfs_previous` in post-order goes back through the forest.
use cpp_tools.Base.{
  ℕ, suc, ◌+◌, ◌≤◌, List, [], ◌∷◌, ◌++◌, Option, some, ◌≡◌, refl, arith, length, length-append,
  append_assoc, ◌∙◌, ap, sym,
}
use cpp_tools.Base.Result.{ok}
use cpp_tools.Tree.Store.{Ptr, Node, node, Heap, load}
use cpp_tools.Tree.Forest.{Forest, nil, tree, roots, postorder, depth, Holds}
use cpp_tools.Tree.Node.{last?, is_leftmost_sibling, left_sibling}
use cpp_tools.Tree.Traversal.{post_previous}
use cpp_tools.Tree.Traversal.Visits.{finish, VisitsBack, VisitsBack-append, finish-append}
use cpp_tools.Tree.Traversal.Siblings.{
  Sits, Sits_of, first_sibling, later_sibling, left_sibling_lem,
}
use cpp_tools.Tree.Traversal.Climb.{Exits, Exits-up, Exits-stop}

pub last?-some {ℓ} : {A : Type ℓ} (x : A) (xs : List A) → (z : A) × (last? (x ∷ xs) ≡ some z)
last?-some x [] = (x, refl)
last?-some x (y ∷ xs) = last?-some y xs

-- The last root is the last of the nodes, children before node.
pub finish-postorder {ℓ} :
    {T : Type ℓ} (b : Option Ptr) (p : Ptr) (v : T) (kids rest : Forest T)
    → last? (p ∷ roots rest) ≡ finish b (postorder (tree p v kids rest))
finish-postorder b p v kids nil = rw (finish-append b (postorder kids) (p ∷ []))
finish-postorder b p v kids (tree r w kids' rest) =
    finish-postorder (some p) r w kids' rest
    ∙ rw (finish-append b (postorder kids) (p ∷ postorder (tree r w kids' rest)))

module _ {ℓ} {T : Type ℓ} (h : Heap T) where
  -- What lies before the subtrees of a forest: the sibling on the left, or the exit of the parent.
  pub data Entry (d : ℕ) (q : Ptr) : List Ptr → Option Ptr → Type 0 where
    enter : {b : Option Ptr} → Exits is_leftmost_sibling left_sibling h d q b → Entry d q [] b
    behind : (l : Ptr) (left : List Ptr) → Entry d q (left ++ l ∷ []) (some l)

  Entry-exit :
      {d : ℕ} {q p : Ptr} {i : ℕ} {b : Option Ptr} {left right : List Ptr}
      → Entry d q left b
      → Sits h p q i left right
      → Exits is_leftmost_sibling left_sibling h (suc d) p b
  Entry-exit (enter exit) s =
      Exits-up is_leftmost_sibling left_sibling h _ s.here refl (first_sibling s) exit
  Entry-exit {d} {right} (behind l left) s =
      Exits-stop is_leftmost_sibling left_sibling h d _ s.here refl (later_sibling l left right s)
        (left_sibling_lem l left right s)

  leaf_step :
      {d : ℕ} (fuel : ℕ) {q p : Ptr} {i : ℕ} {b : Option Ptr} {left right : List Ptr}
      → Entry d q left b
      → (s : Sits h p q i left right) → s.children ≡ []
      → d ≤ fuel
      → post_previous fuel h p ≡ ok b
  unfolding post_previous load
  leaf_step fuel (enter exit) s leaf le = rw (s.here, leaf, first_sibling s) (exit fuel le)
  leaf_step fuel {right} (behind l left) s leaf le =
      rw (s.here, leaf, later_sibling l left right s, left_sibling_lem l left right s)

  root_step :
      {d : ℕ} (fuel : ℕ) {q p : Ptr} {i : ℕ} {b : Option Ptr} {left right : List Ptr}
      (kids : Forest T)
      → Entry d q left b
      → (s : Sits h p q i left right) → s.children ≡ roots kids
      → d ≤ fuel
      → post_previous fuel h p ≡ ok (finish b (postorder kids))
  unfolding post_previous load
  root_step fuel nil entry s cs le = leaf_step fuel entry s cs le
  root_step fuel {b} (tree c w kids' rest') entry s cs le =
      let (z, e) = last?-some c (roots rest') in
      rw (s.here, cs, e) (ap ok (sym e ∙ finish-postorder b c w kids' rest'))

  pub postorder-VisitsBack :
      (fuel d : ℕ) {q : Ptr} (i : ℕ) (b : Option Ptr) (m : Node T) (left : List Ptr) (f : Forest T)
      → Holds h (some q) i f
      → h q ≡ some m
      → m.children ≡ left ++ roots f
      → i ≡ length left
      → Entry d q left b
      → depth f + d ≤ fuel
      → VisitsBack (post_previous fuel h) b (postorder f)
  unfolding Sits_of
  postorder-VisitsBack fuel d i b m left nil s parent siblings index entry le = tt
  postorder-VisitsBack fuel d {q} i b m left (tree p v kids rest) s parent siblings index entry le =
      let sits = Sits_of h m left p v kids rest s parent siblings index in
      VisitsBack-append (post_previous fuel h) b (postorder kids) (p ∷ postorder rest)
        (postorder-VisitsBack fuel (suc d) 0 b (node v (some q) i (roots kids)) [] kids s.1 s.0 refl
          refl (enter (Entry-exit entry sits)) (omega arith))
        (
          root_step fuel kids entry sits refl (omega arith),
          postorder-VisitsBack fuel d (suc i) (some p) m (left ++ p ∷ []) rest s.2 parent
              (siblings ∙ rw (append_assoc left (p ∷ []) (roots rest)))
              (omega (arith, length-append left (p ∷ []))) (behind p left) (omega arith),
        )
