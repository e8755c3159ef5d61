-- ===== src/Tree/Traversal/Siblings.antt =====
-- What the sibling queries of node.hpp return at a node whose place among its siblings is known.
use cpp_tools.Base.{
  ℕ, zero, suc, ◌+◌, true, false, List, [], ◌∷◌, ◌++◌, some, ◌≡◌, arith, length, get_elem?,
  length-append, append_assoc,
}
use cpp_tools.Base.Result.{ok}
use cpp_tools.Tree.Store.{Ptr, Node, node, Heap, load}
use cpp_tools.Tree.Forest.{Forest, tree, roots, Holds}
use cpp_tools.Tree.Node.{is_leftmost_sibling, is_rightmost_sibling, left_sibling, right_sibling}

pub get_elem?-append {ℓ} :
    {A : Type ℓ} (xs ys : List A) (n j : ℕ)
    → n ≡ length xs + j
    → get_elem? (xs ++ ys) n ≡ get_elem? ys j
get_elem?-append [] ys n j e = ground arith
get_elem?-append (x ∷ xs) ys zero j e = absurd (omega arith)
get_elem?-append (x ∷ xs) ys (suc n) j e = get_elem?-append xs ys n j (omega arith)

-- The node `p` stands behind `left` and before `right` among the children of `q`.
pub record Sits {ℓ} {T : Type ℓ} (h : Heap T) (p q : Ptr) (i : ℕ) (left right : List Ptr)
    : Type ℓ where
  pub value : T
  pub children : List Ptr
  pub here : h p ≡ some (node value (some q) i children)
  pub above : Node T
  pub parent : h q ≡ some above
  pub siblings : above.children ≡ left ++ p ∷ right
  pub index : i ≡ length left

module _ {ℓ} {T : Type ℓ} (h : Heap T) where
  -- The place of the first root, from that of the forest.
  unfoldable pub Sits_of :
      {q : Ptr} {i : ℕ} (m : Node T) (left : List Ptr) (p : Ptr) (v : T) (kids rest : Forest T)
      → Holds h (some q) i (tree p v kids rest)
      → h q ≡ some m
      → m.children ≡ left ++ p ∷ roots rest
      → i ≡ length left
      → Sits h p q i left (roots rest)
  Sits_of m left p v kids rest s parent siblings index = record {
    value = v;
    children = roots kids;
    here = s.0;
    above = m;
    parent = parent;
    siblings = siblings;
    index = index;
  }

module _ {ℓ} {T : Type ℓ} {h : Heap T} {p q : Ptr} where
  pub last_sibling :
      {i : ℕ} {left : List Ptr} → Sits h p q i left [] → is_rightmost_sibling h p ≡ ok true
  unfolding is_rightmost_sibling load
  last_sibling {left} s =
      rw (s.here, s.parent, s.siblings, length-append left (p ∷ [])) (ground (arith, s.index))

  pub inner_sibling :
      {i : ℕ} {r : Ptr} {left right : List Ptr}
      → Sits h p q i left (r ∷ right)
      → is_rightmost_sibling h p ≡ ok false
  unfolding is_rightmost_sibling load
  inner_sibling {r} {left} {right} s =
      rw (s.here, s.parent, s.siblings, length-append left (p ∷ r ∷ right))
        (ground (arith, s.index))

  pub right_sibling_lem :
      {i : ℕ} {r : Ptr} {left right : List Ptr}
      → Sits h p q i left (r ∷ right)
      → right_sibling h p ≡ ok r
  unfolding right_sibling load
  right_sibling_lem {i} {r} {left} {right} s = rw (
    s.here,
    s.parent,
    s.siblings,
    get_elem?-append left (p ∷ r ∷ right) (i + 1) 1 (omega (arith, s.index)),
  )

  pub first_sibling :
      {i : ℕ} {right : List Ptr} → Sits h p q i [] right → is_leftmost_sibling h p ≡ ok true
  unfolding is_leftmost_sibling load
  first_sibling s = rw s.here (ground (arith, s.index))

  pub later_sibling :
      {i : ℕ} (l : Ptr) (left right : List Ptr)
      → Sits h p q i (left ++ l ∷ []) right
      → is_leftmost_sibling h p ≡ ok false
  unfolding is_leftmost_sibling load
  later_sibling l left right s = rw s.here (ground (arith, s.index, length-append left (l ∷ [])))

  pub left_sibling_lem :
      {i : ℕ} (l : Ptr) (left right : List Ptr)
      → Sits h p q i (left ++ l ∷ []) right
      → left_sibling h p ≡ ok l
  unfolding left_sibling load
  left_sibling_lem {i} l left right s =
      let e : i ≡ suc (length left) = omega (arith, s.index, length-append left (l ∷ [])) in
      rw (
        s.here,
        s.parent,
        s.siblings,
        e,
        append_assoc left (l ∷ []) (p ∷ right),
        get_elem?-append left (l ∷ p ∷ right) (length left) 0 (omega arith),
      )
