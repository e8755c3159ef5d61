-- ===== src/Tree/Unsafe/Equality/Walk.antt =====
-- The walk over two trees compares the forests that they stand for.
use cpp_tools.Base.{
  ℕ, zero, suc, ◌+◌, Bool, true, false, ◌&&◌, List, [], ◌∷◌, ◌++◌, Option, some, ◌==◌, ◌≡◌, refl,
  sym, ◌∙◌, inl, inr, arith, if◌then◌else◌, length, Bool-cases, append_assoc, length-append,
}
use cpp_tools.Base.Result.{Result, ok, ◌>>=◌}
use cpp_tools.Tree.Store.{Ptr, Node, node, Heap, load}
use cpp_tools.Tree.Forest.{Forest, nil, tree, roots, node_count, Holds}
use cpp_tools.Tree.Traversal.Siblings.{
  Sits, Sits_of, last_sibling, inner_sibling, right_sibling_lem,
}
use cpp_tools.Tree.Unsafe.Equality.{Stack, unstack, visit_right, walk_equal}

module _ {ℓ} {T : Type ℓ} (eq : T → T → Bool) where
  -- The same shape, with values that compare equal.
  abbrev pub same_forest : Forest T → Forest T → Bool
  same_forest nil nil = true
  same_forest nil (tree q w k r) = false
  same_forest (tree p v kids rest) nil = false
  same_forest (tree p v kids rest) (tree q w k r) =
      eq v w && (same_forest kids k && same_forest rest r)

  pub length-roots : (f g : Forest T) → same_forest f g ≡ true → length (roots f) ≡ length (roots g)
  length-roots nil nil e = refl
  length-roots nil (tree q w k r) e = ground arith
  length-roots (tree p v kids rest) nil e = ground arith
  length-roots (tree p v kids rest) (tree q w k r) e = ground (arith, length-roots rest r)

  module _ (h : Heap T) where
    -- What follows a pair whose subtrees are done.
    abbrev pub resume : ℕ → Stack → Ptr → Ptr → Result Bool
    resume k stack this other = unstack h stack this other >>= visit_right h (walk_equal eq h k)

    -- `f` stands behind the children `left` of `q`.
    pub record Behind (q : Ptr) (left : List Ptr) (f : Forest T) : Type ℓ where
      pub parent : Node T
      pub at : h q ≡ some parent
      pub children : parent.children ≡ left ++ roots f
      pub held : Holds h (some q) (length left) f

    Behind-Sits :
        {q p : Ptr} {left : List Ptr} {v : T} {kids rest : Forest T}
        → Behind q left (tree p v kids rest)
        → Sits h p q (length left) left (roots rest)
    Behind-Sits {p = p} {left} {v} {kids} {rest} b =
        Sits_of h b.parent left p v kids rest b.held b.at b.children refl

    Behind-rest :
        {q p : Ptr} {left : List Ptr} {v : T} {kids rest : Forest T}
        → Behind q left (tree p v kids rest)
        → Behind q (left ++ p ∷ []) rest
    Behind-rest {q} {p} {left} {v} {kids} {rest} b =
        let e : length left + 1 ≡ suc (length left) = omega arith in
        record {
          parent = b.parent;
          at = b.at;
          children = b.children ∙ sym (append_assoc left (p ∷ []) (roots rest));
          held = rw (length-append left (p ∷ []), e) b.held.2;
        }

    pub Behind-kids :
        (q : Option Ptr) (i : ℕ) (p : Ptr) (v : T) (kids rest : Forest T)
        → Holds h q i (tree p v kids rest)
        → Behind p [] kids
    Behind-kids q i p v kids rest held = record {
      parent = node v q i (roots kids);
      at = held.0;
      children = refl;
      held = held.1;
    }

    -- At the last of its siblings the walk goes on from the parents.
    resume-last :
        (k : ℕ) (stack : Stack) {P p : Ptr} (Q q : Ptr) {left : List Ptr} {v : T} {kids : Forest T}
        → Behind P left (tree p v kids nil)
        → resume k ((P, Q) ∷ stack) p q ≡ resume k stack P Q
    unfolding unstack load
    resume-last k stack Q q b = let s = Behind-Sits b in rw (s.here, last_sibling s)

    -- At any other the walk goes on with the next siblings.
    resume-inner :
        (k : ℕ) (stack : Stack) {P Q p q p' q' : Ptr} {left left' : List Ptr} {v w v' w' : T}
        {kids kids' below below' rest rest' : Forest T}
        → Behind P left (tree p v kids (tree p' v' below rest))
        → Behind Q left' (tree q w kids' (tree q' w' below' rest'))
        → resume k ((P, Q) ∷ stack) p q ≡ walk_equal eq h k ((P, Q) ∷ stack) p' q'
    unfolding unstack load
    resume-inner k stack b c =
        let s = Behind-Sits b in
        rw (s.here, inner_sibling s, right_sibling_lem s, right_sibling_lem (Behind-Sits c))

    -- The walk over forests that stand at the end of the children of two nodes.
    abbrev pub Walks : Forest T → Forest T → Type ℓ
    Walks nil g = Unit
    Walks (tree p v kids rest) nil = Unit
    Walks (tree p v kids rest) (tree q w kids' rest') =
        (fuel k : ℕ) (stack : Stack) (P Q : Ptr) (left left' : List Ptr)
        → Behind P left (tree p v kids rest)
        → Behind Q left' (tree q w kids' rest')
        → length (roots rest) ≡ length (roots rest')
        → fuel ≡ node_count (tree p v kids rest) + k
        → walk_equal eq h fuel ((P, Q) ∷ stack) p q ≡ (
            if same_forest (tree p v kids rest) (tree q w kids' rest')
            then resume k stack P Q
            else ok false)

    -- The siblings on the right, once the subtrees of a pair are done.
    walk_rest :
        (fuel k : ℕ) (stack : Stack) (P Q p q : Ptr) (left left' : List Ptr) (v w : T)
        (kids rest kids' rest' : Forest T)
        → Behind P left (tree p v kids rest)
        → Behind Q left' (tree q w kids' rest')
        → length (roots rest) ≡ length (roots rest')
        → Walks rest rest'
        → fuel ≡ node_count rest + k
        → resume fuel ((P, Q) ∷ stack) p q
          ≡ (if same_forest rest rest' then resume k stack P Q else ok false)
    walk_rest fuel k stack P Q p q left left' v w kids nil kids' nil b c e ih enough =
        let same : fuel ≡ k = omega arith in rw same (resume-last k stack Q q b)
    walk_rest fuel k stack P Q p q left left' v w kids nil kids' (tree a x k1 r1) b c e ih enough =
        absurd (omega (arith, e))
    walk_rest fuel k stack P Q p q left left' v w kids (tree a x k1 r1) kids' nil b c e ih enough =
        absurd (omega (arith, e))
    walk_rest fuel k stack P Q p q left left' v w kids (tree a x k1 r1) kids' (tree d y k2 r2) b c e
          ih enough =
        resume-inner fuel stack b c
        ∙ ih fuel k stack P Q (left ++ p ∷ []) (left' ++ q ∷ []) (Behind-rest b) (Behind-rest c)
            (omega (arith, e)) enough

    -- A pair of nodes, and the children below it.
    pub walk_node :
        (fuel k : ℕ) (stack : Stack) (p q : Ptr) (i j : ℕ) (o o' : Option Ptr) (v w : T)
        (kids rest kids' rest' : Forest T)
        → Holds h o i (tree p v kids rest)
        → Holds h o' j (tree q w kids' rest')
        → Walks kids kids'
        → fuel ≡ node_count kids + k
        → walk_equal eq h (suc fuel) stack p q
          ≡ (if eq v w && same_forest kids kids' then resume k stack p q else ok false)
    unfolding walk_equal load
    walk_node fuel k stack p q i j o o' v w nil rest nil rest' a b ih enough =
        let same : fuel ≡ k = omega arith in
        elim (Bool-cases (eq v w)) [ inl e ↦ rw (a.0, b.0, e, same) | inr e ↦ rw (a.0, b.0, e) ]
    walk_node fuel k stack p q i j o o' v w nil rest (tree d y k2 r2) rest' a b ih enough =
        rw (a.0, b.0) (ground arith)
    walk_node fuel k stack p q i j o o' v w (tree c x k1 r1) rest nil rest' a b ih enough =
        rw (a.0, b.0) (ground arith)
    walk_node fuel k stack p q i j o o' v w (tree c x k1 r1) rest (tree d y k2 r2) rest' a b ih
          enough =
        let f = tree c x k1 r1 in
        let g = tree d y k2 r2 in
        elim (Bool-cases (length (roots f) == length (roots g))) [
          | inr miss ↦
              let differ : same_forest f g ≡ false = ground (arith, length-roots f g) in
              rw (a.0, b.0, differ) (ground (arith, miss))
          | inl hit ↦
              let down =
                ih fuel k stack p q [] [] (Behind-kids o i p v f rest a)
                  (Behind-kids o' j q w g rest' b) (ground arith) enough in
              rw (a.0, b.0) (ground (arith, hit, down))
        ]

    walk_pair :
        (p q : Ptr) (v w : T) (kids rest kids' rest' : Forest T)
        → Walks kids kids'
        → Walks rest rest'
        → Walks (tree p v kids rest) (tree q w kids' rest')
    walk_pair p q v w kids rest kids' rest' below beside zero k stack P Q left left' b c e enough =
        absurd (omega arith)
    walk_pair p q v w kids rest kids' rest' below beside (suc fuel) k stack P Q left left' b c e
          enough =
        walk_node fuel (node_count rest + k) ((P, Q) ∷ stack) p q (length left) (length left')
          (some P) (some Q) v w kids rest kids' rest' b.held c.held below (omega arith)
        ∙ rw
            (walk_rest (node_count rest + k) k stack P Q p q left left' v w kids rest kids' rest' b
              c e beside refl)
            (ground arith)

    pub walk_equal-Walks : (f g : Forest T) → Walks f g
    walk_equal-Walks nil g = tt
    walk_equal-Walks (tree p v kids rest) nil = tt
    walk_equal-Walks (tree p v kids rest) (tree q w kids' rest') =
        walk_pair p q v w kids rest kids' rest' (walk_equal-Walks kids kids')
          (walk_equal-Walks rest rest')
