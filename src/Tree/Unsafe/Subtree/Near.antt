-- ===== src/Tree/Unsafe/Subtree/Near.antt =====
-- Where the first leaf and the end of the branch of last children are, once a tree that had them is
-- taken out: below its parent.
use cpp_tools.Base.{◌<◌, true, false, ◌==◌, ◌≡◌, refl, sym, ap, arith, ==_iff}
use mathlib.Core.Path.{subst}
use cpp_tools.Tree.Store.{Ptr}
use cpp_tools.Tree.Forest.{Forest, nil, tree, roots, preorder, postorder, times, Distinct}
use cpp_tools.Tree.Node.Descend.{head_or, last_or}
use cpp_tools.Tree.Graft.{snoc, times-snoc}
use cpp_tools.Tree.Graft.Ends.{head-tree, last-tree, last-trees, times-head, times-last}
use cpp_tools.Tree.Unsafe.Model.{count}
use cpp_tools.Tree.Unsafe.Subtree.Prune.{prune, branch, times-prune, branch-none}

module _ {ℓ} {T : Type ℓ} where
  -- With the tree at `p` goes the first leaf, and the next one stands under `q`.
  abbrev pub FirstNear : Ptr → Ptr → Forest T → Type 0
  FirstNear p q f =
      (a b : Ptr)
      → 0 < times (head_or (postorder f) a) (branch p f)
      → 0 < times (head_or (postorder (prune p f)) b) (branch q (prune p f))

  abbrev pub LastNear : Ptr → Ptr → Forest T → Type 0
  LastNear p q f =
      (a b : Ptr)
      → 0 < times (last_or (preorder f) a) (branch p f)
      → 0 < times (last_or (preorder (prune p f)) b) (branch q (prune p f))

  module _ (p w : Ptr) (x : T) (kids rest : Forest T) (d : Distinct (tree w x kids rest))
      (miss : (w == p) ≡ false) where
    self : (w == w) ≡ true
    self = (==_iff w w).1 refl

    pub first_here : FirstNear p w (tree w x kids rest)
    first_here a b l =
        rw (miss, self)
          (subst (λ e. 0 < times e (tree w x (prune p kids) nil))
            (sym (head-tree w x (prune p kids) (prune p rest) b))
            (times-head w x (prune p kids) nil))

    pub first_below :
        (q : Ptr)
        → times p rest ≡ 0
        → (w == q) ≡ false
        → FirstNear p q kids
        → FirstNear p q (tree w x kids rest)
    first_below q out other near a b l =
        let there : 0
            < times (head_or (postorder (tree w x kids rest)) a)
                (snoc (branch p kids) (branch p rest)) =
          rw miss at l in
        let moved =
          subst (λ e. 0 < times e (snoc (branch p kids) (branch p rest)))
            (head-tree w x kids rest a) there in
        let e = head_or (postorder kids) w in
        let under : 0 < times e (branch p kids) = omega (
          arith,
          moved,
          times-snoc e (branch p kids) (branch p rest),
          times-prune e p rest,
          ap (λ g. times e g) (branch-none p rest out),
        ) in
        let found = near w w under in
        let e' = head_or (postorder (prune p kids)) w in
        rw (miss, other)
          (subst (λ z. 0 < times z (snoc (branch q (prune p kids)) (branch q (prune p rest))))
            (sym (head-tree w x (prune p kids) (prune p rest) b))
            (omega
              (arith, found, times-snoc e' (branch q (prune p kids)) (branch q (prune p rest)))))

    pub first_beside : (q : Ptr) → times p kids ≡ 0 → FirstNear p q (tree w x kids rest)
    first_beside q out a b l =
        let there : 0
            < times (head_or (postorder (tree w x kids rest)) a)
                (snoc (branch p kids) (branch p rest)) =
          rw miss at l in
        let moved =
          subst (λ e. 0 < times e (snoc (branch p kids) (branch p rest)))
            (head-tree w x kids rest a) there in
        let e = head_or (postorder kids) w in
        absurd (
          ground (
            arith,
            d e,
            moved,
            times-snoc e (branch p kids) (branch p rest),
            times-prune e p rest,
            times-head w x kids nil,
            ap (λ g. times e g) (branch-none p kids out),
          ))

  -- The end of the branch is among the last trees.
  pub last_aside :
      (p w : Ptr) (x : T) (kids : Forest T) (c : Ptr) (y : T) (k r : Forest T) (a : Ptr)
      → Distinct (tree w x kids (tree c y k r))
      → (w == p) ≡ false
      → 0
        < times
            (last_or (preorder (tree w x kids (tree c y k r))) a)
            (branch p (tree w x kids (tree c y k r)))
      → 0 < times (last_or (preorder (tree c y k r)) w) (branch p (tree c y k r))
  last_aside p w x kids c y k r a d miss l =
      let rest = tree c y k r in
      let e = last_or (preorder rest) w in
      let there : 0
          < times (last_or (preorder (tree w x kids rest)) a)
              (snoc (branch p kids) (branch p rest)) =
        rw miss at l in
      let moved =
        subst (λ z. 0 < times z (snoc (branch p kids) (branch p rest)))
          (last-trees w x kids c y k r a w) there in
      ground (
        arith,
        d e,
        moved,
        times-snoc e (branch p kids) (branch p rest),
        times-prune e p kids,
        times-last rest w tt,
      )

  pub last_here :
      (p w : Ptr) (x : T) (kids rest : Forest T)
      → Distinct (tree w x kids rest)
      → (w == p) ≡ false
      → times p rest ≡ 0
      → LastNear p w (tree w x kids rest)
  last_here p w x kids nil d miss out a b l =
      let same : (w == w) ≡ true = (==_iff w w).1 refl in
      rw (miss, same) (times-last (tree w x (prune p kids) nil) b tt)
  last_here p w x kids (tree c y k r) d miss out a b l =
      let under = last_aside p w x kids c y k r a d miss l in
      let none_there =
        ap (times (last_or (preorder (tree c y k r)) w)) (branch-none p (tree c y k r) out) in
      absurd (omega (arith, under, none_there))

  pub last_below :
      (p w : Ptr) (x : T) (kids rest : Forest T) (q : Ptr)
      → Distinct (tree w x kids rest)
      → (w == p) ≡ false
      → times p rest ≡ 0
      → (w == q) ≡ false
      → LastNear p q kids
      → LastNear p q (tree w x kids rest)
  last_below p w x kids nil q d miss out other near a b l =
      let there : 0 < times (last_or (preorder (tree w x kids nil)) a) (snoc (branch p kids) nil) =
        rw miss at l in
      let moved =
        subst (λ z. 0 < times z (snoc (branch p kids) nil)) (last-tree w x kids a) there in
      let e = last_or (preorder kids) w in
      let under : 0 < times e (branch p kids) =
        omega (arith, moved, times-snoc e (branch p kids) nil) in
      let e' = last_or (preorder (prune p kids)) w in
      let found : 0 < times e' (snoc (branch q (prune p kids)) nil) =
        omega (arith, near w w under, times-snoc e' (branch q (prune p kids)) nil) in
      rw (miss, other)
        (subst (λ z. 0 < times z (snoc (branch q (prune p kids)) nil))
          (sym (last-tree w x (prune p kids) b)) found)
  last_below p w x kids (tree c y k r) q d miss out other near a b l =
      let under = last_aside p w x kids c y k r a d miss l in
      let none_there =
        ap (times (last_or (preorder (tree c y k r)) w)) (branch-none p (tree c y k r) out) in
      absurd (omega (arith, under, none_there))

  pub last_beside :
      (p w : Ptr) (x : T) (kids rest : Forest T) (q : Ptr)
      → Distinct (tree w x kids rest)
      → (w == p) ≡ false
      → times p kids ≡ 0
      → count p (roots rest) ≡ 0
      → (w == q) ≡ false
      → LastNear p q rest
      → LastNear p q (tree w x kids rest)
  last_beside p w x kids nil q d miss out z other near a b l =
      let e = last_or (preorder (tree w x kids nil)) a in
      let there : 0 < times e (snoc (branch p kids) nil) = rw miss at l in
      absurd (
        omega
          (arith, there, times-snoc e (branch p kids) nil, ap (times e) (branch-none p kids out)))
  last_beside p w x kids (tree c y k r) q d miss out z other near a b l =
      let under = last_aside p w x kids c y k r a d miss l in
      let apart : (c == p) ≡ false = ground arith in
      let e' = last_or (preorder (prune p (tree c y k r))) w in
      let found : 0
          < times e' (snoc (branch q (prune p kids)) (branch q (prune p (tree c y k r)))) =
        omega (
          arith,
          near w w under,
          times-snoc e' (branch q (prune p kids)) (branch q (prune p (tree c y k r))),
        ) in
      let same = last-trees w x (prune p kids) c y (prune p k) (prune p r) b w in
      rw (miss, other, apart) (rw (apart, ← same) at found)
