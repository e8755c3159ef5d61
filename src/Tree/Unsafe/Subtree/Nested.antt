-- ===== src/Tree/Unsafe/Subtree/Nested.antt =====
-- Two subtrees of one forest: what is left of the one when the other is taken out.
use cpp_tools.Base.{◌+◌, ◌<◌, false, ◌==◌, ◌≡◌, refl, sym, ap, inl, inr, arith, Bool-cases}
use mathlib.Core.Path.{subst}
use native.Mathlib.Decide.{dec_lt}
use cpp_tools.Tree.Store.{Ptr}
use cpp_tools.Tree.Forest.{Forest, nil, tree, preorder, times, Distinct}
use cpp_tools.Tree.Node.Descend.{last_or, last_or-append}
use cpp_tools.Tree.Graft.{snoc, times-snoc}
use cpp_tools.Tree.Graft.Ends.{last-tree, last-trees, times-last}
use cpp_tools.Tree.Unsafe.Subtree.Near.{last_aside}
use cpp_tools.Tree.Unsafe.Subtree.Prune.{prune, branch, times-prune, branch-none}

module _ {ℓ} {T : Type ℓ} where
  -- A subtree keeps the nodes that are not taken out.
  pub times-branch-prune :
      (e p w : Ptr) (f : Forest T)
      → Distinct f
      → times e (branch p f) ≡ 0
      → times w (branch p f) ≡ 0
      → times e (branch w (prune p f)) ≡ times e (branch w f)
  times-branch-prune e p w nil d z z' = refl
  times-branch-prune e p w (tree u x kids rest) d z z' = elim (Bool-cases (u == p)) [
    | inl hit ↦
        let gone : times w (tree u x kids nil) ≡ 0 = rw hit at z' in
        let none_there = branch-none w kids (ground (arith, gone)) in
        rw (hit, none_there) (ground (arith, gone))
    | inr miss ↦
        let at_e : times e (snoc (branch p kids) (branch p rest)) ≡ 0 = rw miss at z in
        let at_w : times w (snoc (branch p kids) (branch p rest)) ≡ 0 = rw miss at z' in
        let parts_e = times-snoc e (branch p kids) (branch p rest) in
        let parts_w = times-snoc w (branch p kids) (branch p rest) in
        rw miss (
          ground (
            arith,
            times-snoc e (branch w kids) (branch w rest),
            times-snoc e (branch w (prune p kids)) (branch w (prune p rest)),
            times-prune e p kids,
            at_e,
            parts_e,
            times-branch-prune e p w kids (λ a. ground (arith, d a)) (omega (arith, at_e, parts_e))
                (omega (arith, at_w, parts_w)),
            times-branch-prune e p w rest (λ a. ground (arith, d a)) (omega (arith, at_e, parts_e))
                (omega (arith, at_w, parts_w)),
          ))
  ]

  -- A subtree with a node is that of a node of the forest.
  pub branch_has : (e p : Ptr) (f : Forest T) → 0 < times e (branch p f) → 0 < times p f
  branch_has e p f l = elim (dec_lt 0 (times p f)) [
    | yes there ↦ there
    | no missing ↦
        let none_there = ap (λ g. times e g) (branch-none p f (omega arith)) in
        absurd (omega (arith, l, none_there))
  ]

  -- Of two subtrees with a node in common one is in the other.
  pub nested :
      (e p w : Ptr) (f : Forest T)
      → Distinct f
      → 0 < times e (branch p f)
      → 0 < times e (branch w f)
      → 0 < times w (branch p f) + times p (branch w f)
  nested e p w nil d l l' = absurd (omega arith)
  nested e p w (tree u x kids rest) d l l' =
      let sp = times-snoc e (branch p kids) (branch p rest) in
      let sw = times-snoc e (branch w kids) (branch w rest) in
      let pk = times-prune e p kids in
      let pr = times-prune e p rest in
      let wk = times-prune e w kids in
      let wr = times-prune e w rest in
      elim (Bool-cases (u == p)) [
        | inl hit ↦ elim (Bool-cases (u == w)) [
          | inl hit' ↦ ground (arith, hit, hit')
          | inr miss' ↦
              let a : 0 < times e (tree u x kids nil) = rw hit at l in
              let b : 0 < times e (snoc (branch w kids) (branch w rest)) = rw miss' at l' in
              rw (hit, miss') (ground (arith, d e, sw, wk, wr, a, b, branch_has e w kids))
        ]
        | inr miss ↦ elim (Bool-cases (u == w)) [
          | inl hit' ↦
              let a : 0 < times e (snoc (branch p kids) (branch p rest)) = rw miss at l in
              let b : 0 < times e (tree u x kids nil) = rw hit' at l' in
              rw (miss, hit') (ground (arith, d e, sp, pk, pr, a, b, branch_has e p kids))
          | inr miss' ↦
              let a : 0 < times e (snoc (branch p kids) (branch p rest)) = rw miss at l in
              let b : 0 < times e (snoc (branch w kids) (branch w rest)) = rw miss' at l' in
              rw (miss, miss')
                (ground (
                  arith,
                  d e,
                  sp,
                  sw,
                  pk,
                  pr,
                  wk,
                  wr,
                  a,
                  b,
                  times-snoc w (branch p kids) (branch p rest),
                  times-snoc p (branch w kids) (branch w rest),
                  nested e p w kids (λ a. ground (arith, d a)),
                  nested e p w rest (λ a. ground (arith, d a)),
                ))
        ]
      ]

  -- The end of the branch is not below a root that has siblings on its right.
  last_elsewhere :
      (q u : Ptr) (x : T) (kids : Forest T) (c : Ptr) (y : T) (k r : Forest T) (a : Ptr)
      → Distinct (tree u x kids (tree c y k r))
      → 0
        < times
            (last_or (preorder (tree u x kids (tree c y k r))) a)
            (branch q (tree u x kids (tree c y k r)))
      → (u == q) ≡ false
  last_elsewhere q u x kids c y k r a d under = elim (Bool-cases (u == q)) [
    | inr miss ↦ miss
    | inl hit ↦
        let rest = tree c y k r in
        let there : 0 < times (last_or (preorder (tree u x kids rest)) a) (tree u x kids nil) =
          rw hit at under in
        let moved =
          subst (λ v. 0 < times v (tree u x kids nil)) (last-trees u x kids c y k r a u) there in
        absurd (ground (arith, times-last rest u tt, moved, d (last_or (preorder rest) u)))
  ]

  -- The end of the branch of last children stays in a subtree that does not go itself.
  pub last-kept :
      (p w : Ptr) (f : Forest T) (a b : Ptr)
      → Distinct f
      → 0 < times (last_or (preorder f) a) (branch p f)
      → 0 < times (last_or (preorder f) a) (branch w f)
      → times w (branch p f) ≡ 0
      → 0 < times (last_or (preorder (prune p f)) b) (branch w (prune p f))
  last-kept p w nil a b d l l' z = absurd (omega arith)
  last-kept p w (tree u x kids nil) a b d l l' z = elim (Bool-cases (u == p)) [
    | inl hit ↦
        let gone : times w (tree u x kids nil) ≡ 0 = rw hit at z in
        absurd (omega (arith, gone, branch_has _ w (tree u x kids nil) l'))
    | inr miss ↦
        let e = last_or (preorder kids) u in
        let same = last-tree u x kids a in
        let e' = last_or (preorder (prune p kids)) u in
        elim (Bool-cases (u == w)) [
          | inl hit' ↦ rw (miss, hit') (times-last (tree u x (prune p kids) nil) b tt)
          | inr miss' ↦
              let there : 0
                  < times (last_or (preorder (tree u x kids nil)) a) (snoc (branch p kids) nil) =
                rw miss at l in
              let there' : 0
                  < times (last_or (preorder (tree u x kids nil)) a) (snoc (branch w kids) nil) =
                rw miss' at l' in
              let away : times w (snoc (branch p kids) nil) ≡ 0 = rw miss at z in
              let l1 = subst (λ q. 0 < times q (snoc (branch p kids) nil)) same there in
              let l2 = subst (λ q. 0 < times q (snoc (branch w kids) nil)) same there' in
              let found =
                last-kept p w kids u u (λ q. ground (arith, d q))
                  (omega (arith, l1, times-snoc e (branch p kids) nil))
                  (omega (arith, l2, times-snoc e (branch w kids) nil))
                  (omega (arith, away, times-snoc w (branch p kids) nil)) in
              rw (miss, miss')
                (subst (λ q. 0 < times q (snoc (branch w (prune p kids)) nil))
                  (sym (last-tree u x (prune p kids) b))
                  (omega (arith, found, times-snoc e' (branch w (prune p kids)) nil)))
        ]
  ]
  last-kept p w (tree u x kids (tree c y k r)) a b d l l' z =
      let rest = tree c y k r in
      let miss = last_elsewhere p u x kids c y k r a d l in
      let miss' = last_elsewhere w u x kids c y k r a d l' in
      let before = last_or (preorder (prune p kids)) u in
      let away : times w (snoc (branch p kids) (branch p rest)) ≡ 0 = rw miss at z in
      let found =
        last-kept p w (tree c y k r) u before (λ q. ground (arith, d q))
          (last_aside p u x kids c y k r a d miss l) (last_aside w u x kids c y k r a d miss' l')
          (omega (arith, away, times-snoc w (branch p kids) (branch p rest))) in
      let e = last_or (preorder (prune p rest)) before in
      rw (miss, miss', last_or-append (preorder (prune p kids)) (preorder (prune p rest)) u)
        (omega (arith, found, times-snoc e (branch w (prune p kids)) (branch w (prune p rest))))
