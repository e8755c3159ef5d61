-- ===== src/Tree/Unsafe/Subtree/BranchEnds.antt =====
-- The first leaf and the end of the branch of last children, where the tree that is taken out has them.
use cpp_tools.Base.{◌<◌, [], ◌==◌, ◌≡◌, sym, inl, inr, arith, Bool-cases}
use mathlib.Core.Path.{subst}
use cpp_tools.Tree.Store.{Ptr}
use cpp_tools.Tree.Forest.{Forest, nil, tree, preorder, postorder, times, Distinct}
use cpp_tools.Tree.Node.Descend.{head_or, last_or, head_or-append, last_or-append}
use cpp_tools.Tree.Graft.{snoc, times-snoc}
use cpp_tools.Tree.Graft.Ends.{
  head-tree, last-tree, last-trees, times-head, times-last, postorder-snoc, preorder-snoc,
}
use cpp_tools.Tree.Unsafe.Subtree.Prune.{branch, times-prune}

module _ {ℓ} {T : Type ℓ} where
  -- A node of the one part of a forest that is taken out comes from that part.
  from_left :
      (e p w : Ptr) (x : T) (kids rest : Forest T)
      → Distinct (tree w x kids rest)
      → 0 < times e kids
      → 0 < times e (snoc (branch p kids) (branch p rest))
      → 0 < times e (branch p kids)
  from_left e p w x kids rest d here l =
      ground (arith, d e, times-snoc e (branch p kids) (branch p rest), times-prune e p rest)

  from_right :
      (e p w : Ptr) (x : T) (kids rest : Forest T)
      → Distinct (tree w x kids rest)
      → 0 < times e rest
      → 0 < times e (snoc (branch p kids) (branch p rest))
      → 0 < times e (branch p rest)
  from_right e p w x kids rest d here l =
      ground (arith, d e, times-snoc e (branch p kids) (branch p rest), times-prune e p kids)

  pub head-branch :
      (p : Ptr) (f : Forest T) (a b : Ptr)
      → Distinct f
      → 0 < times (head_or (postorder f) a) (branch p f)
      → head_or (postorder (branch p f)) b ≡ head_or (postorder f) a
  head-branch p nil a b d l = absurd (omega arith)
  head-branch p (tree w x nil rest) a b d l = elim (Bool-cases (w == p)) [
    | inl hit ↦ rw hit
    | inr miss ↦
        let there : 0 < times w (branch p rest) = rw miss at l in
        absurd (ground (arith, there, times-prune w p rest, d w))
  ]
  head-branch p (tree w x (tree c y k r) rest) a b d l = elim (Bool-cases (w == p)) [
    | inl hit ↦ rw (hit, head-tree w x (tree c y k r) nil b, head-tree w x (tree c y k r) rest a)
    | inr miss ↦
        let kids = tree c y k r in
        let e = head_or (postorder kids) w in
        let place : 0 < times e kids =
          subst (λ z. 0 < times z kids) (sym (head-tree c y k r w)) (times-head c y k r) in
        let same = head-tree w x kids rest a in
        let there : 0
            < times (head_or (postorder (tree w x kids rest)) a)
                (snoc (branch p kids) (branch p rest)) =
          rw miss at l in
        let moved = subst (λ z. 0 < times z (snoc (branch p kids) (branch p rest))) same there in
        rw
          (
            miss,
            same,
            postorder-snoc (branch p kids) (branch p rest),
            head_or-append (postorder (branch p kids)) (postorder (branch p rest)) b,
          )
          (head-branch p (tree c y k r) w (head_or (postorder (branch p rest)) b)
            (λ z. ground (arith, d z)) (from_left e p w x kids rest d place moved))
  ]

  pub last-branch :
      (p : Ptr) (f : Forest T) (a b : Ptr)
      → Distinct f
      → 0 < times (last_or (preorder f) a) (branch p f)
      → last_or (preorder (branch p f)) b ≡ last_or (preorder f) a
  last-branch p nil a b d l = absurd (omega arith)
  last-branch p (tree w x kids nil) a b d l = elim (Bool-cases (w == p)) [
    | inl hit ↦ rw (hit, last-tree w x kids b)
    | inr miss ↦
        let same = last-tree w x kids a in
        let there : 0
            < times (last_or (preorder (tree w x kids nil)) a) (snoc (branch p kids) nil) =
          rw miss at l in
        let moved = subst (λ z. 0 < times z (snoc (branch p kids) nil)) same there in
        let left : 0 < times (last_or (preorder kids) w) (branch p kids) =
          omega (arith, moved, times-snoc (last_or (preorder kids) w) (branch p kids) nil) in
        rw
          (
            miss,
            same,
            preorder-snoc (branch p kids) nil,
            last_or-append (preorder (branch p kids)) [] b,
          )
          (last-branch p kids w b (λ z. ground (arith, d z)) left)
  ]
  last-branch p (tree w x kids (tree c y k r)) a b d l =
      let rest = tree c y k r in
      let e = last_or (preorder rest) w in
      let same = last-trees w x kids c y k r a w in
      let place = times-last rest w tt in
      elim (Bool-cases (w == p)) [
        | inl hit ↦
            let there : 0 < times (last_or (preorder (tree w x kids rest)) a) (tree w x kids nil) =
              rw hit at l in
            let moved = subst (λ z. 0 < times z (tree w x kids nil)) same there in
            absurd (ground (arith, place, moved, d e))
        | inr miss ↦
            let there : 0
                < times (last_or (preorder (tree w x kids rest)) a)
                    (snoc (branch p kids) (branch p rest)) =
              rw miss at l in
            let moved =
              subst (λ z. 0 < times z (snoc (branch p kids) (branch p rest))) same there in
            rw
              (
                miss,
                same,
                preorder-snoc (branch p kids) (branch p rest),
                last_or-append (preorder (branch p kids)) (preorder (branch p rest)) b,
              )
              (last-branch p (tree c y k r) w (last_or (preorder (branch p kids)) b)
                (λ z. ground (arith, d z)) (from_right e p w x kids rest d place moved))
      ]
