-- ===== src/Tree/Unsafe/Subtree/PruneEnds.antt =====
-- The first leaf and the end of the branch of last children, where the tree that is taken out has
-- neither.
use cpp_tools.Base.{◌≤◌, ◌==◌, ◌≡◌, refl, sym, ap, ◌∙◌, inl, inr, arith, Bool-cases, max}
use cpp_tools.Tree.Store.{Ptr}
use cpp_tools.Tree.Forest.{Forest, nil, tree, preorder, postorder, depth, times}
use cpp_tools.Tree.Node.Descend.{head_or, last_or, last_or-append}
use cpp_tools.Tree.Graft.{snoc, times-snoc}
use cpp_tools.Tree.Graft.Ends.{head-tree, last-tree, last-trees, times-head, times-last}
use cpp_tools.Tree.Unsafe.Subtree.Prune.{prune, branch}

module _ {ℓ} {T : Type ℓ} where
  depth-snoc : (f g : Forest T) → depth (snoc f g) ≡ max (depth f) (depth g)
  depth-snoc nil g = ground arith
  depth-snoc (tree w x kids rest) g = omega (arith, depth-snoc rest g)

  pub depth-branch : (p : Ptr) (f : Forest T) → depth (branch p f) ≤ depth f
  depth-branch p nil = omega arith
  depth-branch p (tree w x kids rest) =
      ground (
        arith,
        depth-snoc (branch p kids) (branch p rest),
        depth-branch p kids,
        depth-branch p rest,
      )

  times_none :
      (a : Ptr) (f g : Forest T) → times a (snoc f g) ≡ 0 → (times a f ≡ 0) × (times a g ≡ 0)
  times_none a f g z = (omega (arith, times-snoc a f g), omega (arith, times-snoc a f g))

  pub head-prune :
      (p : Ptr) (f : Forest T) (a : Ptr)
      → times (head_or (postorder f) a) (branch p f) ≡ 0
      → head_or (postorder (prune p f)) a ≡ head_or (postorder f) a
  head-prune p nil a z = refl
  head-prune p (tree w x kids rest) a z = elim (Bool-cases (w == p)) [
    | inl hit ↦
        let there = times-head w x kids nil in
        let gone : times (head_or (postorder (tree w x kids rest)) a) (tree w x kids nil) ≡ 0 =
          rw hit at z in
        let moved =
          ap (λ b. times b (tree w x kids nil)) (sym (head-tree w x kids rest a)) ∙ gone in
        absurd (omega (arith, there, moved))
    | inr miss ↦
        let gone = (times_none _ (branch p kids) (branch p rest) (rw miss at z)).0 in
        let moved = ap (λ b. times b (branch p kids)) (sym (head-tree w x kids rest a)) ∙ gone in
        rw (miss, head-tree w x (prune p kids) (prune p rest) a, head-tree w x kids rest a)
          (head-prune p kids w moved)
  ]

  pub last-prune :
      (p : Ptr) (f : Forest T) (a : Ptr)
      → times (last_or (preorder f) a) (branch p f) ≡ 0
      → last_or (preorder (prune p f)) a ≡ last_or (preorder f) a
  last-prune p nil a z = refl
  last-prune p (tree w x kids nil) a z = elim (Bool-cases (w == p)) [
    | inl hit ↦
        let gone : times (last_or (preorder (tree w x kids nil)) a) (tree w x kids nil) ≡ 0 =
          rw hit at z in
        absurd (omega (arith, times-last (tree w x kids nil) a tt, gone))
    | inr miss ↦
        let gone = (times_none _ (branch p kids) nil (rw miss at z)).0 in
        let moved = ap (λ b. times b (branch p kids)) (sym (last-tree w x kids a)) ∙ gone in
        rw (miss, last-tree w x (prune p kids) a, last-tree w x kids a) (last-prune p kids w moved)
  ]
  last-prune p (tree w x kids (tree c y k r)) a z = elim (Bool-cases (w == p)) [
    | inl hit ↦ rw hit (sym (last-trees w x kids c y k r a a))
    | inr miss ↦
        let others = tree c y k r in
        let before = last_or (preorder (prune p kids)) w in
        let same = last-trees w x kids c y k r a before in
        let gone = (times_none _ (branch p kids) (branch p others) (rw miss at z)).1 in
        let moved = ap (λ b. times b (branch p others)) (sym same) ∙ gone in
        rw (miss, last_or-append (preorder (prune p kids)) (preorder (prune p others)) w)
          (last-prune p (tree c y k r) before moved ∙ sym same)
  ]
