-- ===== src/Tree/Unsafe/Subtree/Located.antt =====
-- A subtree in memory, the descents from its root, and what a graft does to it.
use cpp_tools.Base.{
  ℕ, suc, ◌≤◌, ◌<◌, Option, none, some, ◌==◌, ◌≡◌, sym, ap, ◌∙◌, inl, inr, arith, Bool-cases,
  ==_iff,
}
use cpp_tools.Base.Result.{ok}
use native.Mathlib.Decide.{dec_lt}
use cpp_tools.Tree.Store.{Ptr, Heap}
use cpp_tools.Tree.Forest.{Forest, nil, tree, preorder, postorder, depth, times, Distinct, Holds}
use cpp_tools.Tree.Node.{leftmost_child_or_this, rightmost_child_or_this}
use cpp_tools.Tree.Node.Descend.{head_or, last_or, leftmost-postorder, rightmost-preorder}
use cpp_tools.Tree.Graft.{snoc, graft, times-snoc}
use cpp_tools.Tree.Graft.Ends.{head-tree, last-tree}
use cpp_tools.Tree.Unsafe.Subtree.Prune.{branch, branch-none, times-prune}
use cpp_tools.Tree.Unsafe.Subtree.PruneEnds.{depth-branch}
use cpp_tools.Tree.Unsafe.Subtree.BranchEnds.{head-branch, last-branch}

module _ {ℓ} {T : Type ℓ} where
  branch_held :
      (h : Heap T) (q : Option Ptr) (i : ℕ) (f : Forest T) (a : Ptr)
      → Holds h q i f
      → Distinct f
      → 0 < times a f
      → (q' : Option Ptr) × (i' : ℕ) × (v : T) × (kids : Forest T) × (branch a f
          ≡ tree a v kids nil)
        × Holds h q' i' (tree a v kids nil)
  branch_held h q i nil a s d l = absurd (omega arith)
  branch_held h q i (tree w x kids rest) a s d l = elim (Bool-cases (w == a)) [
    | inl e ↦
        let same : w ≡ a = (==_iff w a).0 e in
        (q, i, x, kids, rw (e, same), rw (← same) (s.0, s.1, tt))
    | inr e ↦ elim (dec_lt 0 (times a kids)) [
      | yes below ↦
          let (q', i', v, k, whole, held) =
            branch_held h (some w) 0 kids a s.1 (λ b. ground (arith, d b)) below in
          (q', i', v, k, rw (e, branch-none a rest (ground (arith, d a)), whole), held)
      | no beside ↦
          let (q', i', v, k, whole, held) =
            branch_held h q (suc i) rest a s.2 (λ b. ground (arith, d b)) (ground arith) in
          (q', i', v, k, rw (e, branch-none a kids (omega arith)) whole, held)
    ]
  ]

  pub times-branch_self :
      (h : Heap T) (f : Forest T) (a : Ptr)
      → Holds h none 0 f
      → Distinct f
      → 0 < times a f
      → 0 < times a (branch a f)
  times-branch_self h f a s d l =
      let (q, i, v, k, whole, held) = branch_held h none 0 f a s d l in rw whole (ground arith)

  -- From a node below which the first leaf is, the descent ends there.
  pub first_at :
      (fuel : ℕ) (h : Heap T) (f : Forest T) (a b : Ptr)
      → Holds h none 0 f
      → Distinct f
      → depth f < fuel
      → 0 < times a f
      → 0 < times (head_or (postorder f) b) (branch a f)
      → leftmost_child_or_this fuel h a ≡ ok (head_or (postorder f) b)
  first_at fuel h f a b s d le l under =
      let (q, i, v, k, whole, held) = branch_held h none 0 f a s d l in
      let deep = ap depth whole in
      leftmost-postorder h fuel {q = q} {i = i} a v k nil held
        (omega (arith, deep, depth-branch a f, le))
      ∙ ap ok (
          sym (head-tree a v k nil a)
          ∙ ap (λ g. head_or (postorder g) a) (sym whole)
          ∙ head-branch a f b a d under)

  -- Likewise for the end of the branch of last children.
  pub last_at :
      (fuel : ℕ) (h : Heap T) (f : Forest T) (a b : Ptr)
      → Holds h none 0 f
      → Distinct f
      → depth f < fuel
      → 0 < times a f
      → 0 < times (last_or (preorder f) b) (branch a f)
      → rightmost_child_or_this fuel h a ≡ ok (last_or (preorder f) b)
  last_at fuel h f a b s d le l under =
      let (q, i, v, k, whole, held) = branch_held h none 0 f a s d l in
      let deep = ap depth whole in
      rightmost-preorder h fuel {q = q} {i = i} a v k nil held
        (omega (arith, deep, depth-branch a f, le))
      ∙ ap ok (
          sym (last-tree a v k a)
          ∙ ap (λ g. last_or (preorder g) a) (sym whole)
          ∙ last-branch a f b a d under)

  snoc-grows : (e q : Ptr) (f g : Forest T) → times e (branch q f) ≤ times e (branch q (snoc f g))
  snoc-grows e q nil g = omega arith
  snoc-grows e q (tree u x kids rest) g = ground (
    arith,
    times-snoc e (branch q kids) (branch q rest),
    times-snoc e (branch q kids) (branch q (snoc rest g)),
    snoc-grows e q rest g,
  )

  pub graft-grows : (e w : Ptr) (g f : Forest T) → times e f ≤ times e (graft w g f)
  graft-grows e w g nil = omega arith
  graft-grows e w g (tree u x kids rest) =
      ground (arith, times-snoc e kids g, graft-grows e w g kids, graft-grows e w g rest)

  graft-has : (e w : Ptr) (g f : Forest T) → 0 < times w f → times e g ≤ times e (graft w g f)
  graft-has e w g nil l = absurd (omega arith)
  graft-has e w g (tree u x kids rest) l =
      ground (arith, times-snoc e kids g, graft-has e w g kids, graft-has e w g rest)

  -- A subtree keeps its nodes, and gets those that are grafted below one of them.
  pub branch-graft :
      (e q w : Ptr) (g f : Forest T) → times e (branch q f) ≤ times e (branch q (graft w g f))
  branch-graft e q w g nil = omega arith
  branch-graft e q w g (tree u x kids rest) = ground (
    arith,
    times-snoc e kids g,
    graft-grows e w g kids,
    snoc-grows e q kids g,
    times-snoc e (branch q kids) (branch q rest),
    times-snoc e (branch q (snoc kids g)) (branch q rest),
    times-snoc e (branch q (graft w g kids)) (branch q (graft w g rest)),
    branch-graft e q w g kids,
    branch-graft e q w g rest,
  )

  pub branch-graft_below :
      (e q w : Ptr) (g f : Forest T)
      → Distinct f
      → 0 < times w (branch q f)
      → times e g ≤ times e (branch q (graft w g f))
  branch-graft_below e q w g nil d l = absurd (omega arith)
  branch-graft_below e q w g (tree u x kids rest) d l = ground (
    arith,
    d w,
    times-snoc w (branch q kids) (branch q rest),
    times-prune w q kids,
    times-prune w q rest,
    times-snoc e kids g,
    graft-has e w g kids,
    times-snoc e (branch q (graft w g kids)) (branch q (graft w g rest)),
    branch-graft_below e q w g kids (λ b. ground (arith, d b)),
    branch-graft_below e q w g rest (λ b. ground (arith, d b)),
  )
