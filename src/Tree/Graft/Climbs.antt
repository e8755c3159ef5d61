-- ===== src/Tree/Graft/Climbs.antt =====
-- `has_parent` at the end of the branch of last children.
use cpp_tools.Base.{
  ℕ, zero, suc, ◌+◌, ◌≤◌, ◌<◌, Bool, false, ◌||◌, [], Option, none, some, ◌==◌, ◌≡◌, refl, ◌∙◌, inl,
  inr, arith, Bool-cases,
}
use cpp_tools.Base.Result.{ok}
use cpp_tools.Tree.Store.{Ptr, Node, node, Heap, load}
use cpp_tools.Tree.Forest.{Forest, nil, tree, preorder, roots, depth, Holds}
use cpp_tools.Tree.Node.{climbs_to, has_parent}
use cpp_tools.Tree.Node.Descend.{last_or}
use cpp_tools.Tree.Graft.Ends.{above, IsTree, last-tree, last-trees}

module _ {ℓ} {T : Type ℓ} (h : Heap T) (w : Ptr) where
  -- The climb from the parent `q` answers `b`, within `d` rounds.
  abbrev pub Climbs : ℕ → Option Ptr → Bool → Type 0
  Climbs d q b = (k : ℕ) → d ≤ k → climbs_to k h q w ≡ ok b

  pub Climbs-top : Climbs 1 none false
  unfolding climbs_to
  Climbs-top zero le = absurd (omega arith)
  Climbs-top (suc k) le = refl

  pub Climbs-up :
      {p : Ptr} {d : ℕ} {b : Bool} (n : Node T)
      → h p ≡ some n
      → Climbs d n.parent b
      → Climbs (suc d) (some p) (p == w || b)
  unfolding climbs_to load
  Climbs-up n here up zero le = absurd (omega arith)
  Climbs-up {p} n here up (suc k) le = elim (Bool-cases (p == w)) [
    | inl e ↦ rw (e, climbs_to)
    | inr e ↦ rw (e, climbs_to, here) (up k (omega arith))
  ]

  pub Climbs-weaken :
      {d d' : ℕ} (q : Option Ptr) {b b' : Bool} → Climbs d q b → d ≤ d' → b ≡ b' → Climbs d' q b'
  Climbs-weaken q c le e k le' = c k (omega arith) ∙ rw e

  last-Climbs :
      (d i : ℕ) (q : Option Ptr) (b : Bool) (f : Forest T) (a : Ptr)
      → Holds h q i f
      → IsTree f
      → Climbs d q b
      → (n : Node T) × (h (last_or (preorder f) a) ≡ some n)
        × Climbs (depth f + d) n.parent (above w f || b)
  last-Climbs d i q b nil a s is c = absurd is
  last-Climbs d i q b (tree p v nil nil) a s is c =
      (node v q i [], s.0, Climbs-weaken q c (omega arith) refl)
  last-Climbs d i q b (tree p v (tree r x k m) nil) a s is c =
      let (n, here, climbs) =
        last-Climbs (suc d) 0 (some p) (p == w || b) (tree r x k m) p s.1 tt
          (Climbs-up (node v q i (roots (tree r x k m))) s.0 c) in
      (
        n,
        rw (last-tree p v (tree r x k m) a) here,
        Climbs-weaken n.parent climbs (omega arith) (ground arith),
      )
  last-Climbs d i q b (tree p v kids (tree r x k m)) a s is c =
      let (n, here, climbs) = last-Climbs d (suc i) q b (tree r x k m) p s.2 tt c in
      (
        n,
        rw (last-trees p v kids r x k m a p) here,
        Climbs-weaken n.parent climbs (omega arith) refl,
      )

  -- From the end of the branch, `w` is an ancestor exactly when it stands on the branch above.
  pub has_parent-last :
      (k i : ℕ) (f : Forest T) (a : Ptr)
      → Holds h none i f
      → IsTree f
      → depth f < k
      → has_parent k h (last_or (preorder f) a) w ≡ ok (above w f)
  unfolding has_parent load
  has_parent-last k i f a s is le =
      let (n, here, climbs) = last-Climbs 1 i none false f a s is Climbs-top in
      rw here (climbs k (omega arith) ∙ ground arith)
