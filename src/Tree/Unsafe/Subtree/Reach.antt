-- ===== src/Tree/Unsafe/Subtree/Reach.antt =====
-- `has_parent` from any node, and so whether a node stands in a subtree.
use cpp_tools.Base.{
  ℕ, suc, ◌+◌, ◌<◌, Bool, false, ◌||◌, Option, none, some, ◌==◌, ◌≡◌, refl, ap, ◌∙◌, inl, inr,
  arith, Bool-cases, if◌then◌else◌, ltb, ==_iff,
}
use cpp_tools.Base.Result.{ok}
use cpp_tools.Tree.Store.{Ptr, Node, node, Heap, load}
use cpp_tools.Tree.Forest.{Forest, nil, tree, roots, depth, times, Distinct, Holds}
use cpp_tools.Tree.Node.{has_parent}
use cpp_tools.Tree.Graft.{times-snoc}
use cpp_tools.Tree.Graft.Climbs.{Climbs, Climbs-top, Climbs-up, Climbs-weaken}
use cpp_tools.Tree.Unsafe.Subtree.{reaches}
use cpp_tools.Tree.Unsafe.Subtree.Prune.{branch, times-prune}

module _ {ℓ} {T : Type ℓ} where
  abbrev pub inside : Ptr → Forest T → Bool
  inside e f = ltb 0 (times e f)

  -- `e` is a descendant of `p`.
  abbrev beneath : Ptr → Ptr → Forest T → Bool
  beneath p e nil = false
  beneath p e (tree w x kids rest) =
      if inside e kids then (w == p || beneath p e kids) else beneath p e rest

  beneath-none : (p e : Ptr) (f : Forest T) → times e f ≡ 0 → beneath p e f ≡ false
  beneath-none p e nil z = refl
  beneath-none p e (tree w x kids rest) z = ground (arith, beneath-none p e rest)

  beneath-missing : (p e : Ptr) (f : Forest T) → times p f ≡ 0 → beneath p e f ≡ false
  beneath-missing p e nil z = refl
  beneath-missing p e (tree w x kids rest) z =
      ground (arith, beneath-missing p e kids, beneath-missing p e rest)

  -- The subtree at `p` is `p` with its descendants.
  inside-branch :
      (p e : Ptr) (f : Forest T)
      → Distinct f
      → 0 < times e f
      → inside e (branch p f) ≡ (p == e || beneath p e f)
  inside-branch p e nil d l = absurd (omega arith)
  inside-branch p e (tree w x kids rest) d l = elim (Bool-cases (w == p)) [
    | inl hit ↦ rw hit (ground (arith, hit, beneath-missing p e rest, d p))
    | inr miss ↦
        let parts = times-snoc e (branch p kids) (branch p rest) in
        let left = times-prune e p kids in
        let right = times-prune e p rest in
        elim (Bool-cases (inside e kids)) [
          | inl below ↦
              let ih = inside-branch p e kids (λ a. ground (arith, d a)) (ground arith) in
              rw (miss, below) (ground (arith, parts, left, right, ih, d e))
          | inr aside ↦ elim (Bool-cases (inside e rest)) [
            | inl beside ↦
                let ih = inside-branch p e rest (λ a. ground (arith, d a)) (ground arith) in
                rw (miss, aside) (ground (arith, parts, left, right, ih, d e))
            | inr nowhere ↦
                rw (miss, aside) (ground (arith, parts, left, right, beneath-none p e rest))
          ]
        ]
  ]

  any-Climbs :
      (h : Heap T) (p e : Ptr) (d i : ℕ) (q : Option Ptr) (b : Bool) (f : Forest T)
      → Holds h q i f
      → Distinct f
      → 0 < times e f
      → Climbs h p d q b
      → (n : Node T) × (h e ≡ some n) × Climbs h p (depth f + d) n.parent (beneath p e f || b)
  any-Climbs h p e d i q b nil s u l c = absurd (omega arith)
  any-Climbs h p e d i q b (tree w x kids rest) s u l c = elim (Bool-cases (e == w)) [
    | inl here ↦
        let ew : e ≡ w = (==_iff e w).0 here in
        let up : beneath p e (tree w x kids rest) ≡ false =
          ground (arith, u e, beneath-none p e rest) in
        (
          node x q i (roots kids),
          ap h ew ∙ s.0,
          Climbs-weaken h p q c (omega arith) (ground (arith, up)),
        )
    | inr other ↦ elim (Bool-cases (inside e kids)) [
      | inl below ↦
          let (n, at, climbs) =
            any-Climbs h p e (suc d) 0 (some w) (w == p || b) kids s.1 (λ a. ground (arith, u a))
              (ground arith) (Climbs-up h p (node x q i (roots kids)) s.0 c) in
          (n, at, Climbs-weaken h p n.parent climbs (omega arith) (ground arith))
      | inr aside ↦
          let (n, at, climbs) =
            any-Climbs h p e d (suc i) q b rest s.2 (λ a. ground (arith, u a)) (ground arith) c in
          (n, at, Climbs-weaken h p n.parent climbs (omega arith) (ground arith))
    ]
  ]

  pub reaches-branch :
      (fuel : ℕ) (h : Heap T) (p e : Ptr) (f : Forest T)
      → Holds h none 0 f
      → Distinct f
      → 0 < times e f
      → depth f < fuel
      → reaches fuel h (some e) p ≡ ok (inside e (branch p f))
  unfolding reaches has_parent load
  reaches-branch fuel h p e f s d l le =
      let (n, at, climbs) = any-Climbs h p e 1 0 none false f s d l (Climbs-top h p) in
      rw (inside-branch p e f d l, at, climbs fuel (omega arith)) (ground arith)
