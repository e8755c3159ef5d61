-- ===== src/Tree/Graft/Compose.antt =====
-- Grafts, one behind another or one below another, and how deep they make a forest.
use cpp_tools.Base.{◌+◌, ◌≤◌, true, false, ◌==◌, ◌≡◌, refl, ap, inl, inr, arith, Bool-cases}
use cpp_tools.Tree.Store.{Ptr}
use cpp_tools.Tree.Forest.{Forest, nil, tree, times, depth}
use cpp_tools.Tree.Graft.{graft, snoc}

module _ {ℓ} {T : Type ℓ} where
  pub snoc-nil : (f : Forest T) → snoc f nil ≡ f
  snoc-nil nil = refl
  snoc-nil (tree p v kids rest) = ap (tree p v kids) (snoc-nil rest)

  snoc_assoc : (f g k : Forest T) → snoc (snoc f g) k ≡ snoc f (snoc g k)
  snoc_assoc nil g k = refl
  snoc_assoc (tree p v kids rest) g k = ap (tree p v kids) (snoc_assoc rest g k)

  pub graft-nil : (w : Ptr) (f : Forest T) → graft w nil f ≡ f
  graft-nil w nil = refl
  graft-nil w (tree p v kids rest) = elim (Bool-cases (p == w)) [
    | inl hit ↦ rw (hit, snoc-nil kids)
    | inr miss ↦ rw (miss, graft-nil w kids, graft-nil w rest)
  ]

  graft_none : (w : Ptr) (g f : Forest T) → times w f ≡ 0 → graft w g f ≡ f
  graft_none w g nil out = refl
  graft_none w g (tree p v kids rest) out =
      let miss : (p == w) ≡ false = ground arith in
      rw (miss, graft_none w g kids (ground arith), graft_none w g rest (ground arith))

  -- Two grafts at one node, one behind the other.
  pub graft_twice : (w : Ptr) (a b f : Forest T) → graft w b (graft w a f) ≡ graft w (snoc a b) f
  graft_twice w a b nil = refl
  graft_twice w a b (tree p v kids rest) = elim (Bool-cases (p == w)) [
    | inl hit ↦ rw (hit, hit, snoc_assoc kids a b)
    | inr miss ↦ rw (miss, miss, graft_twice w a b kids, graft_twice w a b rest)
  ]

  graft-snoc :
      (c : Ptr) (v : T) (g f : Forest T)
      → times c f ≡ 0
      → graft c g (snoc f (tree c v nil nil)) ≡ snoc f (tree c v g nil)
  graft-snoc c v g nil out = let hit : (c == c) ≡ true = ground arith in rw hit
  graft-snoc c v g (tree p x kids rest) out =
      let miss : (p == c) ≡ false = ground arith in
      rw (miss, graft_none c g kids (ground arith), graft-snoc c v g rest (ground arith))

  -- A graft at a leaf that was grafted before.
  pub graft_below :
      (w c : Ptr) (v : T) (g f : Forest T)
      → times c f ≡ 0
      → graft c g (graft w (tree c v nil nil) f) ≡ graft w (tree c v g nil) f
  graft_below w c v g nil out = refl
  graft_below w c v g (tree p x kids rest) out =
      let other : (p == c) ≡ false = ground arith in
      elim (Bool-cases (p == w)) [
        | inl hit ↦
            rw
              (hit, other, graft-snoc c v g kids (ground arith), graft_none c g rest (ground arith))
        | inr miss ↦ rw (
          miss,
          other,
          graft_below w c v g kids (ground arith),
          graft_below w c v g rest (ground arith),
        )
      ]

  depth-snoc : (f g : Forest T) → depth (snoc f g) ≤ depth f + depth g
  depth-snoc nil g = omega arith
  depth-snoc (tree p v kids rest) g = omega (arith, depth-snoc rest g)

  pub depth-graft : (w : Ptr) (g f : Forest T) → depth (graft w g f) ≤ depth f + depth g
  depth-graft w g nil = omega arith
  depth-graft w g (tree p v kids rest) =
      ground (arith, depth-snoc kids g, depth-graft w g kids, depth-graft w g rest)
