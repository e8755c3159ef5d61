-- ===== src/Tree/Unsafe/Subtree/Up.antt =====
-- A subtree that keeps the parent of what is taken out had what is taken out.
use cpp_tools.Base.{◌<◌, false, ◌==◌, ◌≡◌, ap, inl, inr, arith, Bool-cases}
use cpp_tools.Tree.Store.{Ptr}
use cpp_tools.Tree.Forest.{Forest, nil, tree, times, Distinct}
use cpp_tools.Tree.Graft.{snoc, times-snoc}
use cpp_tools.Tree.Unsafe.Subtree.Prune.{prune, branch, times-prune, branch-none}

module _ {ℓ} {T : Type ℓ} where
  abbrev pub IsUp : Ptr → Ptr → Forest T → Type 0
  IsUp p q f =
      (w e : Ptr)
      → 0 < times q (branch w (prune p f))
      → 0 < times e (branch p f)
      → 0 < times e (branch w f)

  module _ (p u : Ptr) (x : T) (kids rest : Forest T) (d : Distinct (tree u x kids rest))
      (miss : (u == p) ≡ false) where
    pub parent-IsUp : times p rest ≡ 0 → IsUp p u (tree u x kids rest)
    parent-IsUp out w e above l =
        let none_there = ap (λ g. times e g) (branch-none p rest out) in
        let inside : 0 < times e (snoc (branch p kids) (branch p rest)) = rw miss at l in
        let kept : 0 < times u (branch w (tree u x (prune p kids) (prune p rest))) =
          rw miss at above in
        elim (Bool-cases (u == w)) [
          | inl hit ↦ rw hit (
              ground (
                arith,
                inside,
                none_there,
                times-snoc e (branch p kids) (branch p rest),
                times-prune e p kids,
              ))
          | inr other ↦
              let under : 0 < times u (snoc (branch w (prune p kids)) (branch w (prune p rest))) =
                rw other at kept in
              absurd (
                ground (
                  arith,
                  d u,
                  under,
                  times-snoc u (branch w (prune p kids)) (branch w (prune p rest)),
                  times-prune u w (prune p kids),
                  times-prune u w (prune p rest),
                  times-prune u p kids,
                  times-prune u p rest,
                ))
        ]

    pub below-IsUp :
        (q : Ptr)
        → times p rest ≡ 0
        → times q rest ≡ 0
        → IsUp p q kids
        → IsUp p q (tree u x kids rest)
    below-IsUp q out out' up w e above l =
        let none_there = ap (λ g. times e g) (branch-none p rest out) in
        let inside : 0 < times e (snoc (branch p kids) (branch p rest)) = rw miss at l in
        let kept : 0 < times q (branch w (tree u x (prune p kids) (prune p rest))) =
          rw miss at above in
        let part : 0 < times e (branch p kids) =
          omega (arith, inside, none_there, times-snoc e (branch p kids) (branch p rest)) in
        elim (Bool-cases (u == w)) [
          | inl hit ↦ rw hit (ground (arith, part, times-prune e p kids))
          | inr other ↦
              let under : 0 < times q (snoc (branch w (prune p kids)) (branch w (prune p rest))) =
                rw other at kept in
              let found : 0 < times q (branch w (prune p kids)) = omega (
                arith,
                out',
                under,
                times-snoc q (branch w (prune p kids)) (branch w (prune p rest)),
                times-prune q w (prune p rest),
                times-prune q p rest,
              ) in
              rw other
                (omega (arith, up w e found part, times-snoc e (branch w kids) (branch w rest)))
        ]

    pub beside-IsUp :
        (q : Ptr)
        → times p kids ≡ 0
        → times q kids ≡ 0
        → (u == q) ≡ false
        → IsUp p q rest
        → IsUp p q (tree u x kids rest)
    beside-IsUp q out out' apart up w e above l =
        let none_there = ap (λ g. times e g) (branch-none p kids out) in
        let inside : 0 < times e (snoc (branch p kids) (branch p rest)) = rw miss at l in
        let kept : 0 < times q (branch w (tree u x (prune p kids) (prune p rest))) =
          rw miss at above in
        let part : 0 < times e (branch p rest) =
          omega (arith, inside, none_there, times-snoc e (branch p kids) (branch p rest)) in
        elim (Bool-cases (u == w)) [
          | inl hit ↦
              let under : 0 < times q (tree u x (prune p kids) nil) = rw hit at kept in
              absurd (ground (arith, under, out', apart, times-prune q p kids))
          | inr other ↦
              let under : 0 < times q (snoc (branch w (prune p kids)) (branch w (prune p rest))) =
                rw other at kept in
              let found : 0 < times q (branch w (prune p rest)) = omega (
                arith,
                out',
                under,
                times-snoc q (branch w (prune p kids)) (branch w (prune p rest)),
                times-prune q w (prune p kids),
                times-prune q p kids,
              ) in
              rw other
                (omega (arith, up w e found part, times-snoc e (branch w kids) (branch w rest)))
        ]
