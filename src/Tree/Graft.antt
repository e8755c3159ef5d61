-- ===== src/Tree/Graft.antt =====
-- What `insert_child` does to a forest: a tree becomes the last child of one of its nodes.
pub mod Frame
pub mod Ends
pub mod Climbs
pub mod Compose
use cpp_tools.Base.{
  ℕ, zero, suc, ◌+◌, ◌-◌, ◌≤◌, ◌<◌, true, false, List, [], ◌∷◌, ◌++◌, Option, none, some, ◌==◌, ◌≡◌,
  ◌≢◌, refl, sym, ap, ◌∙◌, inl, inr, arith, Bool-cases, length, length-append, if◌then◌else◌,
  ==_iff,
}
use cpp_tools.Base.Result.{ok}
use cpp_tools.Tree.Store.{Ptr, Node, node, Heap, load, write, write_self, write_ne}
use cpp_tools.Tree.Forest.{Forest, nil, tree, roots, times, Distinct, Holds}
use cpp_tools.Tree.Node.{insert_child}
use Frame.{Holds-frame, ne_of_times}
use cpp_tools.Base.{eq_of_some}

module _ {ℓ} {T : Type ℓ} where
  abbrev pub snoc : Forest T → Forest T → Forest T
  snoc nil g = g
  snoc (tree p v kids rest) g = tree p v kids (snoc rest g)

  -- `g` behind the children of `w`.
  abbrev pub graft : Ptr → Forest T → Forest T → Forest T
  graft w g nil = nil
  graft w g (tree p v kids rest) =
      if p == w then tree p v (snoc kids g) rest else tree p v (graft w g kids) (graft w g rest)

  pub roots-snoc : (f g : Forest T) → roots (snoc f g) ≡ roots f ++ roots g
  roots-snoc nil g = refl
  roots-snoc (tree p v kids rest) g = rw (roots-snoc rest g)

  pub roots-graft : (w : Ptr) (g f : Forest T) → roots (graft w g f) ≡ roots f
  roots-graft w g nil = refl
  roots-graft w g (tree p v kids rest) = elim (Bool-cases (p == w)) [
    | inl e ↦ rw e
    | inr e ↦ rw (e, roots-graft w g rest)
  ]

  pub times-snoc : (a : Ptr) (f g : Forest T) → times a (snoc f g) ≡ times a f + times a g
  times-snoc a nil g = omega arith
  times-snoc a (tree p v kids rest) g = omega (arith, times-snoc a rest g)

  times-graft_none :
      (a w : Ptr) (g f : Forest T) → times w f ≡ 0 → times a (graft w g f) ≡ times a f
  times-graft_none a w g nil z = refl
  times-graft_none a w g (tree p v kids rest) z =
      ground (arith, times-graft_none a w g kids, times-graft_none a w g rest)

  -- The nodes of a forest after a graft at a node that it has.
  pub times-graft :
      (a w : Ptr) (g f : Forest T) → times w f ≡ 1 → times a (graft w g f) ≡ times a f + times a g
  times-graft a w g nil z = absurd (omega arith)
  times-graft a w g (tree p v kids rest) z = ground (
    arith,
    times-snoc a kids g,
    times-graft a w g kids,
    times-graft a w g rest,
    times-graft_none a w g kids,
    times-graft_none a w g rest,
  )

  pub Holds-snoc :
      (h : Heap T) (q : Option Ptr) (i : ℕ) (f g : Forest T)
      → Holds h q i f
      → Holds h q (i + length (roots f)) g
      → Holds h q i (snoc f g)
  Holds-snoc h q i nil g a b = rw (← (let e : i + 0 ≡ i = omega arith in e)) b
  Holds-snoc h q i (tree p v kids rest) g a b = (
    a.0,
    a.1,
    Holds-snoc h q (suc i) rest g a.2 (
        let e : i + suc (length (roots rest)) ≡ suc i + length (roots rest) = omega arith in
        rw e at b),
  )

  -- The heap that `insert_child` leaves.
  abbrev pub linked : Heap T → Ptr → Node T → Ptr → Node T → Heap T
  linked h w n c m =
      write (write h w (some (record n { children = n.children ++ c ∷ [] }))) c
        (some (record m { parent = some w; sibling_index = length n.children }))

  module _ (h : Heap T) (w c : Ptr) {n m : Node T} (at_w : h w ≡ some n) (at_c : h c ≡ some m)
      (apart : c ≢ w) where
    pub insert_child-linked : insert_child h w c ≡ ok (linked h w n c m)
    unfolding insert_child load
    insert_child-linked =
        let h' = write h w (some (record n { children = n.children ++ c ∷ [] })) in
        let e : length (n.children ++ c ∷ []) - 1 ≡ length n.children =
          omega (arith, length-append n.children (c ∷ [])) in
        rw (
          at_w,
          write_ne h w c (some (record n { children = n.children ++ c ∷ [] })) apart,
          at_c,
          e,
        )

    pub linked-other : (a : Ptr) → a ≢ w → a ≢ c → linked h w n c m a ≡ h a
    unfolding write
    linked-other a nw nc = ground arith

    pub linked-child :
        linked h w n c m c ≡ some (record m { parent = some w; sibling_index = length n.children })
    unfolding write
    linked-child = ground arith

    pub linked-parent : linked h w n c m w ≡ some (record n { children = n.children ++ c ∷ [] })
    unfolding write
    linked-parent = ground arith

    -- The grafted tree, at its new place.
    Holds-grafted :
        (v : T) (kids : Forest T) (q : Option Ptr) (j : ℕ)
        → Holds h q j (tree c v kids nil)
        → times w (tree c v kids nil) ≡ 0
        → times c kids ≡ 0
        → Holds (linked h w n c m) (some w) (length n.children) (tree c v kids nil)
    Holds-grafted v kids q j s out own =
        let mm : m ≡ node v q j (roots kids) = eq_of_some (sym at_c ∙ s.0) in
        let none_below : times w kids ≡ 0 = omega arith in
        (
          linked-child ∙ rw mm,
          Holds-frame (linked h w n c m) (some c) 0 kids s.1
              (λ a l. linked-other a (ne_of_times kids l none_below) (ne_of_times kids l own)),
          tt,
        )

    pub Holds-graft :
        (q : Option Ptr) (i : ℕ) (f : Forest T) (v : T) (kids : Forest T) (q' : Option Ptr) (j : ℕ)
        → Holds h q i f
        → Distinct f
        → times c f ≡ 0
        → Holds h q' j (tree c v kids nil)
        → times w (tree c v kids nil) ≡ 0
        → times c kids ≡ 0
        → Holds (linked h w n c m) q i (graft w (tree c v kids nil) f)
    Holds-graft q i nil v kids q' j s d out held apart' own = tt
    Holds-graft q i (tree p x below rest) v kids q' j s d out held apart' own =
        let g = tree c v kids nil in
        let h' = linked h w n c m in
        let keep =
          λ (k : Forest T) (a : Ptr) (l : 0 < times a k) (zw : times w k ≡ 0) (zc : times c k ≡ 0).
            linked-other a (ne_of_times k l zw) (ne_of_times k l zc) in
        elim (Bool-cases (p == w)) [
          | inl hit ↦
              let e : p ≡ w = (==_iff p w).0 hit in
              let nn : n ≡ node x q i (roots below) = eq_of_some (sym at_w ∙ ap h (sym e) ∙ s.0) in
              let place : length n.children ≡ 0 + length (roots below) =
                omega (arith, ap (λ (y : Node T). length y.children) nn) in
              rw hit (
                rw e (linked-parent ∙ rw (nn, roots-snoc below g)),
                Holds-snoc h' (some p) 0 below g
                    (Holds-frame h' (some p) 0 below s.1
                      (λ a l. keep below a l (ground (arith, d w)) (ground arith)))
                    (rw (e, ← place) (Holds-grafted v kids q' j held apart' own)),
                Holds-frame h' q (suc i) rest s.2
                    (λ a l. keep rest a l (ground (arith, d w)) (ground arith)),
              )
          | inr miss ↦ rw miss (
            rw (roots-graft w g below) (linked-other p (ground arith) (ground arith) ∙ s.0),
            Holds-graft (some p) 0 below v kids q' j s.1 (λ a. ground (arith, d a)) (ground arith)
                held apart' own,
            Holds-graft q (suc i) rest v kids q' j s.2 (λ a. ground (arith, d a)) (ground arith)
                held apart' own,
          )
        ]
