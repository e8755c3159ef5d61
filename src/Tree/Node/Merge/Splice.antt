-- ===== src/Tree/Node/Merge/Splice.antt =====
-- The parts of `merge_child` on a forest: the children of the child come to stand in its place, and
-- the indices up to date.
use cpp_tools.Base.{
  take-append, drop-append, ℕ, suc, ◌+◌, ◌-◌, ◌≤◌, false, List, [], ◌∷◌, ◌++◌, Option, some, ◌==◌,
  ◌≡◌, refl, sym, ap, ◌∙◌, inl, inr, arith, Bool-cases, length, length-append, take, drop, map,
  if◌then◌else◌, length-map,
}
use cpp_tools.Base.Result.{Result, ok}
use cpp_tools.Tree.Store.{Ptr, Heap}
use cpp_tools.Tree.Forest.{Forest, nil, tree, roots, times, Distinct, Holds}
use cpp_tools.Tree.Graft.{snoc, Holds-snoc}
use cpp_tools.Tree.Graft.Frame.{Holds-frame}
use cpp_tools.Tree.Unsafe.Model.{count}
use cpp_tools.Tree.Unsafe.Subtree.Prune.{count-roots}
use cpp_tools.Tree.Node.Merge.{adopt_in_place, renumber}
use cpp_tools.Tree.Node.Merge.Slots.{
  erase_at-middle, take_all, map-append, make_room-Room, resize-middle, pointers-some,
}
use cpp_tools.Tree.Node.Merge.Renumber.{renumber-Holds, adopt-Holds, renumber-append}

module _ {ℓ} {T : Type ℓ} where
  -- Both branches put the children of the child between its siblings, and change their parent.
  pub adopt_in_place-Holds :
      (h : Heap T) (this n : Ptr) (q : Option Ptr) (left right : List Ptr) (below : Forest T)
      → Holds h q 0 below
      → Distinct below
      → (h' : Heap T) × (adopt_in_place h this
            (length left)
            (length left)
            (roots below)
            (left ++ n ∷ right)
          ≡ ok (h', left ++ (roots below ++ right)))
        × Holds h' (some this) 0 below
        × ((a : Ptr) → count a (roots below) ≡ 0 → h' a ≡ h a)
  unfolding adopt_in_place
  adopt_in_place-Holds h this n q left right nil s d =
      (h, rw (erase_at-middle left n right), tt, λ a z. refl)
  adopt_in_place-Holds h this n q left right (tree p v kids rest) s d =
      let f = tree p v kids rest in
      let front = map some left in
      let back = map some right in
      let more = length (roots rest) in
      let room = make_room-Room front (some n) back more in
      let (h', run, held, same) =
        adopt-Holds h this q 0 f front room.between back s d room.enough in
      let behind : length (left ++ n ∷ right) - 1 - length left ≡ length right =
        omega (arith, length-append left (n ∷ right)) in
      let whole : front ++ (map some (roots f) ++ back) ≡ map some (left ++ (roots f ++ right)) =
        sym (
          map-append some left (roots f ++ right)
          ∙ ap (λ l. front ++ l) (map-append some (roots f) right)) in
      (
        h',
        rw (
          behind,
          resize-middle left n right more,
          ← length-map left (λ (a : Ptr). some a),
          ← length-map right (λ (a : Ptr). some a),
          room.around,
          run,
          whole,
          pointers-some (left ++ (roots f ++ right)),
        ),
        held,
        same,
      )

  -- The indices of the adopted nodes, and of the siblings on the right, come up to date.
  abbrev pub Numbered : Heap T → Result (Heap T) → Option Ptr → ℕ → Forest T → Forest T → Type ℓ
  Numbered h run q i below right =
      (h' : Heap T) × (run ≡ ok h')
      × Holds h' q i (snoc below right)
      × ((a : Ptr) → count a (roots below) ≡ 0 → count a (roots right) ≡ 0 → h' a ≡ h a)

  module _ (h : Heap T) (q : Option Ptr) (below right : Forest T)
      (apart : (a : Ptr) → times a below + times a right ≤ 1) where
    keep_below :
        (h' : Heap T) (i : ℕ)
        → Holds h q i below
        → ((a : Ptr) → count a (roots right) ≡ 0 → h' a ≡ h a)
        → Holds h' q i below
    keep_below h' i s same =
        Holds-frame h' q i below s (λ a l. same a (omega (arith, count-roots a right, apart a)))

    keep_right :
        (h' : Heap T) (i : ℕ)
        → Holds h q i right
        → ((a : Ptr) → count a (roots below) ≡ 0 → h' a ≡ h a)
        → Holds h' q i right
    keep_right h' i s same =
        Holds-frame h' q i right s (λ a l. same a (omega (arith, count-roots a below, apart a)))

    number_none :
        (k i : ℕ)
        → Holds h q i below
        → Holds h q (i + length (roots below)) right
        → Numbered h (renumber h [] k) q i below right
    unfolding renumber
    number_none k i s s' = (h, refl, Holds-snoc h q i below right s s', λ a z z'. refl)

    number_right :
        (i j : ℕ)
        → Holds h q i below
        → Holds h q j right
        → Numbered h (renumber h (roots right) (i + length (roots below))) q i below right
    number_right i j s s' =
        let (h', run, held, same) =
          renumber-Holds h q j (i + length (roots below)) right s' (λ a. omega (arith, apart a)) in
        (h', run, Holds-snoc h' q i below right (keep_below h' i s same) held, λ a z z'. same a z')

    number_below :
        (i j : ℕ)
        → Holds h q j below
        → Holds h q (i + length (roots below)) right
        → Numbered h (renumber h (roots below) i) q i below right
    number_below i j s s' =
        let (h', run, held, same) = renumber-Holds h q j i below s (λ a. omega (arith, apart a)) in
        (
          h',
          run,
          Holds-snoc h' q i below right held (keep_right h' (i + length (roots below)) s' same),
          λ a z z'. same a z,
        )

  number_both :
      (h : Heap T) (q : Option Ptr) (below right : Forest T)
      → ((a : Ptr) → times a below + times a right ≤ 1)
      → (i j k : ℕ) → Holds h q j below
      → Holds h q k right
      → Numbered h (renumber h (roots below ++ roots right) i) q i below right
  number_both h q below right apart i j k s s' =
      let (h1, run, held, same) = renumber-Holds h q j i below s (λ a. omega (arith, apart a)) in
      let (h2, run', held', same') =
        number_right h1 q below right apart i k held
          (keep_right h q below right apart h1 k s' same) in
      (
        h2,
        rw (renumber-append h (roots below) (roots right) i, run) run',
        held',
        λ a z z'. same' a z z' ∙ same a z,
      )

  -- The range of the nodes whose index is outdated, for every place of the child and every number of
  -- its children.
  module _ (h : Heap T) (q : Option Ptr) (below right : Forest T)
      (apart : (a : Ptr) → times a below + times a right ≤ 1) (s : Holds h q 0 below) where
    number_first :
        Holds h q 1 right
        → let children = roots below ++ roots right in
          let start = length (roots below) in
          let end = if start == 1 then start else length children in
          Numbered h (renumber h (take (end - start) (drop start children)) start) q 0 below right
    number_first s' =
        let b = roots below in
        let r = roots right in
        elim (Bool-cases (length b == 1)) [
          | inl one ↦
              let none_left : length b - length b ≡ 0 = omega arith in
              let same : 1 ≡ 0 + length b = ground arith in
              rw (one, none_left) (number_none h q below right apart (length b) 0 s (rw same at s'))
          | inr other ↦
              let left : length (b ++ r) - length b ≡ length r = omega (arith, length-append b r) in
              let start : 0 + length b ≡ length b = omega arith in
              rw (other, left, drop-append b r, take_all r)
                (rw start at (number_right h q below right apart 0 1 s s'))
        ]

    number_later :
        (front : List Ptr)
        → Holds h q (suc (length front)) right
        → let children = front ++ (roots below ++ roots right) in
          let start = length front in
          let end =
            if length (roots below) == 1 then start + length (roots below) else length children in
          Numbered h
            (renumber h (take (end - start) (drop start children)) start)
            q
            start
            below
            right
    number_later front s' =
        let b = roots below in
        let r = roots right in
        let i = length front in
        rw (drop-append front (b ++ r)) (elim (Bool-cases (length b == 1)) [
          | inl one ↦
              let left : i + length b - i ≡ length b = omega arith in
              let same : suc i ≡ i + length b = ground arith in
              rw (one, left, take-append b r)
                (number_below h q below right apart i 0 s (rw same at s'))
          | inr other ↦
              let left : length (front ++ (b ++ r)) - i ≡ length (b ++ r) =
                omega (arith, length-append front (b ++ r)) in
              rw (other, left, take_all (b ++ r))
                (number_both h q below right apart i 0 (suc i) s s')
        ])

    pub number_slice :
        (front : List Ptr)
        → Holds h q (suc (length front)) right
        → let children = front ++ (roots below ++ roots right) in
          let adopted = length (roots below) in
          let start = if length front == 0 then adopted else length front in
          let end = if adopted == 1 then length front + adopted else length children in
          Numbered h
            (renumber h (take (end - start) (drop start children)) start)
            q
            (length front)
            below
            right
    number_slice [] s' =
        let start : 0 + length (roots below) ≡ length (roots below) = omega arith in
        rw start (number_first s')
    number_slice (p ∷ front) s' =
        let later : (suc (length front) == 0) ≡ false = ground arith in
        rw later (number_later (p ∷ front) s')

  pub Holds-split :
      (h : Heap T) (q : Option Ptr) (i : ℕ) (f g : Forest T)
      → Holds h q i (snoc f g)
      → Holds h q i f × Holds h q (i + length (roots f)) g
  Holds-split h q i nil g s = let e : i + 0 ≡ i = omega arith in (tt, rw e s)
  Holds-split h q i (tree p v kids rest) g s =
      let e : i + suc (length (roots rest)) ≡ suc i + length (roots rest) = omega arith in
      let (a, b) = Holds-split h q (suc i) rest g s.2 in ((s.0, s.1, a), rw e b)
