-- ===== src/Tree/Node/Merge/Whole.antt =====
-- `merge_child` on a forest.
use cpp_tools.Base.{
  ℕ, suc, ◌+◌, ◌-◌, ◌≤◌, [], ◌∷◌, ◌++◌, Option, some, ◌==◌, ◌≡◌, ◌≢◌, sym, ◌∙◌, arith, length, take,
  drop, if◌then◌else◌,
}
use cpp_tools.Base.Result.{ok}
use cpp_tools.Tree.Store.{Ptr, Node, node, Heap, write, write_self, write_ne}
use cpp_tools.Tree.Forest.{Forest, nil, tree, roots, times, Distinct, Holds}
use cpp_tools.Tree.Graft.{snoc, roots-snoc, times-snoc, Holds-snoc}
use cpp_tools.Tree.Graft.Frame.{Holds-frame, ne_of_times}
use cpp_tools.Tree.Unsafe.Model.{count}
use cpp_tools.Tree.Unsafe.Subtree.Prune.{count-roots}
use cpp_tools.Tree.Node.Merge.{adopt_in_place, renumber, merge_child}
use cpp_tools.Tree.Node.Merge.Splice.{adopt_in_place-Holds, Numbered, number_slice, Holds-split}
use cpp_tools.Tree.Node.Merge.Steps.{merge_child_lem}

module _ {ℓ} {T : Type ℓ} where
  -- The heap behind the first loop, which has changed the child and the roots of `below` only.
  record Adopted (h : Heap T) (q : Option Ptr) (i : ℕ) (this : Ptr) (v : T) (left : Forest T)
      (n : Ptr) (w : T) (below right : Forest T) : Type ℓ where
    heap : Heap T
    run :
        let l = roots left in
        adopt_in_place
          (write h n (some (node w (some this) (length l) [])))
          this
          (length l)
          (length l)
          (roots below)
          (l ++ n ∷ roots right)
        ≡ ok (heap, l ++ (roots below ++ roots right))
    held : Holds heap (some this) 0 below
    parent : heap this ≡ some (node v q i (roots left ++ n ∷ roots right))
    child : heap n ≡ some (node w (some this) (length (roots left)) [])
    same : (a : Ptr) → a ≢ n → count a (roots below) ≡ 0 → heap a ≡ h a

  module _ (h : Heap T) (q : Option Ptr) (i : ℕ) (this : Ptr) (v : T) (left : Forest T) (n : Ptr)
      (w : T) (below right : Forest T)
      (s : Holds h q i (tree this v (snoc left (tree n w below right)) nil))
      (d : Distinct (tree this v (snoc left (tree n w below right)) nil)) where
    split :
        (a : Ptr)
        → times a (tree this v (snoc left (tree n w below right)) nil)
          ≡ (if a == this then 1 else 0)
            + (times a left + ((if a == n then 1 else 0) + (times a below + times a right)))
    split a = omega (arith, times-snoc a left (tree n w below right))

    apart :
        (a : Ptr)
        → (if a == this then 1 else 0)
            + (times a left + ((if a == n then 1 else 0) + (times a below + times a right)))
          ≤ 1
    apart a = omega (arith, split a, d a)

    no_parent : times this left + (times this below + times this right) ≡ 0
    no_parent = ground (arith, apart this)

    no_child : times n left + (times n below + times n right) ≡ 0
    no_child = ground (arith, apart n)

    differ : this ≢ n
    differ = ground (arith, apart this)

    at_parent : h this ≡ some (node v q i (roots left ++ n ∷ roots right))
    at_parent = s.0 ∙ rw (roots-snoc left (tree n w below right))

    on_left : Holds h (some this) 0 left
    on_left = (Holds-split h (some this) 0 left (tree n w below right) s.1).0

    from_child : Holds h (some this) (length (roots left)) (tree n w below right)
    from_child =
        let start : 0 + length (roots left) ≡ length (roots left) = omega arith in
        rw start at ((Holds-split h (some this) 0 left (tree n w below right) s.1).1)

    adopted : Adopted h q i this v left n w below right
    adopted =
        let bare = some (node w (some this) (length (roots left)) []) in
        let (h', run', held', same') =
          adopt_in_place-Holds (write h n bare) this n (some n) (roots left) (roots right) below
            (Holds-frame (write h n bare) (some n) 0 below from_child.1
              (λ a l. write_ne h n a bare (ne_of_times below l (omega (arith, no_child)))))
            (λ a. omega (arith, apart a)) in
        record {
          heap = h';
          run = run';
          held = held';
          parent =
              same' this (omega (arith, count-roots this below, no_parent))
              ∙ write_ne h n this bare differ
              ∙ at_parent;
          child = same' n (omega (arith, count-roots n below, no_child)) ∙ write_self h n bare;
          same = λ a ne z. same' a z ∙ write_ne h n a bare ne;
        }

    renumbered :
        (c : Adopted h q i this v left n w below right)
        → let l = roots left in
          let children = l ++ (roots below ++ roots right) in
          let adopted_count = length (roots below) in
          let start = if length l == 0 then adopted_count else length l in
          let end = if adopted_count == 1 then length l + adopted_count else length children in
          let h' = write c.heap this (some (node v q i children)) in
          Numbered h'
            (renumber h' (take (end - start) (drop start children)) start)
            (some this)
            (length l)
            below
            right
    renumbered c =
        let m = some (node v q i (roots left ++ (roots below ++ roots right))) in
        number_slice (write c.heap this m) (some this) below right (λ a. omega (arith, apart a))
          (Holds-frame (write c.heap this m) (some this) 0 below c.held
            (λ a l. write_ne c.heap this a m (ne_of_times below l (omega (arith, no_parent)))))
          (roots left)
          (Holds-frame (write c.heap this m) (some this) (suc (length (roots left))) right
            from_child.2
            (λ a l.
              write_ne c.heap this a m (ne_of_times right l (omega (arith, no_parent)))
              ∙ c.same a (ne_of_times right l (omega (arith, no_child)))
                  (omega (arith, count-roots a below, apart a))))

    -- What the end of `merge_child` leaves as it was.
    kept :
        (c : Adopted h q i this v left n w below right) (h4 : Heap T) (m k : Node T)
        → ((a : Ptr)
            → count a (roots below) ≡ 0
            → count a (roots right) ≡ 0
            → h4 a ≡ write c.heap this (some m) a)
        → (a : Ptr) → a ≢ this
        → a ≢ n
        → times a below + times a right ≡ 0
        → write h4 this (some k) a ≡ h a
    kept c h4 m k same a ne ne' z =
        let zb : count a (roots below) ≡ 0 = omega (arith, count-roots a below) in
        write_ne h4 this a (some k) ne
        ∙ same a zb (omega (arith, count-roots a right))
        ∙ write_ne c.heap this a (some m) ne
        ∙ c.same a ne' zb

    end_held :
        (c : Adopted h q i this v left n w below right) (h4 : Heap T) (m k : Node T)
        → ((a : Ptr)
            → count a (roots below) ≡ 0
            → count a (roots right) ≡ 0
            → h4 a ≡ write c.heap this (some m) a)
        → Holds h4 (some this) (length (roots left)) (snoc below right)
        → Holds (write h4 this (some k)) (some this) 0 (snoc left (snoc below right))
    end_held c h4 m k same held =
        let h5 = write h4 this (some k) in
        let start : 0 + length (roots left) ≡ length (roots left) = omega arith in
        Holds-snoc h5 (some this) 0 left (snoc below right)
          (Holds-frame h5 (some this) 0 left on_left (λ a l.
            kept c h4 m k same a (ne_of_times left l (omega (arith, no_parent)))
              (ne_of_times left l (omega (arith, no_child))) (omega (arith, apart a))))
          (rw start (
            Holds-frame h5 (some this) (length (roots left)) (snoc below right) held (λ a l.
              write_ne h4 this a (some k) (
                ne_of_times (snoc below right) l
                  (omega (arith, times-snoc this below right, no_parent))))))

    merge_child-end :
        (merge : T → T → T) (c : Adopted h q i this v left n w below right)
        → let f = tree this (merge v w) (snoc left (snoc below right)) nil in
          (h' : Heap T) × (merge_child merge h this (length (roots left)) ≡ ok h')
          × Holds h' q i f
          × ((a : Ptr)
              → times a (tree this v (snoc left (tree n w below right)) nil) ≡ 0
              → h' a ≡ h a)
    merge_child-end merge c =
        let l = roots left in
        let children = l ++ (roots below ++ roots right) in
        let m = node v q i children in
        let k = node (merge v w) q i children in
        let (h4, run4, held4, same4) = renumbered c in
        let unchanged : (a : Ptr)
            → times a below + times a right ≡ 0
            → h4 a ≡ write c.heap this (some m) a =
          λ a z.
            same4 a (omega (arith, count-roots a below)) (omega (arith, count-roots a right)) in
        (
          write h4 this (some k),
          merge_child_lem merge h c.heap h4 this n v w q i l (roots below) (roots right) at_parent
              from_child.0 differ c.run c.parent run4
              (unchanged this (omega (arith, no_parent)) ∙ write_self c.heap this (some m))
              (unchanged n (omega (arith, no_child))
                ∙ write_ne c.heap this n (some m) (λ e. differ (sym e))
                ∙ c.child),
          (
            write_self h4 this (some k)
                ∙ rw (roots-snoc left (snoc below right), roots-snoc below right),
            end_held c h4 m k same4 held4,
            tt,
          ),
          λ a z.
              kept c h4 m k same4 a (ground (arith, split a)) (ground (arith, split a))
                (omega (arith, split a)),
        )

  -- For a subtree that a heap holds, in which no address stands twice, and one of the children of its
  -- root, `merge_child` returns a heap that holds the subtree with the child's children in its place,
  -- in order, and with the value of the root merged with that of the child. The addresses outside the
  -- subtree keep what they had.
  pub merge_child-splice :
      (merge : T → T → T) (h : Heap T) (q : Option Ptr) (i : ℕ) (this : Ptr) (v : T)
      (left : Forest T) (n : Ptr) (w : T) (below right : Forest T)
      → Holds h q i (tree this v (snoc left (tree n w below right)) nil)
      → Distinct (tree this v (snoc left (tree n w below right)) nil)
      → (h' : Heap T) × (merge_child merge h this (length (roots left)) ≡ ok h')
        × Holds h' q i (tree this (merge v w) (snoc left (snoc below right)) nil)
        × ((a : Ptr)
            → times a (tree this v (snoc left (tree n w below right)) nil) ≡ 0
            → h' a ≡ h a)
  merge_child-splice merge h q i this v left n w below right s d =
      merge_child-end h q i this v left n w below right s d merge
        (adopted h q i this v left n w below right s d)
