-- ===== src/Tree/Unsafe/Subtree/Prune.antt =====
-- What `remove_child` does to the forest: a tree is taken out, and the siblings behind it move up.
use cpp_tools.Base.{
  ℕ, suc, ◌+◌, ◌≤◌, Option, some, ◌==◌, ◌≡◌, refl, ◌∙◌, arith, false, if◌then◌else◌,
}
use cpp_tools.Base.Result.{ok}
use cpp_tools.Tree.Store.{Ptr, node, Heap, load, write, write_self, write_ne}
use cpp_tools.Tree.Forest.{Forest, nil, tree, roots, times, Distinct, Holds}
use cpp_tools.Tree.Node.{shift_left}
use cpp_tools.Tree.Graft.{snoc, times-snoc}
use cpp_tools.Tree.Graft.Frame.{Holds-frame, ne_of_times}
use cpp_tools.Tree.Unsafe.Model.{count}

module _ {ℓ} {T : Type ℓ} where
  -- The forest without the tree at `p`, and that tree.
  abbrev pub prune : Ptr → Forest T → Forest T
  prune p nil = nil
  prune p (tree w x kids rest) = if w == p then rest else tree w x (prune p kids) (prune p rest)

  abbrev pub branch : Ptr → Forest T → Forest T
  branch p nil = nil
  branch p (tree w x kids rest) =
      if w == p then tree w x kids nil else snoc (branch p kids) (branch p rest)

  -- Each node is on one side.
  pub times-prune :
      (a p : Ptr) (f : Forest T) → times a (prune p f) + times a (branch p f) ≡ times a f
  times-prune a p nil = refl
  times-prune a p (tree w x kids rest) = ground (
    arith,
    times-snoc a (branch p kids) (branch p rest),
    times-prune a p kids,
    times-prune a p rest,
  )

  pub prune-none : (p : Ptr) (f : Forest T) → times p f ≡ 0 → prune p f ≡ f
  prune-none p nil z = refl
  prune-none p (tree w x kids rest) z =
      let other : (w == p) ≡ false = ground arith in
      rw (other, prune-none p kids (omega arith), prune-none p rest (omega arith))

  pub branch-none : (p : Ptr) (f : Forest T) → times p f ≡ 0 → branch p f ≡ nil
  branch-none p nil z = refl
  branch-none p (tree w x kids rest) z =
      let other : (w == p) ≡ false = ground arith in
      rw (other, branch-none p kids (omega arith), branch-none p rest (omega arith))

  pub count-roots : (a : Ptr) (f : Forest T) → count a (roots f) ≤ times a f
  count-roots a nil = omega arith
  count-roots a (tree w x kids rest) = omega (arith, count-roots a rest)

  pub roots-prune : (p : Ptr) (f : Forest T) → count p (roots f) ≡ 0 → roots (prune p f) ≡ roots f
  roots-prune p nil z = refl
  roots-prune p (tree w x kids rest) z =
      let other : (w == p) ≡ false = ground arith in rw (other, roots-prune p rest (omega arith))

  -- The loop over the siblings on the right brings their indices up to date.
  pub shift_left-Holds :
      (h : Heap T) (q : Option Ptr) (i : ℕ) (f : Forest T)
      → Holds h q (suc i) f
      → Distinct f
      → (h' : Heap T) × (shift_left h (roots f) ≡ ok h')
        × Holds h' q i f
        × ((a : Ptr) → count a (roots f) ≡ 0 → h' a ≡ h a)
  unfolding shift_left load
  shift_left-Holds h q i nil s d = (h, refl, tt, λ a z. refl)
  shift_left-Holds h q i (tree p v kids rest) s d =
      let c = some (node v q i (roots kids)) in
      let h1 = write h p c in
      let alone : times p rest ≡ 0 = ground (arith, d p) in
      let (h', e, held, same) =
        shift_left-Holds h1 q (suc i) rest
          (Holds-frame h1 q (suc (suc i)) rest s.2
            (λ a l. write_ne h p a c (ne_of_times rest l alone)))
          (λ a. ground (arith, d a)) in
      (
        h',
        rw s.0 e,
        (
          same p (omega (arith, count-roots p rest, alone)) ∙ write_self h p c,
          Holds-frame h' (some p) 0 kids s.1 (λ a l.
              same a (ground (arith, count-roots a rest, d a))
              ∙ write_ne h p a c (ne_of_times kids l (ground (arith, d p)))),
          held,
        ),
        λ a z. same a (omega arith) ∙ write_ne h p a c (ground arith),
      )
