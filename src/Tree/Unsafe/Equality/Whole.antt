-- ===== src/Tree/Unsafe/Equality/Whole.antt =====
-- `operator==` compares the forests that two trees stand for.
use cpp_tools.Base.{
  ℕ, zero, suc, ◌-◌, ◌≤◌, Bool, true, false, ◌||◌, [], none, ◌==◌, ◌≡◌, refl, inl, inr, arith,
  if◌then◌else◌, Bool-cases,
}
use cpp_tools.Base.Result.{ok, ◌>>=◌, of_option}
use cpp_tools.Tree.Store.{Heap}
use cpp_tools.Tree.Forest.{Forest, nil, tree, node_count}
use cpp_tools.Tree.Unsafe.{UnsafeTree, size, is_empty}
use cpp_tools.Tree.Unsafe.Model.{Models}
use cpp_tools.Tree.Unsafe.Owned.{size-node_count}
use cpp_tools.Tree.Unsafe.Equality.{unstack, subtrees_equal, trees_equal}
use cpp_tools.Tree.Unsafe.Equality.Walk.{same_forest, walk_node, walk_equal-Walks}

module _ {ℓ} {T : Type ℓ} (eq : T → T → Bool) where
  node_count-same : (f g : Forest T) → same_forest eq f g ≡ true → node_count f ≡ node_count g
  node_count-same nil nil e = refl
  node_count-same nil (tree q w k r) e = ground arith
  node_count-same (tree p v kids rest) nil e = ground arith
  node_count-same (tree p v kids rest) (tree q w k r) e =
      ground (arith, node_count-same kids k, node_count-same rest r)

  is_empty-size : (t : UnsafeTree) → is_empty t ≡ (size t == 0)
  unfolding is_empty size
  is_empty-size t = ground arith

  -- The comparison behind the tests, on trees of the same size.
  roots_equal :
      (h : Heap T) (fuel : ℕ) (t t' : UnsafeTree) (f g : Forest T)
      → Models h t f
      → Models h t' g
      → node_count f ≤ fuel
      → node_count f ≡ node_count g
      → (if size t == 0 then ok true else do
        left ← of_option t.root
        right ← of_option t'.root
        subtrees_equal eq h fuel left right)
        ≡ ok (same_forest eq f g)
  unfolding subtrees_equal unstack
  roots_equal h fuel t t' nil nil m n le e = rw (size-node_count h t nil m)
  roots_equal h fuel t t' nil (tree q w k r) m n le e = absurd (omega (arith, e))
  roots_equal h fuel t t' (tree p v kids r) nil m n le e = absurd (omega (arith, e))
  roots_equal h fuel t t' (tree p v kids (tree a x b c)) g m n le e = absurd m.points
  roots_equal h fuel t t' (tree p v kids nil) (tree q w k (tree a x b c)) m n le e = absurd n.points
  roots_equal h zero t t' (tree p v kids nil) (tree q w k nil) m n le e = absurd (omega arith)
  roots_equal h (suc fuel) t t' (tree p v kids nil) (tree q w k nil) m n le e =
      let walked =
        walk_node eq h fuel (fuel - node_count kids) [] p q 0 0 none none v w kids nil k nil m.held
          n.held (walk_equal-Walks eq h kids k) (omega (arith, le)) in
      rw (size-node_count h t (tree p v kids nil) m, m.points.0, n.points.0)
        (ground (arith, walked))

  -- On two trees that stand for forests, with a round for each node of the first, `operator==` tells
  -- whether they are one object, or the forests have the same shape with values that compare equal.
  pub trees_equal-same_forest :
      (h : Heap T) (fuel : ℕ) (same : Bool) (t t' : UnsafeTree) (f g : Forest T)
      → Models h t f
      → Models h t' g
      → node_count f ≤ fuel
      → trees_equal eq h fuel same t t' ≡ ok (same || same_forest eq f g)
  unfolding trees_equal
  trees_equal-same_forest h fuel true t t' f g m n le = refl
  trees_equal-same_forest h fuel false t t' f g m n le = elim (Bool-cases (size t == size t')) [
    | inr differ ↦
        let unequal : same_forest eq f g ≡ false =
          ground (arith, node_count-same f g, size-node_count h t f m, size-node_count h t' g n) in
        rw (differ, unequal)
    | inl equal ↦ rw equal (
        rw (is_empty-size t) (
          roots_equal h fuel t t' f g m n le
            (ground (arith, size-node_count h t f m, size-node_count h t' g n))))
  ]
