-- ===== src/Tree/Unsafe/MoveAssign/Fault.antt =====
-- What becomes of `_move_assign_contents` on a tree whose root has children.
use cpp_tools.Base.{ℕ, zero, suc, ◌<◌, true, [], ◌∷◌, none, some, ◌≡◌, ◌≢◌, sym, ◌∙◌, arith}
use cpp_tools.Base.Result.{ok, fault}
use cpp_tools.Tree.Store.{Ptr, node, Heap, load, write, write_self, write_ne}
use cpp_tools.Tree.Forest.{Forest, nil, tree, roots, times, Holds}
use cpp_tools.Tree.Node.{make, insert_child, is_rightmost_sibling, leftmost_child_or_this}
use cpp_tools.Tree.Graft.{linked, insert_child-linked, linked-child, linked-parent}
use cpp_tools.Tree.Graft.Frame.{ne_of_times}
use cpp_tools.Tree.Unsafe.{UnsafeTree, make_node}
use cpp_tools.Tree.Unsafe.Model.{Models}
use cpp_tools.Tree.Unsafe.Equality.{unstack}
use cpp_tools.Tree.Unsafe.MoveAssign.{rebuild, move_assign_contents}

module _ {ℓ} {T : Type ℓ} (fresh : ℕ → Ptr) where
  -- The heap behind the first round of the loop: a root with one child, which has none.
  first_copy :
      (h : Heap T) (o c : Ptr) (v w : T) (below rest : Forest T)
      → Holds h none 0 (tree o v (tree c w below rest) nil)
      → times (fresh 0) (tree o v (tree c w below rest) nil) ≡ 0
      → fresh 0 ≢ fresh 1
      → (write h (fresh 0) (some (make v)) c ≡ some (node w (some o) 0 (roots below)))
        × (h' : Heap T) × (insert_child
              (write (write h (fresh 0) (some (make v))) (fresh 1) (some (make w)))
              (fresh 0)
              (fresh 1)
            ≡ ok h')
        × (h' (fresh 0) ≡ some (node v none 0 (fresh 1 ∷ [])))
        × (h' (fresh 1) ≡ some (node w (some (fresh 0)) 0 []))
  first_copy h o c v w below rest held new apart =
      let f = tree o v (tree c w below rest) nil in
      let a = fresh 0 in
      let b = fresh 1 in
      let h1 = write h a (some (make v)) in
      let c_below : 0 < times c f = ground arith in
      let at_a = write_ne h1 b a (some (make w)) apart ∙ write_self h a (some (make v)) in
      let at_b = write_self h1 b (some (make w)) in
      let other_way : b ≢ a = λ e. apart (sym e) in
      let h2 = write h1 b (some (make w)) in
      (
        write_ne h a c (some (make v)) (ne_of_times f c_below new) ∙ held.1.0,
        linked h2 a (make v) b (make w),
        insert_child-linked h2 a b at_a at_b other_way,
        linked-parent h2 a b at_a at_b other_way,
        linked-child h2 a b at_a at_b other_way,
      )

  -- With a tree whose root has children, and an allocator whose first address is new and whose second
  -- is another, `_move_assign_contents` is undefined behaviour, whatever the tree: below a first child
  -- with children it takes a child that is not there yet, and behind a first child without any it takes
  -- the last child of the root by an index that is too large.
  pub move_assign_contents-fault :
      {h : Heap T} (t : UnsafeTree) {other : UnsafeTree} (fuel : ℕ) (o c : Ptr) (v w : T)
      (below rest : Forest T)
      → Models h other (tree o v (tree c w below rest) nil)
      → times (fresh 0) (tree o v (tree c w below rest) nil) ≡ 0
      → fresh 0 ≢ fresh 1
      → 0 < fuel
      → move_assign_contents fresh fuel h t other ≡ fault
  unfolding move_assign_contents rebuild unstack make_node load is_rightmost_sibling
      leftmost_child_or_this
  move_assign_contents-fault t zero o c v w below rest m new apart le = absurd (omega arith)
  move_assign_contents-fault {h} t (suc k) o c v w nil rest m new apart le =
      let (at_c, h', put, root, child) = first_copy h o c v w nil rest m.held new apart in
      let alone : is_rightmost_sibling h' (fresh 1) ≡ ok true = rw (child, root) in
      rw (m.points.0, m.held.0, at_c, put, child, alone, root, child)
  move_assign_contents-fault {h} t (suc k) o c v w (tree d y l r) rest m new apart le =
      let (at_c, h', put, root, child) =
        first_copy h o c v w (tree d y l r) rest m.held new apart in
      rw (m.points.0, m.held.0, at_c, put, child)
