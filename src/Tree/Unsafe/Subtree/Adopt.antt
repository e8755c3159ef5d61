-- ===== src/Tree/Unsafe/Subtree/Adopt.antt =====
-- `adopt_subtree` grafts the other tree, and leaves it empty.
use cpp_tools.Base.{ℕ, ◌+◌, ◌≤◌, ◌<◌, [], none, some, ◌≡◌, ◌≢◌, sym, ap, ◌∙◌, arith}
use cpp_tools.Base.Result.{ok}
use cpp_tools.Tree.Store.{Ptr, node, Heap}
use cpp_tools.Tree.Forest.{Forest, nil, tree, roots, depth, times}
use cpp_tools.Tree.Graft.{graft, linked, insert_child-linked}
use cpp_tools.Tree.Graft.Frame.{ne_of_times, node_of}
use cpp_tools.Tree.Graft.Ends.{last-tree}
use cpp_tools.Tree.Unsafe.{UnsafeTree, empty_tree, clear, would_change_leftmost}
use cpp_tools.Tree.Unsafe.Model.{Models}
use cpp_tools.Tree.Unsafe.Grafted.{grafted, Models-grafted}
use cpp_tools.Tree.Unsafe.Emplace.{would_change_rightmost_lem}
use cpp_tools.Tree.Unsafe.Subtree.{adopt_subtree}
use cpp_tools.Tree.Unsafe.Subtree.Transfer.{nil-count, move_node_ptrs-Moved}

module _ {ℓ} {T : Type ℓ} where
  -- On a tree that stands for a forest, a node of it, another tree that stands for other nodes, and
  -- rounds for the depth of both, `adopt_subtree` returns a tree that stands for the forest with the
  -- other one as the last child of the node; the other tree is left empty.
  pub adopt_subtree-Models :
      {h : Heap T} {t other : UnsafeTree} (fuel : ℕ) (w r c : Ptr) (x y : T) (kids below : Forest T)
      → Models h t (tree r x kids nil)
      → Models h other (tree c y below nil)
      → ((a : Ptr) → times a (tree r x kids nil) + times a (tree c y below nil) ≤ 1)
      → 0 < times w (tree r x kids nil)
      → depth (tree r x kids nil) < fuel
      → depth (tree c y below nil) < fuel
      → (h' : Heap T) × (t' : UnsafeTree) × (adopt_subtree fuel h t w other
          ≡ ok (h', t', empty_tree, c))
        × Models h' t' (graft w (tree c y below nil) (tree r x kids nil))
  unfolding adopt_subtree clear would_change_leftmost
  adopt_subtree-Models {h} {t} {other} fuel w r c x y kids below m o apart inside le le' =
      let f = tree r x kids nil in
      let g = tree c y below nil in
      let (n, at_w) = node_of h none 0 w f m.held inside in
      let at_c = o.held.0 in
      let out : times w g ≡ 0 = ground (arith, apart w) in
      let here : 0 < times c g = ground arith in
      let away : times c f ≡ 0 = omega (arith, apart c) in
      let different : c ≢ w = λ e. ne_of_times f inside away (sym e) in
      let (s, moves, moved) =
        move_node_ptrs-Moved fuel h none 0 c y below o.held other.nodes t.nodes le'
          (λ a. omega (arith, o.owned a)) in
      let gone : s.0 ≡ [] = nil-count s.0 (λ a. omega (arith, moved.left a, o.owned a)) in
      let old_last = m.points.2 ∙ ap some (sym (last-tree r x kids r)) in
      (
        linked h w n c (node y none 0 (roots below)),
        grafted t w r x kids c below s.1,
        rw (
          would_change_rightmost_lem fuel h t w r x kids m.held old_last le,
          o.points.0,
          o.points.1,
          o.points.2,
          moves,
          insert_child-linked h w c at_w at_c different,
          gone,
        ),
        Models-grafted t w r x kids c h y below none 0 s.1 at_w at_c inside m.held m.points o.held
            apart (λ a. omega (arith, moved.right a, m.owned a)),
      )
