-- ===== src/Tree/Tests.antt =====
-- A tree of five nodes built by `emplace_node`, run through the loops, and the theorems at it.
use cpp_tools.Base.{ℕ, List, [], ◌∷◌, Option, none, some, ◌≡◌, refl, arith}
use cpp_tools.Base.Result.{Result, ok, ◌>>=◌}
use cpp_tools.Tree.Store.{Ptr, Heap, load, write}
use cpp_tools.Tree.Forest.{Forest, nil, tree}
use cpp_tools.Tree.Node.{
  insert_child, has_parent, leftmost_child_or_this, is_leftmost_sibling, is_rightmost_sibling,
  left_sibling, right_sibling,
}
use cpp_tools.Tree.Traversal.{pre_next, post_next, post_previous, visit, beyond}
use cpp_tools.Tree.Unsafe.{UnsafeTree, empty_tree, emplace_node, would_change_rightmost}
use cpp_tools.Tree.Unsafe.Model.{Models}
use cpp_tools.Tree.Unsafe.Place.{emplace_node-Models}
use cpp_tools.Tree.Iterator.{
  Order, pre, post, dfs_next, dfs_previous, dfs_begin, dfs_last, dfs_end, increment, decrement,
  traverse, rewind, traverse_back,
}
use cpp_tools.Tree.Iterator.Forward.{traverse-nodes_in}
use cpp_tools.Tree.Iterator.Reverse.{traverse_back-reverse}
use cpp_tools.Tree.Iterator.Inverse.{decrement-increment}

abbrev Memory : Type 0
Memory = Heap ℕ × UnsafeTree

abbrev blank : Memory
blank = (λ a. none, empty_tree)

abbrev add : Option Ptr → Ptr → ℕ → Memory → Result Memory
add place fresh v (h, t) = emplace_node 10 h t place fresh v

-- Root 1; its children 2 and 3; 4 below 2; 5 below 3.
family : Result Memory
family = do
  a ← add none 1 10 blank
  b ← add (some 1) 2 20 a
  c ← add (some 1) 3 30 b
  d ← add (some 2) 4 40 c
  add (some 3) 5 50 d

walk : Order → Memory → Result (List Ptr)
walk o (h, t) = traverse o 10 10 h t

walk_back : Order → Memory → Result (List Ptr)
walk_back o (h, t) = traverse_back o 10 10 h t

pre_order : (family >>= walk pre) ≡ ok (1 ∷ 2 ∷ 4 ∷ 3 ∷ 5 ∷ [])
unfolding family walk traverse emplace_node would_change_rightmost has_parent insert_child load
    write visit dfs_next dfs_begin pre_next beyond is_rightmost_sibling right_sibling
pre_order = refl

post_order : (family >>= walk post) ≡ ok (4 ∷ 2 ∷ 5 ∷ 3 ∷ 1 ∷ [])
unfolding family walk traverse emplace_node would_change_rightmost has_parent insert_child load
    write visit dfs_next dfs_begin post_next is_rightmost_sibling right_sibling
    leftmost_child_or_this
post_order = refl

post_order_back : (family >>= walk_back post) ≡ ok (1 ∷ 3 ∷ 5 ∷ 2 ∷ 4 ∷ [])
unfolding family walk_back traverse_back emplace_node would_change_rightmost has_parent insert_child
    load write rewind dfs_previous dfs_begin dfs_end dfs_last decrement post_previous beyond
    is_leftmost_sibling left_sibling
post_order_back = refl

empty-Models : Models {T = ℕ} (λ a. none) empty_tree nil
empty-Models = record {
  held = tt;
  distinct = λ a. omega arith;
  owned = λ a. refl;
  points = (refl, refl, refl);
}

-- The root, and a child below it, with the states that the theorem gives.
abbrev one_node : Forest ℕ
one_node = tree 1 10 nil nil

abbrev two_nodes : Forest ℕ
two_nodes = tree 1 10 (tree 2 20 nil nil) nil

step_one :
    (h : Heap ℕ) × (t : UnsafeTree) × (emplace_node 10 (λ a. none) empty_tree none 1 10 ≡ ok (h, t))
    × Models h t one_node
step_one = emplace_node-Models 10 none 1 10 nil empty-Models tt refl (omega arith)

step_two :
    (h : Heap ℕ) × (t : UnsafeTree) × (emplace_node 10 step_one.0 step_one.1 (some 1) 2 20
      ≡ ok (h, t))
    × Models h t two_nodes
step_two = emplace_node-Models 10 (some 1) 2 20 one_node step_one.3 (omega arith) refl (omega arith)

emplace_node-Models_example :
    (h : Heap ℕ) × (t : UnsafeTree) × (emplace_node 10 step_two.0 step_two.1 (some 2) 3 30
      ≡ ok (h, t))
    × Models h t (tree 1 10 (tree 2 20 (tree 3 30 nil nil) nil) nil)
emplace_node-Models_example =
    emplace_node-Models 10 (some 2) 3 30 two_nodes step_two.3 (omega arith) refl (omega arith)

traverse-nodes_in_example : traverse post 5 5 step_two.0 step_two.1 ≡ ok (2 ∷ 1 ∷ [])
traverse-nodes_in_example =
    traverse-nodes_in post 5 5 step_two.0 step_two.1 two_nodes step_two.3 (omega arith)
      (omega arith)

traverse_back-reverse_example : traverse_back pre 5 5 step_two.0 step_two.1 ≡ ok (2 ∷ 1 ∷ [])
traverse_back-reverse_example =
    traverse_back-reverse pre 5 5 step_two.0 step_two.1 1 10 (tree 2 20 nil nil) step_two.3
      (omega arith) (omega arith)

decrement-increment_example :
    (it : Option Ptr) × (increment post 5 step_two.0 (some 2) ≡ ok it)
    × (decrement post 5 step_two.0 step_two.1 it ≡ ok (some 2))
decrement-increment_example =
    decrement-increment post 5 step_two.0 step_two.1 1 10 (tree 2 20 nil nil) 2 step_two.3
      (omega arith) (omega arith)
