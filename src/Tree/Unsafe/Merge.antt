-- ===== src/Tree/Unsafe/Merge.antt =====
-- cpptools/container/tree/unsafe_tree.hpp: `merge_with_parent`.
pub mod Renew
pub mod Ends
pub mod Extrema
pub mod Whole
use cpp_tools.Base.{ℕ, Option, some, if◌then◌else◌}
use cpp_tools.Base.Result.{Result, ok, fault, out_of_fuel, ◌>>=◌, of_option}
use cpp_tools.Tree.Store.{Ptr, Heap, load}
use cpp_tools.Tree.Node.{leftmost_child_or_this, rightmost_child_or_this}
use cpp_tools.Tree.Node.Merge.{merge_child}
use cpp_tools.Tree.Unsafe.{UnsafeTree, is_at}
use cpp_tools.Tree.Unsafe.Subtree.{delete_node}

-- The extremum of the tree, if it is not the node that is merged; else the descent from its parent.
abbrev pub merged_extremum : Ptr → Option Ptr → Result Ptr → Result (Option Ptr)
merged_extremum n extremum descent =
    if is_at n extremum then (do e ← descent; ok (some e)) else ok extremum

module _ {ℓ} {T : Type ℓ} where
  unfoldable pub merge_with_parent :
      (T → T → T) → ℕ → Heap T → UnsafeTree → Ptr → Result (Heap T × UnsafeTree)
  unfolding merge_child
  merge_with_parent merge fuel h t n = do
    m ← load h n
    parent ← of_option m.parent
    h' ← merge_child merge h parent m.sibling_index
    leftmost' ← merged_extremum n t.leftmost (leftmost_child_or_this fuel h' parent)
    rightmost' ← merged_extremum n t.rightmost (rightmost_child_or_this fuel h' parent)
    let rest = delete_node n (h', t.nodes)
    ok (rest.0, record t { nodes = rest.1; leftmost = leftmost'; rightmost = rightmost' })
