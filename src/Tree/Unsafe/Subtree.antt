-- ===== src/Tree/Unsafe/Subtree.antt =====
-- cpptools/container/tree/unsafe_tree.hpp: the operations on whole subtrees, `adopt_subtree`, `chop_subtree`,
-- `erase_subtree` and `move_subtree`, and the recursions that hand over or destroy the nodes.
pub mod Transfer
pub mod Adopt
pub mod Prune
pub mod Cut
pub mod Near
pub mod Up
pub mod Remove
pub mod Located
pub mod MoveCases
pub mod Move
pub mod Nested
pub mod Reach
pub mod PruneEnds
pub mod BranchEnds
pub mod Chop
pub mod Parts
pub mod Delete
pub mod Erase
use cpp_tools.Base.{
  ℕ, zero, suc, Bool, true, false, ◌&&◌, not, List, [], ◌∷◌, Option, none, some, ◌==◌,
  if◌then◌else◌,
}
use cpp_tools.Base.Result.{Result, ok, fault, out_of_fuel, ◌>>=◌, of_option}
use cpp_tools.Tree.Store.{Ptr, Heap, load, write}
use cpp_tools.Tree.Node.{
  insert_child, remove_child, has_parent, leftmost_child_or_this, rightmost_child_or_this,
  release_children, clear_parent_metadata,
}
use cpp_tools.Tree.Unsafe.{
  UnsafeTree, empty_tree, is_at, disown, would_change_leftmost, would_change_rightmost, clear,
}

-- A loop over pointers that changes a state.
abbrev pub for_each {ℓ} : {S : Type ℓ} → (Ptr → S → Result S) → List Ptr → S → Result S
for_each step [] s = ok s
for_each step (p ∷ ps) s = do s' ← step p s; for_each step ps s'

-- The nodes of two trees: the one that gives, and the one that receives.
abbrev pub Handover : Type 0
Handover = List Ptr × List Ptr

abbrev pub owns : List Ptr → Ptr → Bool
owns [] a = false
owns (x ∷ xs) a = let rest = owns xs a in if a == x then true else rest

-- `extract` and `insert`, which do nothing for a node that is not there.
abbrev pub transfer : Ptr → Handover → Handover
transfer p (from, to) = if owns from p then (disown p from, p ∷ to) else (from, to)

-- The extremum of a subtree that is chopped off: that of the tree, if it goes with it.
abbrev pub chopped : Bool → Option Ptr → (Ptr → Result Ptr) → Ptr → Result (Option Ptr)
chopped true extremum descend p = ok extremum
chopped false extremum descend p = do e ← descend p; ok (some e)

-- The four cases of `move_subtree`: whether it drops the extremum, and whether it updates it.
abbrev pub moved_extremum :
    Bool → Bool → (Ptr → Result Ptr) → Ptr → Ptr → Option Ptr → Result (Option Ptr)
moved_extremum false false descend destination parent extremum = ok extremum
moved_extremum false true descend destination parent extremum = do
  e ← descend destination
  ok (some e)
moved_extremum true false descend destination parent extremum = do e ← descend parent; ok (some e)
moved_extremum true true descend destination parent extremum = ok extremum

module _ {ℓ} {T : Type ℓ} where
  unfoldable pub move_node_ptrs : ℕ → Heap T → Ptr → Handover → Result Handover
  move_node_ptrs zero h p s = out_of_fuel
  move_node_ptrs (suc k) h p s = do
    n ← load h p
    for_each (move_node_ptrs k h) n.children (transfer p s)

  -- `_delete_node`: the node is destroyed with the pointer that owns it.
  abbrev pub delete_node : Ptr → Heap T × List Ptr → Heap T × List Ptr
  delete_node p (h, nodes) = (write h p none, disown p nodes)

  unfoldable pub delete_subtree_nodes : ℕ → Ptr → Heap T × List Ptr → Result (Heap T × List Ptr)
  delete_subtree_nodes zero p s = out_of_fuel
  delete_subtree_nodes (suc k) p (h, nodes) = do
    (children, h') ← release_children h p
    s ← for_each (delete_subtree_nodes k) children (h', nodes)
    ok (delete_node p s)

  -- The new tree, this one, the other, and the pointer that is returned.
  unfoldable pub adopt_subtree :
      ℕ → Heap T → UnsafeTree → Ptr → UnsafeTree → Result (Heap T × UnsafeTree × UnsafeTree × Ptr)
  unfolding move_node_ptrs clear
  adopt_subtree fuel h t destination other = do
    let first = would_change_leftmost t destination
    last ← would_change_rightmost fuel h t destination
    new_subtree ← of_option other.root
    moved ← move_node_ptrs fuel h new_subtree (other.nodes, t.nodes)
    h' ← insert_child h destination new_subtree
    let t' = record t {
      nodes = moved.1;
      leftmost = if first then other.leftmost else t.leftmost;
      rightmost = if last then other.rightmost else t.rightmost;
    }
    let cleared = clear h' (record other { nodes = moved.0 })
    ok (cleared.0, t', cleared.1, new_subtree)

  -- Whether a subtree has the node: its root, or a node below.
  unfoldable pub reaches : ℕ → Heap T → Option Ptr → Ptr → Result Bool
  reaches fuel h extremum p =
      if is_at p extremum then ok true else do e ← of_option extremum; has_parent fuel h e p

  unfoldable pub chop_subtree :
      ℕ → Heap T → UnsafeTree → Ptr → Result (Heap T × UnsafeTree × UnsafeTree)
  unfolding move_node_ptrs
  chop_subtree fuel h t p = if is_at p t.root then ok (h, empty_tree, t) else do
    dropping_leftmost ← reaches fuel h t.leftmost p
    dropping_rightmost ← reaches fuel h t.rightmost p
    chopped_leftmost ← chopped dropping_leftmost t.leftmost (leftmost_child_or_this fuel h) p
    chopped_rightmost ← chopped dropping_rightmost t.rightmost (rightmost_child_or_this fuel h) p
    n ← load h p
    parent ← of_option n.parent
    moved ← move_node_ptrs fuel h p (t.nodes, [])
    (removed, h') ← remove_child h parent n.sibling_index
    h'' ← clear_parent_metadata h' p
    ok (
      h'',
      record t {
        nodes = moved.0;
        leftmost = if dropping_leftmost then some parent else t.leftmost;
        rightmost = if dropping_rightmost then some parent else t.rightmost;
      },
      record {
        nodes = moved.1;
        root = some p;
        leftmost = chopped_leftmost;
        rightmost = chopped_rightmost;
      },
    )

  unfoldable pub erase_subtree : ℕ → Heap T → UnsafeTree → Ptr → Result (Heap T × UnsafeTree)
  unfolding clear delete_subtree_nodes
  erase_subtree fuel h t p = if is_at p t.root then ok (clear h t) else do
    dropping_leftmost ← reaches fuel h t.leftmost p
    dropping_rightmost ← reaches fuel h t.rightmost p
    n ← load h p
    h' ← elim n.parent [
      | none ↦ ok h
      | some parent ↦ do (removed, h') ← remove_child h parent n.sibling_index; ok h'
    ]
    (h'', nodes') ← delete_subtree_nodes fuel p (h', t.nodes)
    ok (
      h'',
      record t {
        nodes = nodes';
        leftmost = if dropping_leftmost then n.parent else t.leftmost;
        rightmost = if dropping_rightmost then n.parent else t.rightmost;
      },
    )

  unfoldable pub move_subtree : ℕ → Heap T → UnsafeTree → Ptr → Ptr → Result (Heap T × UnsafeTree)
  move_subtree fuel h t destination p = do
    dropping_leftmost ← reaches fuel h t.leftmost p
    dropping_rightmost ← reaches fuel h t.rightmost p
    let updating_leftmost = would_change_leftmost t destination
    updating_rightmost ← would_change_rightmost fuel h t destination
    n ← load h p
    parent ← of_option n.parent
    (removed, h') ← remove_child h parent n.sibling_index
    h'' ← insert_child h' destination p
    first ←
        moved_extremum dropping_leftmost updating_leftmost (leftmost_child_or_this fuel h'')
          destination parent t.leftmost
    last ←
        moved_extremum dropping_rightmost updating_rightmost (rightmost_child_or_this fuel h'')
          destination parent t.rightmost
    ok (h'', record t { leftmost = first; rightmost = last })
