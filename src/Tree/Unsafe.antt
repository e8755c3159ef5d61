-- ===== src/Tree/Unsafe.antt =====
-- cpptools/container/tree/unsafe_tree.hpp: a tree over nodes on the heap. Two trees may share a
-- heap; `nodes` are the addresses that this tree owns, in no order that matters. What the allocator
-- returns is an argument `fresh`.
pub mod Model
pub mod Grafted
pub mod Emplace
pub mod Place
pub mod Clear
pub mod Equality
pub mod Owned
pub mod Subtree
pub mod MoveAssign
pub mod Copy
pub mod Initializer
pub mod Merge
mod Tests
use cpp_tools.Base.{
  ℕ, zero, suc, ◌+◌, Bool, true, false, ◌||◌, List, [], ◌∷◌, ◌++◌, Option, none, some, ◌==◌, ◌≡◌,
  if◌then◌else◌, length,
}
use cpp_tools.Base.Result.{Result, ok, fault, out_of_fuel, ◌>>=◌, of_option}
use cpp_tools.Tree.Store.{Ptr, Node, node, Heap, load, write}
use cpp_tools.Tree.Node.{
  make, insert_child, remove_child, has_parent, leftmost_child_or_this, rightmost_child_or_this,
  release_children, clear_parent_metadata,
}

pub record UnsafeTree : Type 0 where
  pub nodes : List Ptr
  pub root : Option Ptr
  pub leftmost : Option Ptr
  pub rightmost : Option Ptr

-- Comparison of a pointer that is not null with one that may be.
abbrev pub is_at : Ptr → Option Ptr → Bool
is_at p none = false
is_at p (some q) = p == q

abbrev pub empty_tree : UnsafeTree
empty_tree = record { nodes = []; root = none; leftmost = none; rightmost = none }

unfoldable pub size : UnsafeTree → ℕ
size t = length t.nodes

unfoldable pub is_empty : UnsafeTree → Bool
is_empty t = elim t.nodes [ [] ↦ true | p ∷ ps ↦ false ]

unfoldable pub would_change_leftmost : UnsafeTree → Ptr → Bool
would_change_leftmost t p = is_at p t.leftmost

-- `_nodes.erase(n)`
abbrev pub disown : Ptr → List Ptr → List Ptr
disown a [] = []
disown a (x ∷ xs) = let rest = disown a xs in if a == x then xs else x ∷ rest

module _ {ℓ} {T : Type ℓ} where
  -- The nodes are destroyed with the pointers that own them.
  unfoldable pub release : Heap T → List Ptr → Heap T
  release h [] = h
  release h (p ∷ ps) = release (write h p none) ps

  unfoldable pub clear : Heap T → UnsafeTree → Heap T × UnsafeTree
  unfolding release
  clear h t = (release h t.nodes, empty_tree)

  unfoldable pub make_node : Heap T → UnsafeTree → Ptr → T → Heap T × UnsafeTree
  make_node h t fresh v = (write h fresh (some (make v)), record t { nodes = fresh ∷ t.nodes })

  unfoldable pub would_change_rightmost : ℕ → Heap T → UnsafeTree → Ptr → Result Bool
  would_change_rightmost fuel h t p =
      if is_at p t.rightmost then ok true else do r ← of_option t.rightmost; has_parent fuel h r p

  -- `emplace_node`, below a node.
  unfoldable pub emplace_below :
      ℕ → Heap T → UnsafeTree → Ptr → Ptr → T → Result (Heap T × UnsafeTree)
  unfolding make_node would_change_leftmost
  emplace_below fuel h t p fresh v = do
    let (h', t') = make_node h t fresh v
    let first = would_change_leftmost t' p
    last ← would_change_rightmost fuel h' t' p
    h'' ← insert_child h' p fresh
    ok (
      h'',
      record t' {
        leftmost = if first then some fresh else t'.leftmost;
        rightmost = if last then some fresh else t'.rightmost;
      },
    )

  -- `emplace_node(nullptr, …)`: the new node becomes the root, above the old one if there is one.
  unfoldable pub emplace_root : Heap T → UnsafeTree → Ptr → T → Result (Heap T × UnsafeTree)
  unfolding make_node
  emplace_root h t fresh v =
      let (h', t') = make_node h t fresh v in
      elim t.root [
        | none ↦
            ok (h', record t' { root = some fresh; leftmost = some fresh; rightmost = some fresh })
        | some old ↦ do h'' ← insert_child h' fresh old; ok (h'', record t' { root = some fresh })
      ]

  unfoldable pub emplace_node :
      ℕ → Heap T → UnsafeTree → Option Ptr → Ptr → T → Result (Heap T × UnsafeTree)
  unfolding emplace_root emplace_below
  emplace_node fuel h t none fresh v = emplace_root h t fresh v
  emplace_node fuel h t (some p) fresh v = emplace_below fuel h t p fresh v
