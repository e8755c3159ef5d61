-- ===== src/Tree/Unsafe/MoveAssign.antt =====
-- cpptools/container/tree/unsafe_tree.hpp: `_move_assign_contents`, which rebuilds the tree of another
-- allocator node by node. `fresh i` is what the allocator returns at the i-th call, from 0 on. The value
-- that a move leaves behind is the one it was, since the old nodes are destroyed unread.
pub mod Fault
use cpp_tools.Base.{
  ℕ, zero, suc, Bool, true, false, List, [], ◌∷◌, Option, none, some, ◌==◌, length, get_elem?,
}
use cpp_tools.Base.Result.{Result, ok, fault, out_of_fuel, ◌>>=◌, of_option}
use cpp_tools.Tree.Store.{Ptr, Heap, load}
use cpp_tools.Tree.Node.{
  insert_child, right_sibling, leftmost_child_or_this, rightmost_child_or_this,
}
use cpp_tools.Tree.Unsafe.{UnsafeTree, make_node, release}
use cpp_tools.Tree.Unsafe.Equality.{Stack, unstack}

module _ {ℓ} {T : Type ℓ} (fresh : ℕ → Ptr) where
  -- The `do` loop, at a node of the other tree, with the node under which its copy goes.
  unfoldable pub rebuild :
      ℕ → ℕ → Heap T → UnsafeTree → Stack → Ptr → Ptr → Result (Heap T × UnsafeTree)
  unfolding make_node
  rebuild zero i h t stack parent other = out_of_fuel
  rebuild (suc k) i h t stack parent other = do
    m ← load h other
    let (h', t') = make_node h t (fresh i) m.value
    h'' ← insert_child h' parent (fresh i)
    elim m.children [
      | c ∷ cs ↦ do
        n ← load h'' (fresh i)
        this ← of_option (get_elem? n.children 0)
        rebuild k (suc i) h'' t' ((fresh i, other) ∷ stack) (fresh i) c
      | [] ↦ do
        next ← unstack h'' stack (fresh i) other
        elim next.0 [
          | [] ↦ ok (h'', t')
          | pair ∷ stack' ↦ do
            this ← right_sibling h'' next.1
            other' ← right_sibling h'' next.2
            rebuild k (suc i) h'' t' (pair ∷ stack') (fresh i) other'
        ]
    ]

  -- This tree, and the other one.
  unfoldable pub move_assign_contents :
      ℕ → Heap T → UnsafeTree → UnsafeTree → Result (Heap T × UnsafeTree × UnsafeTree)
  unfolding make_node rebuild release
  move_assign_contents fuel h t other = do
    o ← of_option other.root
    m ← load h o
    let root = fresh 0
    let (h', t') = make_node h t root m.value
    elim m.children [
      | [] ↦ ok (
        release h' other.nodes,
        record t' { root = some root; leftmost = some root; rightmost = some root },
        record other { nodes = [] },
      )
      | c ∷ cs ↦ do
        (h'', t'') ← rebuild fuel 1 h' t' ((root, o) ∷ []) root c
        n ← load h'' root
        first ← of_option (get_elem? n.children 0)
        leftmost' ← leftmost_child_or_this fuel h'' first
        last ← of_option (get_elem? n.children (length m.children))
        rightmost' ← rightmost_child_or_this fuel h'' last
        ok (
          release h'' other.nodes,
          record t'' { root = some root; leftmost = some leftmost'; rightmost = some rightmost' },
          record other { nodes = [] },
        )
    ]
