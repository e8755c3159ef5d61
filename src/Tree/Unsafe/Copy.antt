-- ===== src/Tree/Unsafe/Copy.antt =====
-- cpptools/container/tree/unsafe_tree.hpp: `_copy_children_recursive` and `_copy_assign_contents`. `fresh i`
-- is what the allocator returns at the i-th call, from 0 on.
pub mod Copied
pub mod Children
pub mod Loop
pub mod Whole
use cpp_tools.Base.{ℕ, zero, suc, List, [], ◌∷◌, Option, none, some}
use cpp_tools.Base.Result.{Result, ok, out_of_fuel, ◌>>=◌}
use cpp_tools.Tree.Store.{Ptr, Heap, load}
use cpp_tools.Tree.Node.{insert_child, leftmost_child_or_this, rightmost_child_or_this}
use cpp_tools.Tree.Unsafe.{UnsafeTree, make_node, clear}
use cpp_tools.Tree.Unsafe.Subtree.{for_each}

-- The heap and the tree while nodes are made, with the calls of the allocator so far.
pub record Building {ℓ} (T : Type ℓ) : Type ℓ where
  pub calls : ℕ
  pub heap : Heap T
  pub tree : UnsafeTree

module _ {ℓ} {T : Type ℓ} (fresh : ℕ → Ptr) where
  -- The body of the loop: one child, and its own children where it has any.
  unfoldable pub copy_child :
      (Ptr → Ptr → Building T → Result (Building T)) → Ptr → Ptr → Building T → Result (Building T)
  unfolding make_node
  copy_child again to child b = do
    m ← load b.heap child
    let copied = fresh b.calls
    let made = make_node b.heap b.tree copied m.value
    h ← insert_child made.0 to copied
    let b' : Building T = record { calls = suc b.calls; heap = h; tree = made.1 }
    n ← load h child
    elim n.children [ [] ↦ ok b' | c ∷ cs ↦ again child copied b' ]

  unfoldable pub copy_children : ℕ → Ptr → Ptr → Building T → Result (Building T)
  unfolding copy_child
  copy_children zero from to b = out_of_fuel
  copy_children (suc k) from to b = do
    n ← load b.heap from
    for_each (copy_child (copy_children k) to) n.children b

  -- The children of a root, if it has any.
  abbrev pub copy_below : ℕ → Ptr → Ptr → List Ptr → Building T → Result (Building T)
  copy_below fuel from to [] b = ok b
  copy_below fuel from to (c ∷ cs) b = copy_children fuel from to b

  unfoldable pub copy_assign_contents :
      ℕ → Heap T → UnsafeTree → Option Ptr → Result (Heap T × UnsafeTree)
  unfolding make_node clear copy_children
  copy_assign_contents fuel h t none = ok (clear h t)
  copy_assign_contents fuel h t (some from) = do
    let cleared = clear h t
    n ← load cleared.0 from
    let root = fresh 0
    let made = make_node cleared.0 cleared.1 root n.value
    m ← load made.0 from
    b ← copy_below fuel from root m.children (record { calls = 1; heap = made.0; tree = made.1 })
    leftmost' ← leftmost_child_or_this fuel b.heap root
    rightmost' ← rightmost_child_or_this fuel b.heap root
    ok (
      b.heap,
      record b.tree { root = some root; leftmost = some leftmost'; rightmost = some rightmost' },
    )
