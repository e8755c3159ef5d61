-- ===== src/Tree/Unsafe/Initializer.antt =====
-- cpptools/container/tree/unsafe_tree.hpp: the struct `initializer`, `_copy_fill_from_init`, and the
-- constructor from an initializer. `_move_fill_from_init` differs in how it makes the values only.
pub mod Fill
use cpp_tools.Base.{ℕ, suc, none, some}
use cpp_tools.Base.Result.{Result, ok, ◌>>=◌}
use cpp_tools.Tree.Store.{Ptr, Heap}
use cpp_tools.Tree.Unsafe.{UnsafeTree, empty_tree, emplace_node}
use cpp_tools.Tree.Unsafe.Copy.{Building}

-- A vector of initializers: the value of the first one and its children, then the others.
pub data Initializers {ℓ} (T : Type ℓ) : Type ℓ where
  no_more : Initializers T
  initializer : T → Initializers T → Initializers T → Initializers T

module _ {ℓ} {T : Type ℓ} (fresh : ℕ → Ptr) (fuel : ℕ) where
  abbrev pub next_node : Heap T × UnsafeTree → ℕ → Building T
  next_node made calls = record { calls = suc calls; heap = made.0; tree = made.1 }

  -- A call for no children does nothing, so that the test for them is left out.
  unfoldable pub fill_from_init : Ptr → Initializers T → Building T → Result (Building T)
  fill_from_init dest no_more b = ok b
  fill_from_init dest (initializer value children others) b = do
    let new_node = fresh b.calls
    made ← emplace_node fuel b.heap b.tree (some dest) new_node value
    b' ← fill_from_init new_node children (next_node made b.calls)
    fill_from_init dest others b'

  -- The constructor, from one initializer.
  unfoldable pub from_initializer : Heap T → T → Initializers T → Result (Building T)
  unfolding fill_from_init
  from_initializer h value children = do
    made ← emplace_node fuel h empty_tree empty_tree.root (fresh 0) value
    fill_from_init (fresh 0) children (next_node made 0)
