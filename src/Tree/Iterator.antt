-- ===== src/Tree/Iterator.antt =====
-- cpptools/container/tree/traversal.hpp: the iterators, which hold a tree and a node, and the loops
-- from `begin()` to `end()` and from `rbegin()` to `rend()`.
pub mod Forward
pub mod Reverse
pub mod Inverse
use cpp_tools.Base.{ℕ, zero, suc, Bool, true, false, List, [], ◌∷◌, Option, none, some, ◌==◌}
use cpp_tools.Base.Result.{Result, ok, fault, out_of_fuel, ◌>>=◌, of_option}
use cpp_tools.Tree.Store.{Ptr, Heap}
use cpp_tools.Tree.Unsafe.{UnsafeTree}
use cpp_tools.Tree.Traversal.{pre_next, post_next, pre_previous, post_previous}
use cpp_tools.Tree.Traversal.{visit}

pub data Order : Type 0 where
  pre post : Order

module _ {ℓ} {T : Type ℓ} where
  unfoldable pub dfs_next : Order → ℕ → Heap T → Ptr → Result (Option Ptr)
  dfs_next pre fuel h p = pre_next fuel h p
  dfs_next post fuel h p = post_next fuel h p

  unfoldable pub dfs_previous : Order → ℕ → Heap T → Ptr → Result (Option Ptr)
  dfs_previous pre fuel h p = pre_previous fuel h p
  dfs_previous post fuel h p = post_previous fuel h p

unfoldable pub dfs_begin : Order → UnsafeTree → Option Ptr
dfs_begin pre t = t.root
dfs_begin post t = t.leftmost

unfoldable pub dfs_last : Order → UnsafeTree → Option Ptr
dfs_last pre t = t.rightmost
dfs_last post t = t.root

unfoldable pub dfs_end : Order → UnsafeTree → Option Ptr
dfs_end o t = none

module _ {ℓ} {T : Type ℓ} where
  -- `operator++` and `operator--`, on the node of an iterator; past the end it is null.
  unfoldable pub increment : Order → ℕ → Heap T → Option Ptr → Result (Option Ptr)
  increment o fuel h it = do p ← of_option it; dfs_next o fuel h p

  unfoldable pub decrement : Order → ℕ → Heap T → UnsafeTree → Option Ptr → Result (Option Ptr)
  decrement o fuel h t none = ok (dfs_last o t)
  decrement o fuel h t (some p) = dfs_previous o fuel h p

  -- `for (auto p : dfs<O>(t))`
  unfoldable pub traverse : Order → ℕ → ℕ → Heap T → UnsafeTree → Result (List Ptr)
  traverse o rounds fuel h t = visit rounds (dfs_next o fuel h) (dfs_begin o t)

-- Comparison of two pointers that may be null.
abbrev pub same : Option Ptr → Option Ptr → Bool
same none none = true
same none (some q) = false
same (some p) none = false
same (some p) (some q) = p == q

-- The loop over a `std::reverse_iterator`: step back, then look, until `begin` is reached.
unfoldable pub rewind :
    ℕ → (Option Ptr → Result (Option Ptr)) → Option Ptr → Option Ptr → Result (List Ptr)
rewind zero step begin it = elim (same it begin) [ true ↦ ok [] | false ↦ out_of_fuel ]
rewind (suc k) step begin it = elim (same it begin) [
  | true ↦ ok []
  | false ↦ do it' ← step it; p ← of_option it'; ps ← rewind k step begin it'; ok (p ∷ ps)
]

module _ {ℓ} {T : Type ℓ} where
  -- `for (auto p : reverse_dfs<O>(t))`
  unfoldable pub traverse_back : Order → ℕ → ℕ → Heap T → UnsafeTree → Result (List Ptr)
  traverse_back o rounds fuel h t =
      rewind rounds (decrement o fuel h t) (dfs_begin o t) (dfs_end o t)
