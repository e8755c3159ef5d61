-- ===== src/Tree/Unsafe/Equality.antt =====
-- cpptools/container/tree/unsafe_tree.hpp: `operator==` and the walk `_subtrees_equal` over two trees at
-- once. The comparison of values is an argument.
pub mod Walk
pub mod Whole
use cpp_tools.Base.{
  ℕ, zero, suc, Bool, true, false, not, List, [], ◌∷◌, none, some, ◌==◌, if◌then◌else◌, length,
  get_elem?,
}
use cpp_tools.Base.Result.{Result, ok, fault, out_of_fuel, ◌>>=◌, of_option}
use cpp_tools.Tree.Store.{Ptr, Heap, load}
use cpp_tools.Tree.Node.{is_rightmost_sibling, right_sibling}
use cpp_tools.Tree.Unsafe.{UnsafeTree, size, is_empty}

-- `node_stack`, its top first.
abbrev pub Stack : Type 0
Stack = List (Ptr × Ptr)

module _ {ℓ} {T : Type ℓ} (h : Heap T) where
  -- "unstack to a non-rightmost node"
  unfoldable pub unstack : Stack → Ptr → Ptr → Result (Stack × Ptr × Ptr)
  unstack [] this other = ok ([], this, other)
  unstack ((left, right) ∷ stack) this other = do
    let up = unstack stack left right
    n ← load h this
    elim n.parent [
      | none ↦ ok ((left, right) ∷ stack, this, other)
      | some q ↦ do
        last ← is_rightmost_sibling h this
        elim last [ true ↦ up | false ↦ ok ((left, right) ∷ stack, this, other) ]
    ]

  -- Behind a pair of leaves: the right siblings, or the end of the walk on an empty stack.
  abbrev pub visit_right : (Stack → Ptr → Ptr → Result Bool) → Stack × Ptr × Ptr → Result Bool
  visit_right again ([], this, other) = ok true
  visit_right again (pair ∷ stack, this, other) = do
    this' ← right_sibling h this
    other' ← right_sibling h other
    again (pair ∷ stack) this' other'

module _ {ℓ} {T : Type ℓ} (eq : T → T → Bool) (h : Heap T) where
  unfoldable pub walk_equal : ℕ → Stack → Ptr → Ptr → Result Bool
  unfolding unstack
  walk_equal zero stack this other = out_of_fuel
  walk_equal (suc k) stack this other = do
    n ← load h this
    m ← load h other
    elim (length n.children == length m.children) [
      | false ↦ ok false
      | true ↦ elim (eq n.value m.value) [
        | false ↦ ok false
        | true ↦ elim n.children [
          | c ∷ cs ↦ do
            d ← of_option (get_elem? m.children 0)
            walk_equal k ((this, other) ∷ stack) c d
          | [] ↦ do next ← unstack h stack this other; visit_right h (walk_equal k) next
        ]
      ]
    ]

  unfoldable pub subtrees_equal : ℕ → Ptr → Ptr → Result Bool
  unfolding walk_equal
  subtrees_equal fuel left right = walk_equal fuel [] left right

  -- `operator==`; `same` tells whether the two are one object.
  unfoldable pub trees_equal : ℕ → Bool → UnsafeTree → UnsafeTree → Result Bool
  unfolding subtrees_equal
  trees_equal fuel same t other =
      if same
      then ok true
      else if not (size t == size other)
      then ok false
      else if is_empty t
      then ok true
      else do left ← of_option t.root; right ← of_option other.root; subtrees_equal fuel left right
