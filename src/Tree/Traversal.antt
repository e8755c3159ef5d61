-- ===== src/Tree/Traversal.antt =====
-- cpptools/container/tree/traversal.hpp: the next and the previous node of a traversal, and the
-- loop of an iterator over them. `none` is the null pointer, the position past the end.
pub mod Visits
pub mod Siblings
pub mod Climb
pub mod Preorder
pub mod Postorder
pub mod PreorderBack
pub mod PostorderBack
use cpp_tools.Base.{
  ℕ, zero, suc, Bool, true, false, List, [], ◌∷◌, Option, none, some, if◌then◌else◌,
}
use cpp_tools.Base.Result.{Result, ok, fault, out_of_fuel, ◌>>=◌, of_option}
use cpp_tools.Tree.Store.{Ptr, Heap, load}
use cpp_tools.Tree.Node.{
  last?, is_leftmost_sibling, is_rightmost_sibling, left_sibling, right_sibling,
  leftmost_child_or_this, rightmost_child_or_this,
}

module _ {ℓ} {T : Type ℓ} where
  -- `while (top->parent() && test(top)) top = top->parent();`
  unfoldable pub climb : (Heap T → Ptr → Result Bool) → ℕ → Heap T → Ptr → Result Ptr
  climb test zero h top = out_of_fuel
  climb test (suc k) h top = do
    n ← load h top
    elim n.parent [
      | none ↦ ok top
      | some q ↦ do more ← test h top; elim more [ true ↦ climb test k h q | false ↦ ok top ]
    ]

  -- The loop, and the sibling of the node at which it stops.
  unfoldable pub beyond :
      (Heap T → Ptr → Result Bool)
      → (Heap T → Ptr → Result Ptr)
      → ℕ
      → Heap T
      → Ptr
      → Result (Option Ptr)
  unfolding climb
  beyond test sibling fuel h p = do
    top ← climb test fuel h p
    n ← load h top
    elim n.parent [ none ↦ ok none | some q ↦ do s ← sibling h top; ok (some s) ]

  unfoldable pub pre_next : ℕ → Heap T → Ptr → Result (Option Ptr)
  unfolding beyond
  pre_next fuel h p = do
    n ← load h p
    elim n.children [
      | c ∷ cs ↦ ok (some c)
      | [] ↦ elim n.parent [
        | none ↦ ok none
        | some q ↦ do
          last ← is_rightmost_sibling h p
          elim last [
            | false ↦ do s ← right_sibling h p; ok (some s)
            | true ↦ beyond is_rightmost_sibling right_sibling fuel h q
          ]
      ]
    ]

  unfoldable pub pre_previous : ℕ → Heap T → Ptr → Result (Option Ptr)
  pre_previous fuel h p = do
    n ← load h p
    elim n.parent [
      | none ↦ ok none
      | some q ↦ do
        first ← is_leftmost_sibling h p
        elim first [
          | false ↦ do s ← left_sibling h p; e ← rightmost_child_or_this fuel h s; ok (some e)
          | true ↦ ok (some q)
        ]
    ]

  unfoldable pub post_next : ℕ → Heap T → Ptr → Result (Option Ptr)
  post_next fuel h p = do
    n ← load h p
    elim n.parent [
      | none ↦ ok none
      | some q ↦ do
        last ← is_rightmost_sibling h p
        elim last [
          | false ↦ do s ← right_sibling h p; e ← leftmost_child_or_this fuel h s; ok (some e)
          | true ↦ ok (some q)
        ]
    ]

  unfoldable pub post_previous : ℕ → Heap T → Ptr → Result (Option Ptr)
  unfolding beyond
  post_previous fuel h p = do
    n ← load h p
    elim (last? n.children) [
      | some c ↦ ok (some c)
      | none ↦ elim n.parent [
        | none ↦ ok none
        | some q ↦ do
          first ← is_leftmost_sibling h p
          elim first [
            | false ↦ do s ← left_sibling h p; ok (some s)
            | true ↦ beyond is_leftmost_sibling left_sibling fuel h q
          ]
      ]
    ]

-- `for (it = begin; it != end; ++it)`, with the nodes that it meets.
unfoldable pub visit : ℕ → (Ptr → Result (Option Ptr)) → Option Ptr → Result (List Ptr)
visit fuel step none = ok []
visit zero step (some p) = out_of_fuel
visit (suc k) step (some p) = do q ← step p; ps ← visit k step q; ok (p ∷ ps)
