-- ===== src/Tree/Node.antt =====
-- cpptools/container/tree/node.hpp: the member functions of `node`. A pointer that is null or leads
-- to no node, and an index out of range, are faults. Loops along a branch run on fuel.
pub mod Descend
pub mod Merge
use cpp_tools.Base.{
  ℕ, zero, suc, ◌+◌, ◌-◌, ◌^◌, Bool, true, false, List, [], ◌∷◌, ◌++◌, Option, none, some, ◌==◌,
  length, get_elem?, drop,
}
use cpp_tools.Base.Result.{Result, ok, fault, out_of_fuel, ◌>>=◌, of_option}
use cpp_tools.Tree.Store.{Ptr, Node, node, Heap, write, load}

module _ {ℓ} {A : Type ℓ} where
  -- `back()` of a vector, if there is one.
  abbrev pub last? : List A → Option A
  last? [] = none
  last? (x ∷ []) = some x
  last? (x ∷ y ∷ xs) = last? (y ∷ xs)

  -- `erase(begin() + i)`.
  abbrev pub erase_at : List A → ℕ → List A
  erase_at [] i = []
  erase_at (x ∷ xs) zero = xs
  erase_at (x ∷ xs) (suc i) = x ∷ erase_at xs i

-- `--i` on a `size_t`.
abbrev pub decrement : ℕ → ℕ
decrement zero = 2 ^ 64 - 1
decrement (suc i) = i

module _ {ℓ} {T : Type ℓ} where
  -- What the constructor leaves.
  abbrev pub make : T → Node T
  make v = node v none 0 []

  unfoldable pub leftmost_child_or_this : ℕ → Heap T → Ptr → Result Ptr
  leftmost_child_or_this zero h p = out_of_fuel
  leftmost_child_or_this (suc k) h p = do
    n ← load h p
    elim n.children [ [] ↦ ok p | c ∷ cs ↦ leftmost_child_or_this k h c ]

  unfoldable pub rightmost_child_or_this : ℕ → Heap T → Ptr → Result Ptr
  rightmost_child_or_this zero h p = out_of_fuel
  rightmost_child_or_this (suc k) h p = do
    n ← load h p
    elim (last? n.children) [ none ↦ ok p | some c ↦ rightmost_child_or_this k h c ]

  -- `_parent->_children[_sibling_index - 1]`
  unfoldable pub left_sibling : Heap T → Ptr → Result Ptr
  left_sibling h p = do
    n ← load h p
    q ← of_option n.parent
    m ← load h q
    of_option (get_elem? m.children (decrement n.sibling_index))

  unfoldable pub right_sibling : Heap T → Ptr → Result Ptr
  right_sibling h p = do
    n ← load h p
    q ← of_option n.parent
    m ← load h q
    of_option (get_elem? m.children (n.sibling_index + 1))

  unfoldable pub is_leftmost_sibling : Heap T → Ptr → Result Bool
  is_leftmost_sibling h p = do n ← load h p; ok (n.sibling_index == 0)

  -- The `1` of `size() - 1` stands on the other side: the size of a vector is no `SIZE_MAX + 1`.
  unfoldable pub is_rightmost_sibling : Heap T → Ptr → Result Bool
  is_rightmost_sibling h p = do
    n ← load h p
    q ← of_option n.parent
    m ← load h q
    ok (n.sibling_index + 1 == length m.children)

  unfoldable pub insert_child : Heap T → Ptr → Ptr → Result (Heap T)
  insert_child h this child = do
    n ← load h this
    let children' = n.children ++ child ∷ []
    let h' = write h this (some (record n { children = children' }))
    m ← load h' child
    let linked = record m { parent = some this; sibling_index = length children' - 1 }
    ok (write h' child (some linked))

  -- The loop over the right siblings of a removed child.
  unfoldable pub shift_left : Heap T → List Ptr → Result (Heap T)
  shift_left h [] = ok h
  shift_left h (c ∷ cs) = do
    n ← load h c
    shift_left (write h c (some (record n { sibling_index = decrement n.sibling_index }))) cs

  unfoldable pub remove_child : Heap T → Ptr → ℕ → Result (Ptr × Heap T)
  unfolding shift_left
  remove_child h this index = do
    n ← load h this
    removed ← of_option (get_elem? n.children index)
    let children' = erase_at n.children index
    let h' = write h this (some (record n { children = children' }))
    h'' ← shift_left h' (drop index children')
    ok (removed, h'')

  -- The loop of `has_parent`, from the parent on.
  unfoldable pub climbs_to : ℕ → Heap T → Option Ptr → Ptr → Result Bool
  climbs_to zero h q n = out_of_fuel
  climbs_to (suc k) h none n = ok false
  climbs_to (suc k) h (some q) n = elim (q == n) [
    | true ↦ ok true
    | false ↦ do m ← load h q; climbs_to k h m.parent n
  ]

  unfoldable pub has_parent : ℕ → Heap T → Ptr → Ptr → Result Bool
  unfolding climbs_to
  has_parent fuel h p n = do m ← load h p; climbs_to fuel h m.parent n

  unfoldable pub clear_parent_metadata : Heap T → Ptr → Result (Heap T)
  clear_parent_metadata h p = do
    n ← load h p
    ok (write h p (some (record n { parent = none; sibling_index = 0 })))

  -- `release_children`: the vector is moved out, and left empty.
  unfoldable pub release_children : Heap T → Ptr → Result (List Ptr × Heap T)
  release_children h p = do
    n ← load h p
    ok (n.children, write h p (some (record n { children = [] })))
