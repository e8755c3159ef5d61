-- ===== src/Tree/Node/Merge.antt =====
-- cpptools/container/tree/node.hpp: `merge_child`, and the strategies `keep` and `replace` of
-- cpptools/utility/merge_strategy.hpp. A strategy is the function that gives the new value of the
-- node from its value and that of the child. The moved value of the child stays as it is.
pub mod Slots
pub mod Renumber
pub mod Splice
pub mod Steps
pub mod Whole
mod Tests
use cpp_tools.Base.{
  ℕ, zero, suc, ◌+◌, ◌-◌, ◌&&◌, List, [], ◌∷◌, Option, none, some, ◌==◌, if◌then◌else◌, ltb, length,
  get_elem?, set, take, drop, map,
}
use cpp_tools.Base.Result.{Result, ok, fault, out_of_fuel, ◌>>=◌, of_option}
use cpp_tools.Tree.Store.{Ptr, Node, Heap, write, load}
use cpp_tools.Tree.Node.{erase_at, release_children}

-- A vector of pointers while some of them are null.
abbrev pub Slots : Type 0
Slots = List (Option Ptr)

-- `resize(n, nullptr)`
abbrev pub resize : Slots → ℕ → Slots
resize [] zero = []
resize [] (suc n) = none ∷ resize [] n
resize (x ∷ xs) zero = []
resize (x ∷ xs) (suc n) = x ∷ resize xs n

-- A range written into a vector from an index on.
abbrev pub overwrite : Slots → ℕ → Slots → Slots
overwrite [] i ys = []
overwrite (x ∷ xs) zero [] = x ∷ xs
overwrite (x ∷ xs) zero (y ∷ ys) = y ∷ overwrite xs zero ys
overwrite (x ∷ xs) (suc i) ys = x ∷ overwrite xs i ys

-- The call of `std::copy_backward`, whose two ranges may overlap.
unfoldable pub make_room : Slots → ℕ → ℕ → ℕ → Slots
make_room slots merge_index right_sibling_count adopted_count =
    if ltb 0 right_sibling_count && ltb 1 adopted_count
    then overwrite slots (length slots - right_sibling_count)
        (take right_sibling_count (drop (suc merge_index) slots))
    else slots

-- The vector once no pointer of it is null.
unfoldable pub pointers : Slots → Result (List Ptr)
pointers [] = ok []
pointers (none ∷ xs) = fault
pointers (some p ∷ xs) = do ps ← pointers xs; ok (p ∷ ps)

module _ {ℓ} {T : Type ℓ} where
  abbrev pub keep : T → T → T
  keep original other = original

  abbrev pub replace : T → T → T
  replace original other = other

  -- The loop over the children of the child.
  unfoldable pub adopt : Ptr → List Ptr → Heap T → Slots → ℕ → Result (Heap T × Slots)
  adopt this [] h slots i = ok (h, slots)
  adopt this (c ∷ cs) h slots i = do
    m ← load h c
    old ← of_option (get_elem? slots i)
    adopt this cs (write h c (some (record m { parent = some this }))) (set slots i (some c))
        (suc i)

  -- The two branches that take the child out of the vector. The subtractions are of numbers that are
  -- no greater, for a child that knows its index.
  unfoldable pub adopt_in_place :
      Heap T → Ptr → ℕ → ℕ → List Ptr → List Ptr → Result (Heap T × List Ptr)
  unfolding adopt make_room pointers
  adopt_in_place h this merge_index sibling_index [] children =
      ok (h, erase_at children merge_index)
  adopt_in_place h this merge_index sibling_index (c ∷ cs) children = do
    let right_sibling_count = length children - 1 - sibling_index
    let slots = resize (map some children) (length children + length cs)
    let room = make_room slots merge_index right_sibling_count (suc (length cs))
    (h', slots') ← adopt this (c ∷ cs) h room merge_index
    children' ← pointers slots'
    ok (h', children')

  -- The loop over the nodes whose index is outdated.
  unfoldable pub renumber : Heap T → List Ptr → ℕ → Result (Heap T)
  renumber h [] i = ok h
  renumber h (c ∷ cs) i = do
    m ← load h c
    renumber (write h c (some (record m { sibling_index = i }))) cs (suc i)

  unfoldable pub merge_child : (T → T → T) → Heap T → Ptr → ℕ → Result (Heap T)
  unfolding adopt_in_place renumber
  merge_child merge h this merge_index = do
    n ← load h this
    to_merge ← of_option (get_elem? n.children merge_index)
    (to_adopt, h1) ← release_children h to_merge
    n1 ← load h1 this
    m ← load h1 to_merge
    (h2, children') ← adopt_in_place h1 this merge_index m.sibling_index to_adopt n1.children
    n2 ← load h2 this
    let h3 = write h2 this (some (record n2 { children = children' }))
    let adopted_count = length to_adopt
    let start_offset = if merge_index == 0 then adopted_count else merge_index
    let end_offset = if adopted_count == 1 then merge_index + adopted_count else length children'
    h4 ← renumber h3 (take (end_offset - start_offset) (drop start_offset children')) start_offset
    n4 ← load h4 this
    m4 ← load h4 to_merge
    ok (write h4 this (some (record n4 { value = merge n4.value m4.value })))
