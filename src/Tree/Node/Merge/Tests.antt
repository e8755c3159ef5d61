-- ===== src/Tree/Node/Merge/Tests.antt =====
-- A node with three children, the second of which has two, through `merge_child`.
use cpp_tools.Base.{ℕ, ◌==◌, if◌then◌else◌, [], ◌∷◌, Option, none, some, ◌≡◌, refl, arith}
use cpp_tools.Base.Result.{Result, ok, ◌>>=◌}
use cpp_tools.Tree.Store.{Ptr, Node, node, Heap, load, write}
use cpp_tools.Tree.Forest.{Forest, nil, tree, times, Holds}
use cpp_tools.Tree.Node.{release_children}
use cpp_tools.Tree.Node.Merge.{
  adopt, adopt_in_place, make_room, pointers, renumber, merge_child, keep, replace,
}
use cpp_tools.Tree.Node.Merge.Whole.{merge_child-splice}

-- Root 1; its children 2, 3 and 4; 5 and 6 below 3.
abbrev leaf : ℕ → ℕ → Option (Node ℕ)
leaf q i = some (node 7 (some q) i [])

abbrev cells : Heap ℕ
cells a =
    if a == 1
    then some (node 10 none 0 (2 ∷ 3 ∷ 4 ∷ []))
    else if a == 2
    then leaf 1 0
    else if a == 3
    then some (node 30 (some 1) 1 (5 ∷ 6 ∷ []))
    else if a == 4
    then leaf 1 2
    else if a == 5
    then leaf 3 0
    else if a == 6
    then leaf 3 1
    else none

abbrev one : Ptr → Forest ℕ → Forest ℕ
one p rest = tree p 7 nil rest

abbrev pair : Forest ℕ
pair = one 5 (one 6 nil)

look : Ptr → Heap ℕ → Result (Node ℕ)
look p h = load h p

children_spliced :
    (merge_child replace cells 1 1 >>= look 1) ≡ ok (node 30 none 0 (2 ∷ 5 ∷ 6 ∷ 4 ∷ []))
unfolding merge_child release_children load adopt_in_place adopt make_room pointers renumber look
    write
children_spliced = refl

right_renumbered : (merge_child keep cells 1 1 >>= look 4) ≡ ok (node 7 (some 1) 3 [])
unfolding merge_child release_children load adopt_in_place adopt make_room pointers renumber look
    write
right_renumbered = refl

leaf_dropped : (merge_child keep cells 1 0 >>= look 1) ≡ ok (node 10 none 0 (3 ∷ 4 ∷ []))
unfolding merge_child release_children load adopt_in_place adopt make_room pointers renumber look
    write
leaf_dropped = refl

merge_child-splice_example :
    (h : Heap ℕ) × (merge_child replace cells 1 1 ≡ ok h)
    × Holds h none 0 (tree 1 30 (one 2 (one 5 (one 6 (one 4 nil)))) nil)
    × ((a : Ptr) → times a (tree 1 10 (one 2 (tree 3 30 pair (one 4 nil))) nil) ≡ 0 → h a ≡ cells a)
merge_child-splice_example =
    merge_child-splice replace cells none 0 1 10 (one 2 nil) 3 30 pair (one 4 nil)
      (refl, (refl, tt, (refl, (refl, tt, (refl, tt, tt)), (refl, tt, tt))), tt) (λ a. ground arith)
