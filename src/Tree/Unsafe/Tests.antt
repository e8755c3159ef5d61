-- ===== src/Tree/Unsafe/Tests.antt =====
-- Two trees on one heap, and the theorems on subtrees and on whole trees at them.
use cpp_tools.Base.{ℕ, ◌+◌, false, [], ◌∷◌, none, some, ◌≡◌, refl, arith, ◌==◌, if◌then◌else◌}
use cpp_tools.Base.Result.{ok, fault}
use cpp_tools.Tree.Store.{Ptr, Node, node, Heap}
use cpp_tools.Tree.Forest.{Forest, nil, tree}
use cpp_tools.Tree.Unsafe.Equality.{trees_equal}
use cpp_tools.Tree.Unsafe.Equality.Whole.{trees_equal-same_forest}
use cpp_tools.Tree.Unsafe.Subtree.{adopt_subtree, chop_subtree, erase_subtree, move_subtree}
use cpp_tools.Tree.Unsafe.Subtree.Move.{move_subtree-Models}
use cpp_tools.Tree.Unsafe.Subtree.Parts.{chop_subtree-Models}
use cpp_tools.Tree.Unsafe.Subtree.Erase.{erase_subtree-Models}
use cpp_tools.Tree.Unsafe.Subtree.Adopt.{adopt_subtree-Models}
use cpp_tools.Tree.Unsafe.Copy.{copy_assign_contents}
use cpp_tools.Tree.Unsafe.Copy.Whole.{
  IsCopy, copy_assign_contents-IsCopy, copy_assign_contents_self,
}
use cpp_tools.Tree.Unsafe.Initializer.{Initializers, no_more, initializer, from_initializer}
use cpp_tools.Tree.Unsafe.Initializer.Fill.{from_initializer-Models}
use cpp_tools.Tree.Unsafe.MoveAssign.{move_assign_contents}
use cpp_tools.Tree.Node.Merge.{replace}
use cpp_tools.Tree.Unsafe.Merge.{merge_with_parent}
use cpp_tools.Tree.Unsafe.Merge.Whole.{merge_with_parent-Models}
use cpp_tools.Tree.Unsafe.MoveAssign.Fault.{move_assign_contents-fault}
use cpp_tools.Tree.Unsafe.{UnsafeTree, empty_tree}
use cpp_tools.Tree.Unsafe.Model.{Models}

-- 1 with the children 2 and 3, and 4 below 2; another tree at 7 and 8.
abbrev held_pair : Heap ℕ
held_pair = λ a.
    if a == 7
    then some (node 10 none 0 (8 ∷ []))
    else if a == 8
    then some (node 20 (some 7) 0 [])
    else if a == 1
    then some (node 10 none 0 (2 ∷ 3 ∷ []))
    else if a == 2
    then some (node 20 (some 1) 0 (4 ∷ []))
    else if a == 3
    then some (node 30 (some 1) 1 [])
    else if a == 4
    then some (node 40 (some 2) 0 [])
    else none

abbrev held_kids : Forest ℕ
held_kids = tree 2 20 (tree 4 40 nil nil) (tree 3 30 nil nil)

abbrev other_forest : Forest ℕ
other_forest = tree 7 10 (tree 8 20 nil nil) nil

abbrev whole : UnsafeTree
whole = record { nodes = 1 ∷ 2 ∷ 4 ∷ 3 ∷ []; root = some 1; leftmost = some 4; rightmost = some 3 }

abbrev other : UnsafeTree
other = record { nodes = 8 ∷ 7 ∷ []; root = some 7; leftmost = some 8; rightmost = some 8 }

whole-Models : Models held_pair whole (tree 1 10 held_kids nil)
whole-Models = record {
  held = (refl, (refl, (refl, tt, tt), (refl, tt, tt)), tt);
  distinct = λ a. ground arith;
  owned = λ a. ground arith;
  points = (refl, refl, refl);
}

other-Models : Models held_pair other other_forest
other-Models = record {
  held = (refl, (refl, tt, tt), tt);
  distinct = λ a. ground arith;
  owned = λ a. ground arith;
  points = (refl, refl, refl);
}

trees_equal-same_forest_example :
    trees_equal (λ a b. a == b) held_pair 4 false whole other ≡ ok false
trees_equal-same_forest_example =
    trees_equal-same_forest (λ a b. a == b) held_pair 4 false whole other (tree 1 10 held_kids nil)
      other_forest whole-Models other-Models (omega arith)

adopt_subtree-Models_example :
    (h : Heap ℕ) × (t : UnsafeTree) × (adopt_subtree 4 held_pair whole 3 other
      ≡ ok (h, t, empty_tree, 7))
    × Models h t (
        tree 1 10
          (tree 2 20 (tree 4 40 nil nil) (tree 3 30 (tree 7 10 (tree 8 20 nil nil) nil) nil))
          nil)
adopt_subtree-Models_example =
    adopt_subtree-Models 4 3 1 7 10 10 held_kids (tree 8 20 nil nil) whole-Models other-Models
      (λ a. ground arith) (omega arith) (omega arith) (omega arith)

move_assign_contents-fault_example :
    move_assign_contents (λ i. 20 + i) 5 held_pair empty_tree other ≡ fault
move_assign_contents-fault_example =
    move_assign_contents-fault (λ i. 20 + i) empty_tree 5 7 8 10 20 nil nil other-Models refl
      (λ e. omega (arith, e)) (omega arith)

chop_subtree-Models_example :
    (h : Heap ℕ) × (t : UnsafeTree) × (c : UnsafeTree) × (n : Node ℕ) × (parent : Ptr)
    × (chop_subtree 4 held_pair whole 2 ≡ ok (h, t, c))
    × Models h c (tree 2 20 (tree 4 40 nil nil) nil)
    × Models h
        (record t { leftmost = some 3; rightmost = some 3 })
        (tree 1 10 (tree 3 30 nil nil) nil)
    × (held_pair 2 ≡ some n)
    × (n.parent ≡ some parent)
    × (t.leftmost ≡ some parent)
    × (t.rightmost ≡ some 3)
chop_subtree-Models_example =
    chop_subtree-Models 4 2 1 10 held_kids whole-Models (omega arith) (omega arith)

erase_subtree-Models_example :
    (h : Heap ℕ) × (t : UnsafeTree) × (n : Node ℕ) × (parent : Ptr) × (erase_subtree 4 held_pair
        whole 2
      ≡ ok (h, t))
    × Models h
        (record t { leftmost = some 3; rightmost = some 3 })
        (tree 1 10 (tree 3 30 nil nil) nil)
    × (h 4 ≡ none)
    × (held_pair 2 ≡ some n)
    × (n.parent ≡ some parent)
    × (t.leftmost ≡ some parent)
    × (t.rightmost ≡ some 3)
erase_subtree-Models_example =
    erase_subtree-Models 4 2 4 1 10 held_kids whole-Models (omega arith) (omega arith) (omega arith)

move_subtree-Models_example :
    (h : Heap ℕ) × (t : UnsafeTree) × (move_subtree 5 held_pair whole 3 2 ≡ ok (h, t))
    × Models h t (tree 1 10 (tree 3 30 (tree 2 20 (tree 4 40 nil nil) nil) nil) nil)
move_subtree-Models_example =
    move_subtree-Models 5 2 3 1 10 held_kids whole-Models (omega arith) (omega arith) (omega arith)
      (omega arith)

copy_assign_contents-IsCopy_example :
    (h : Heap ℕ) × (t : UnsafeTree) × (copy_assign_contents
        (λ i. 20 + i)
        5
        held_pair
        other
        whole.root
      ≡ ok (h, t))
    × IsCopy (λ i. 20 + i) (λ a b. a == b) h t whole (tree 1 10 held_kids nil)
copy_assign_contents-IsCopy_example =
    copy_assign_contents-IsCopy (λ i. 20 + i) (λ a b. a == b) held_pair other whole other_forest
      (tree 1 10 held_kids nil) 5 other-Models whole-Models (λ a l. ground arith)
      (λ i j e. omega arith) (λ i. ground arith) (omega arith) (λ v. ground arith)

copy_assign_contents_self_example :
    copy_assign_contents (λ i. 20 + i) 5 held_pair whole whole.root ≡ fault
copy_assign_contents_self_example =
    copy_assign_contents_self (λ i. 20 + i) held_pair whole 1 10 held_kids 5 whole-Models

-- 5 with the children 6 and 7, and 8 below 6.
abbrev initializers : Initializers ℕ
initializers = initializer 6 (initializer 8 no_more no_more) (initializer 7 no_more no_more)

from_initializer-Models_example :
    (h : Heap ℕ) × (t : UnsafeTree) × (from_initializer (λ i. 20 + i) 9 held_pair 5 initializers
      ≡ ok (record { calls = 4; heap = h; tree = t }))
    × Models h t (tree 20 5 (tree 21 6 (tree 22 8 nil nil) (tree 23 7 nil nil)) nil)
from_initializer-Models_example =
    from_initializer-Models (λ i. 20 + i) (λ i j e. omega arith) 9 held_pair 5 initializers
      (omega arith)

merge_with_parent-Models_example :
    (h : Heap ℕ) × (t : UnsafeTree) × (merge_with_parent replace 4 held_pair whole 2 ≡ ok (h, t))
    × Models h t (tree 1 20 (tree 4 40 nil (tree 3 30 nil nil)) nil)
    × (h 2 ≡ none)
merge_with_parent-Models_example =
    merge_with_parent-Models replace 4 1 2 1 10 10 20 held_kids nil (tree 4 40 nil nil)
      (tree 3 30 nil nil) whole-Models refl (omega arith)
