-- ===== src/Tree/Unsafe/Subtree/MoveCases.antt =====
-- The cases of `move_subtree` for an extremum, and when a node is above the rightmost one.
use cpp_tools.Base.{[], suc, Bool, true, false, ◌||◌, none, some, ◌==◌, ◌≡◌, refl, sym, ◌∙◌, arith}
use cpp_tools.Base.Result.{Result, ok}
use cpp_tools.Tree.Store.{Ptr, Heap}
use cpp_tools.Tree.Forest.{Forest, nil, tree, preorder, depth, Distinct, Holds}
use cpp_tools.Tree.Node.Descend.{last_or}
use cpp_tools.Tree.Graft.Ends.{above, times-last}
use cpp_tools.Tree.Unsafe.{UnsafeTree, would_change_rightmost}
use cpp_tools.Tree.Unsafe.Emplace.{would_change_rightmost_lem}
use cpp_tools.Tree.Unsafe.Subtree.{moved_extremum}
use cpp_tools.Tree.Unsafe.Subtree.Prune.{branch}
use cpp_tools.Tree.Unsafe.Subtree.Reach.{inside, reaches-branch}
use cpp_tools.Tree.Unsafe.Subtree.{reaches}

-- The four cases where the last one can be, with the extremum `e` of the tree that is left.
pub moved_extremum_all :
    (dropping updating : Bool) (descend : Ptr → Result Ptr) (w q old e : Ptr)
    → (dropping ≡ updating → old ≡ e)
    → (dropping ≡ false → updating ≡ true → descend w ≡ ok e)
    → (dropping ≡ true → updating ≡ false → descend q ≡ ok e)
    → moved_extremum dropping updating descend w q (some old) ≡ ok (some e)
moved_extremum_all false false descend w q old e stays up down = rw (stays refl)
moved_extremum_all false true descend w q old e stays up down = rw (up refl refl)
moved_extremum_all true false descend w q old e stays up down = rw (down refl refl)
moved_extremum_all true true descend w q old e stays up down = rw (stays refl)

-- The four cases, with the extremum `e` of the tree that is left.
pub moved_extremum_lem :
    (dropping updating : Bool) (descend : Ptr → Result Ptr) (w q old e : Ptr)
    → (dropping ≡ false → updating ≡ false → old ≡ e)
    → (dropping ≡ false → updating ≡ true → descend w ≡ ok e)
    → (dropping ≡ true → descend q ≡ ok e)
    → (dropping ≡ true → updating ≡ false)
    → moved_extremum dropping updating descend w q (some old) ≡ ok (some e)
moved_extremum_lem false false descend w q old e stays up down never = rw (stays refl refl)
moved_extremum_lem false true descend w q old e stays up down never = rw (up refl refl)
moved_extremum_lem true false descend w q old e stays up down never = rw (down refl)
moved_extremum_lem true true descend w q old e stays up down never =
    absurd (ground (arith, never refl))

eq_of_ok : {a b : Bool} → ok a ≡ ok b → a ≡ b
eq_of_ok e = cc

module _ {ℓ} {T : Type ℓ} where
  -- The end of the branch is below a node, or it is the node.
  pub on_branch :
      (h : Heap T) (w r : Ptr) (x : T) (kids : Forest T)
      → Holds h none 0 (tree r x kids nil)
      → Distinct (tree r x kids nil)
      → (last_or (preorder (tree r x kids nil)) r == w || above w (tree r x kids nil))
        ≡ inside (last_or (preorder (tree r x kids nil)) r) (branch w (tree r x kids nil))
  unfolding would_change_rightmost reaches
  on_branch h w r x kids held d =
      let f = tree r x kids nil in
      let e = last_or (preorder f) r in
      let t : UnsafeTree = record {
        nodes = [];
        root = none;
        leftmost = none;
        rightmost = some e;
      } in
      let one = would_change_rightmost_lem (suc (depth f)) h t w r x kids held refl (omega arith) in
      let two = reaches-branch (suc (depth f)) h w e f held d (times-last f r tt) (omega arith) in
      eq_of_ok (sym one ∙ two)
