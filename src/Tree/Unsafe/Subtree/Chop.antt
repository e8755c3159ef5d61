-- ===== src/Tree/Unsafe/Subtree/Chop.antt =====
-- `chop_subtree` divides a tree in two.
use cpp_tools.Base.{
  ℕ, ◌<◌, Bool, true, false, List, [], Option, none, some, ◌==◌, ◌≡◌, refl, ap, ◌∙◌, arith,
  if◌then◌else◌,
}
use cpp_tools.Base.Result.{Result, ok}
use cpp_tools.Tree.Store.{Ptr, node, Heap, load, write, write_self, write_ne}
use cpp_tools.Tree.Forest.{Forest, nil, tree, roots, preorder, postorder, depth, times, Holds}
use cpp_tools.Tree.Node.{clear_parent_metadata, leftmost_child_or_this, rightmost_child_or_this}
use mathlib.Core.Path.{subst}
use cpp_tools.Tree.Node.Descend.{head_or, last_or, leftmost-postorder, rightmost-preorder}
use cpp_tools.Tree.Graft.Frame.{Holds-frame, ne_of_times}
use cpp_tools.Tree.Graft.Ends.{times-head, times-last, last-tree}
use cpp_tools.Tree.Unsafe.{UnsafeTree}
use cpp_tools.Tree.Unsafe.Model.{Models}
use cpp_tools.Tree.Unsafe.Subtree.{Handover, chopped, move_node_ptrs, chop_subtree}
use cpp_tools.Tree.Unsafe.Subtree.Prune.{prune, branch}
use cpp_tools.Tree.Unsafe.Subtree.Remove.{Removed, branch-Removed}
use cpp_tools.Tree.Unsafe.Subtree.Reach.{inside, reaches-branch}
use cpp_tools.Tree.Unsafe.Subtree.PruneEnds.{depth-branch}

chopped_lem :
    (b : Bool) (extremum : Option Ptr) (descend : Ptr → Result Ptr) (p e : Ptr)
    → descend p ≡ ok e
    → chopped b extremum descend p ≡ ok (if b then extremum else some e)
chopped_lem true extremum descend p e found = refl
chopped_lem false extremum descend p e found = rw found

-- The tree that stays; `first` and `last` tell whether its extrema go.
abbrev pub remaining : UnsafeTree → List Ptr → Ptr → Bool → Bool → UnsafeTree
remaining t nodes parent first last = record t {
  nodes = nodes;
  leftmost = if first then some parent else t.leftmost;
  rightmost = if last then some parent else t.rightmost;
}

module _ {ℓ} {T : Type ℓ} where
  -- The tree that goes.
  abbrev pub detached : UnsafeTree → List Ptr → Ptr → Forest T → Bool → Bool → UnsafeTree
  detached t nodes p below first last = record {
    nodes = nodes;
    root = some p;
    leftmost = if first then t.leftmost else some (head_or (postorder below) p);
    rightmost = if last then t.rightmost else some (last_or (preorder below) p);
  }

  module _ {h : Heap T} {t : UnsafeTree} (fuel : ℕ) (p r : Ptr) (x : T) (kids : Forest T)
      (m : Models h t (tree r x kids nil)) (under : 0 < times p kids)
      (le : depth (tree r x kids nil) < fuel) where
    pub apart : (p == r) ≡ false
    apart = ground (arith, m.distinct r)

    pub cut_out : Removed h none 0 p (tree r x kids nil)
    cut_out =
        branch-Removed h none 0 p (tree r x kids nil) m.held m.distinct (ground arith)
          (ground (arith, apart))

    pub shallow :
        (c : Removed h none 0 p (tree r x kids nil)) → depth (tree p c.value c.below nil) < fuel
    shallow c = omega (arith, ap depth c.whole, depth-branch p (tree r x kids nil), le)

    -- What `chop_subtree` returns, once the parent has let go and the nodes have been handed over.
    pub chop_subtree_lem :
        (c : Removed h none 0 p (tree r x kids nil)) (s : Handover)
        → move_node_ptrs fuel h p (t.nodes, []) ≡ ok s
        → c.heap p ≡ h p
        → let first = inside (head_or (postorder kids) r) (branch p (tree r x kids nil)) in
          let last = inside (last_or (preorder kids) r) (branch p (tree r x kids nil)) in
          chop_subtree fuel h t p
          ≡ ok (
            write c.heap p (some (node c.value none 0 (roots c.below))),
            remaining t s.0 c.parent first last,
            detached t s.1 p c.below first last,
          )
    unfolding chop_subtree clear_parent_metadata load
    chop_subtree_lem c s moves kept =
        let f = tree r x kids nil in
        let deep = shallow c in
        let end : 0 < times (last_or (preorder kids) r) f =
          subst (λ e. 0 < times e f) (last-tree r x kids r) (times-last f r tt) in
        let start = times-head r x kids nil in
        let down =
          leftmost-postorder h fuel {q = some c.parent} {i = c.index} p c.value c.below nil
            c.branch_held (omega (arith, deep)) in
        let down' =
          rightmost-preorder h fuel {q = some c.parent} {i = c.index} p c.value c.below nil
            c.branch_held (omega (arith, deep)) in
        rw (
          m.points.0,
          apart,
          m.points.1,
          m.points.2,
          reaches-branch fuel h p (head_or (postorder kids) r) f m.held m.distinct start le,
          reaches-branch fuel h p (last_or (preorder kids) r) f m.held m.distinct end le,
          chopped_lem (inside (head_or (postorder kids) r) (branch p f))
              (some (head_or (postorder kids) r)) (leftmost_child_or_this fuel h) p
              (head_or (postorder c.below) p) down,
          chopped_lem (inside (last_or (preorder kids) r) (branch p f))
              (some (last_or (preorder kids) r)) (rightmost_child_or_this fuel h) p
              (last_or (preorder c.below) p) down',
          c.branch_held.0,
          moves,
          c.removed,
          kept,
          c.branch_held.0,
        )

    -- The heap behind it holds both trees.
    pub both_held :
        (c : Removed h none 0 p (tree r x kids nil))
        → times p (prune p (tree r x kids nil)) ≡ 0
        → times p c.below ≡ 0
        → ((a : Ptr) → 0 < times a c.below → times a (prune p (tree r x kids nil)) ≡ 0)
        → let h' = write c.heap p (some (node c.value none 0 (roots c.below))) in
          Holds h' none 0 (prune p (tree r x kids nil))
          × Holds h' none 0 (tree p c.value c.below nil)
    both_held c gone once apart' =
        let n = some (node c.value none 0 (roots c.below)) in
        let g = prune p (tree r x kids nil) in
        (
          Holds-frame (write c.heap p n) none 0 g c.held
              (λ a l. write_ne c.heap p a n (ne_of_times g l gone)),
          (
            write_self c.heap p n,
            Holds-frame (write c.heap p n) (some p) 0 c.below c.branch_held.1 (λ a l.
                write_ne c.heap p a n (ne_of_times c.below l once) ∙ c.frame a (apart' a l)),
            tt,
          ),
        )
