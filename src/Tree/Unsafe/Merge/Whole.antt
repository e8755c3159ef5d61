-- ===== src/Tree/Unsafe/Merge/Whole.antt =====
-- `merge_with_parent` on a tree.
use cpp_tools.Base.{
  ℕ, ◌+◌, ◌≤◌, ◌<◌, Option, some, none, ◌==◌, ◌≡◌, refl, ap, ◌∙◌, inl, inr, arith, Bool-cases,
  if◌then◌else◌, length,
}
use cpp_tools.Base.Result.{ok}
use cpp_tools.Tree.Store.{Ptr, Node, node, Heap, load, write, write_self, write_ne}
use cpp_tools.Tree.Forest.{Forest, nil, tree, roots, preorder, postorder, depth, times, Holds}
use cpp_tools.Tree.Graft.{snoc, times-snoc}
use cpp_tools.Tree.Graft.Frame.{Holds-frame, ne_of_times}
use cpp_tools.Tree.Graft.Ends.{head-tree, last-tree}
use cpp_tools.Tree.Node.{leftmost_child_or_this, rightmost_child_or_this}
use cpp_tools.Tree.Node.Descend.{head_or, last_or, leftmost-postorder, rightmost-preorder}
use cpp_tools.Tree.Node.Merge.{merge_child}
use cpp_tools.Tree.Node.Merge.Splice.{Holds-split}
use cpp_tools.Tree.Node.Merge.Whole.{merge_child-splice}
use cpp_tools.Tree.Unsafe.{UnsafeTree, disown}
use cpp_tools.Tree.Unsafe.Model.{Points, Models}
use cpp_tools.Tree.Unsafe.Grafted.{Points-intro}
use cpp_tools.Tree.Unsafe.Owned.{count-disown}
use cpp_tools.Tree.Unsafe.Subtree.Prune.{branch}
use cpp_tools.Tree.Unsafe.Subtree.PruneEnds.{depth-branch}
use cpp_tools.Tree.Unsafe.Merge.{merged_extremum, merge_with_parent}
use cpp_tools.Tree.Unsafe.Merge.Renew.{renew, times-renew, times-branch, Found, find_node}
use cpp_tools.Tree.Unsafe.Merge.Ends.{head-renew, last-renew}
use cpp_tools.Tree.Unsafe.Merge.Extrema.{depth-snoc-max, first_leaf, last_leaf, extremum_lem}

module _ {ℓ} {T : Type ℓ} where
  Points-renew :
      (t : UnsafeTree) (p : Ptr) (y : T) (kids' : Forest T) (r : Ptr) (x : T) (kids : Forest T)
      → t.root ≡ some r
      → t.leftmost ≡ some (head_or (postorder (renew p y kids' (tree r x kids nil))) r)
      → t.rightmost ≡ some (last_or (preorder (renew p y kids' (tree r x kids nil))) r)
      → Points t (renew p y kids' (tree r x kids nil))
  Points-renew t p y kids' r x kids top first last = elim (Bool-cases (r == p)) [
    | inl e ↦ rw e (Points-intro t r y kids' r top (rw e at first) (rw e at last))
    | inr e ↦ rw e (Points-intro t r x (renew p y kids' kids) r top (rw e at first) (rw e at last))
  ]

  -- The steps of `merge_with_parent`, where `merge_child` and the descents return.
  merge_with_parent_lem :
      (merge : T → T → T) (fuel : ℕ) (h h' : Heap T) (t : UnsafeTree) (p n : Ptr) {m : Node T}
      (first last : Ptr)
      → h n ≡ some m
      → m.parent ≡ some p
      → merge_child merge h p m.sibling_index ≡ ok h'
      → merged_extremum n t.leftmost (leftmost_child_or_this fuel h' p) ≡ ok (some first)
      → merged_extremum n t.rightmost (rightmost_child_or_this fuel h' p) ≡ ok (some last)
      → merge_with_parent merge fuel h t n
        ≡ ok (
          write h' n none,
          record t { nodes = disown n t.nodes; leftmost = some first; rightmost = some last },
        )
  unfolding merge_with_parent load
  merge_with_parent_lem merge fuel h h' t p n first last at_n parent merged left right =
      rw (at_n, parent, merged, left, right)

  module _ {h : Heap T} {t : UnsafeTree} (p n r : Ptr) (x v w : T)
      (kids left below right : Forest T) (m : Models h t (tree r x kids nil))
      (e : branch p (tree r x kids nil) ≡ tree p v (snoc left (tree n w below right)) nil) where
    parts :
        (a : Ptr)
        → times a (branch p (tree r x kids nil))
          ≡ (if a == p then 1 else 0)
            + (times a left + ((if a == n then 1 else 0) + (times a below + times a right)))
    parts a = ap (times a) e ∙ omega (arith, times-snoc a left (tree n w below right))

    inside : (a : Ptr) → times a (branch p (tree r x kids nil)) ≤ 1
    inside a = omega (arith, times-branch a p (tree r x kids nil), m.distinct a)

    known : 0 < times p (tree r x kids nil)
    known = ground (arith, parts p, times-branch p p (tree r x kids nil))

    -- The forest behind the merge has each node once, but for the child.
    times-merged :
        (y : T) (a : Ptr)
        → times a (renew p y (snoc left (snoc below right)) (tree r x kids nil))
            + (if a == n then 1 else 0)
          ≡ times a (tree r x kids nil)
    times-merged y a = omega (
      arith,
      times-renew a p y (snoc left (snoc below right)) (tree r x kids nil)
          (omega (arith, known, m.distinct p)),
      parts a,
      times-snoc a left (snoc below right),
      times-snoc a below right,
    )

    gone : (y : T) → times n (renew p y (snoc left (snoc below right)) (tree r x kids nil)) ≡ 0
    gone y = ground (arith, times-merged y n, m.distinct n)

    merged-Models :
        (y : T) (h' : Heap T) (t' : UnsafeTree)
        → let f = renew p y (snoc left (snoc below right)) (tree r x kids nil) in
          Holds h' none 0 f
          → t'.nodes ≡ disown n t.nodes
          → t'.root ≡ t.root
          → t'.leftmost ≡ some (head_or (postorder f) r)
          → t'.rightmost ≡ some (last_or (preorder f) r)
          → Models (write h' n none) t' f
    merged-Models y h' t' held nodes top first last =
        let f = renew p y (snoc left (snoc below right)) (tree r x kids nil) in
        record {
          held =
              Holds-frame (write h' n none) none 0 f held
                (λ a l. write_ne h' n a none (ne_of_times f l (gone y)));
          distinct = λ a. omega (arith, times-merged y a, m.distinct a);
          owned =
              λ a. rw nodes (ground (arith, count-disown n a t.nodes, m.owned a, times-merged y a));
          points =
              Points-renew t' p y (snoc left (snoc below right)) r x kids (top ∙ m.points.0) first
                last;
        }

    branch_held :
        (c : Found h none 0 p (tree r x kids nil))
        → Holds h c.above c.place (tree p v (snoc left (tree n w below right)) nil)
    branch_held c = rw e at c.here

    at_child :
        (c : Found h none 0 p (tree r x kids nil))
        → h n ≡ some (node w (some p) (length (roots left)) (roots below))
    at_child c =
        let start : 0 + length (roots left) ≡ length (roots left) = omega arith in
        let s = branch_held c in
        rw start at ((Holds-split h (some p) 0 left (tree n w below right) s.1).1.0)

    shallow : depth (snoc left (snoc below right)) < depth (tree r x kids nil)
    shallow = omega (
      arith,
      depth-branch p (tree r x kids nil),
      ap depth e,
      depth-snoc-max left (snoc below right),
      depth-snoc-max below right,
      depth-snoc-max left (tree n w below right),
    )

    child_in : 0 < times n (branch p (tree r x kids nil))
    child_in = ground (arith, parts n)

    -- The extrema, where the heap holds the merged node.
    new_first :
        (y : T) (fuel : ℕ) (h' : Heap T) (q : Option Ptr) (i : ℕ)
        → Holds h' q i (tree p y (snoc left (snoc below right)) nil)
        → depth (tree r x kids nil) < fuel
        → let f = renew p y (snoc left (snoc below right)) (tree r x kids nil) in
          merged_extremum n t.leftmost (leftmost_child_or_this fuel h' p)
          ≡ ok (some (head_or (postorder f) r))
    new_first y fuel h' q i s le =
        let kids' = snoc left (snoc below right) in
        rw (m.points.1, ← head-tree r x kids nil r)
          (extremum_lem p n w (branch p (tree r x kids nil)) (leftmost_child_or_this fuel h' p)
            child_in
            (head-renew p y kids' v (snoc left (tree n w below right)) (tree r x kids nil) r
              m.distinct known e)
            (first_leaf p n w left below right)
            (leftmost-postorder h' fuel p y kids' nil s (omega (arith, shallow))))

    new_last :
        (y : T) (fuel : ℕ) (h' : Heap T) (q : Option Ptr) (i : ℕ)
        → Holds h' q i (tree p y (snoc left (snoc below right)) nil)
        → depth (tree r x kids nil) < fuel
        → let f = renew p y (snoc left (snoc below right)) (tree r x kids nil) in
          merged_extremum n t.rightmost (rightmost_child_or_this fuel h' p)
          ≡ ok (some (last_or (preorder f) r))
    new_last y fuel h' q i s le =
        let kids' = snoc left (snoc below right) in
        rw (m.points.2, ← last-tree r x kids r)
          (extremum_lem p n w (branch p (tree r x kids nil)) (rightmost_child_or_this fuel h' p)
            child_in
            (last-renew p y kids' v (snoc left (tree n w below right)) (tree r x kids nil) r
              m.distinct known e)
            (last_leaf p n w left below right)
            (rightmost-preorder h' fuel p y kids' nil s (omega (arith, shallow))))

  -- On a tree that stands for a forest, for a node below the root that the forest has among the
  -- children of its parent, and with rounds for the depth, `merge_with_parent` returns a tree that
  -- stands for the forest where the children of the node stand in its place, in order, and where the
  -- value of the parent is merged with that of the node. The node is destroyed.
  pub merge_with_parent-Models :
      (merge : T → T → T) {h : Heap T} {t : UnsafeTree} (fuel : ℕ) (p n r : Ptr) (x v w : T)
      (kids left below right : Forest T)
      → Models h t (tree r x kids nil)
      → branch p (tree r x kids nil) ≡ tree p v (snoc left (tree n w below right)) nil
      → depth (tree r x kids nil) < fuel
      → (h' : Heap T) × (t' : UnsafeTree) × (merge_with_parent merge fuel h t n ≡ ok (h', t'))
        × Models h' t' (renew p (merge v w) (snoc left (snoc below right)) (tree r x kids nil))
        × (h' n ≡ none)
  merge_with_parent-Models merge {h} {t} fuel p n r x v w kids left below right m e le =
      let f = tree r x kids nil in
      let kids' = snoc left (snoc below right) in
      let y = merge v w in
      let c =
        find_node h none 0 p f m.held m.distinct (known p n r x v w kids left below right m e) in
      let s = branch_held p n r x v w kids left below right m e c in
      let (h1, run, held, out) =
        merge_child-splice merge h c.above c.place p v left n w below right s
          (λ a. rw e at (inside p n r x v w kids left below right m e a)) in
      let g = renew p y kids' f in
      let first = head_or (postorder g) r in
      let last = last_or (preorder g) r in
      let t1 = record t {
        nodes = disown n t.nodes;
        leftmost = some first;
        rightmost = some last;
      } in
      (
        write h1 n none,
        t1,
        merge_with_parent_lem merge fuel h h1 t p n first last
            (at_child p n r x v w kids left below right m e c) refl run
            (new_first p n r x v w kids left below right m e y fuel h1 c.above c.place held le)
            (new_last p n r x v w kids left below right m e y fuel h1 c.above c.place held le),
        merged-Models p n r x v w kids left below right m e y h1 t1
            (c.renewed h1 y kids' held (λ a z. out a (rw e at z))) refl refl refl refl,
        write_self h1 n none,
      )
