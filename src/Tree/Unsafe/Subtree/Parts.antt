-- ===== src/Tree/Unsafe/Subtree/Parts.antt =====
-- `chop_subtree` divides a tree in two.
use cpp_tools.Base.{
  List, ℕ, ◌+◌, ◌<◌, false, [], none, some, ◌==◌, ◌≡◌, refl, sym, ap, ◌∙◌, inl, inr, arith,
  if◌then◌else◌, Bool-cases,
}
use cpp_tools.Base.Result.{ok}
use mathlib.Core.Path.{subst}
use cpp_tools.Tree.Store.{Ptr, Node, node, Heap, write}
use cpp_tools.Tree.Forest.{Forest, nil, tree, roots, preorder, postorder, depth, times, Holds}
use cpp_tools.Tree.Node.Descend.{head_or, last_or}
use cpp_tools.Tree.Graft.{times-snoc}
use cpp_tools.Tree.Graft.Ends.{head-tree, last-tree}
use cpp_tools.Tree.Unsafe.{UnsafeTree}
use cpp_tools.Tree.Unsafe.Model.{count, Models}
use cpp_tools.Tree.Unsafe.Subtree.{Handover, chop_subtree}
use cpp_tools.Tree.Unsafe.Subtree.Transfer.{Moved, move_node_ptrs-Moved}
use cpp_tools.Tree.Unsafe.Subtree.Prune.{prune, branch, times-prune}
use cpp_tools.Tree.Unsafe.Subtree.Remove.{Removed}
use cpp_tools.Tree.Unsafe.Subtree.Reach.{inside}
use cpp_tools.Tree.Unsafe.Subtree.PruneEnds.{head-prune, last-prune}
use cpp_tools.Tree.Unsafe.Subtree.BranchEnds.{head-branch, last-branch}
use cpp_tools.Tree.Unsafe.Subtree.Chop.{
  remaining, detached, cut_out, shallow, chop_subtree_lem, both_held,
}

module _ {ℓ} {T : Type ℓ} where
  -- The first and the last node of a tree.
  abbrev pub first_of : Ptr → Forest T → Ptr
  first_of r kids = head_or (postorder kids) r

  abbrev pub last_of : Ptr → Forest T → Ptr
  last_of r kids = last_or (preorder kids) r

  module _ {h : Heap T} {t : UnsafeTree} (fuel : ℕ) (p r : Ptr) (x : T) (kids : Forest T)
      (m : Models h t (tree r x kids nil)) (under : 0 < times p kids)
      (le : depth (tree r x kids nil) < fuel) where
    other_root : (r == p) ≡ false
    other_root = ground (arith, m.distinct r)

    pub times-branch : (a : Ptr) → times a (branch p (tree r x kids nil)) ≡ times a (branch p kids)
    times-branch a = rw other_root (omega (arith, times-snoc a (branch p kids) nil))

    -- The extrema of the part, where they are those of the whole.
    first_same :
        (c : Removed h none 0 p (tree r x kids nil))
        → 0 < times (first_of r kids) (branch p (tree r x kids nil))
        → first_of p c.below ≡ first_of r kids
    first_same c l =
        let f = tree r x kids nil in
        let whole = head-tree r x kids nil r in
        sym (head-tree p c.value c.below nil p)
        ∙ ap (λ g. head_or (postorder g) p) (sym c.whole)
        ∙ head-branch p f r p m.distinct (subst (λ e. 0 < times e (branch p f)) (sym whole) l)
        ∙ whole

    pub last_same :
        (c : Removed h none 0 p (tree r x kids nil))
        → 0 < times (last_of r kids) (branch p (tree r x kids nil))
        → last_of p c.below ≡ last_of r kids
    last_same c l =
        let f = tree r x kids nil in
        let whole = last-tree r x kids r in
        sym (last-tree p c.value c.below p)
        ∙ ap (λ g. last_or (preorder g) p) (sym c.whole)
        ∙ last-branch p f r p m.distinct (subst (λ e. 0 < times e (branch p f)) (sym whole) l)
        ∙ whole

    -- What stays, with its own extrema, on a heap that holds it.
    pub remaining-Models :
        (h' : Heap T) (nodes : List Ptr)
        → Holds h' none 0 (prune p (tree r x kids nil))
        → ((a : Ptr) → count a nodes ≡ times a (prune p (tree r x kids nil)))
        → Models h'
            (record t {
              nodes = nodes;
              leftmost = some (first_of r (prune p kids));
              rightmost = some (last_of r (prune p kids));
            })
            (prune p (tree r x kids nil))
    remaining-Models h' nodes held owned = record {
      held = held;
      distinct = λ a. omega (arith, times-prune a p (tree r x kids nil), m.distinct a);
      owned = owned;
      points = rw other_root (m.points.0, refl, refl);
    }

    pub first_kept :
        (parent : Ptr)
        → (if inside (first_of r kids) (branch p (tree r x kids nil))
            then some parent
            else t.leftmost)
          ≡ (if inside (first_of r kids) (branch p (tree r x kids nil))
              then some parent
              else some (first_of r (prune p kids)))
    first_kept parent =
        elim (Bool-cases (inside (first_of r kids) (branch p (tree r x kids nil)))) [
          | inl e ↦ rw e
          | inr e ↦
              let gone = head-prune p kids r (ground (arith, e, times-branch (first_of r kids))) in
              rw (e, m.points.1, gone)
        ]

    pub last_kept :
        (parent : Ptr)
        → (if inside (last_of r kids) (branch p (tree r x kids nil))
            then some parent
            else t.rightmost)
          ≡ (if inside (last_of r kids) (branch p (tree r x kids nil))
              then some parent
              else some (last_of r (prune p kids)))
    last_kept parent = elim (Bool-cases (inside (last_of r kids) (branch p (tree r x kids nil)))) [
      | inl e ↦ rw e
      | inr e ↦
          let gone = last-prune p kids r (ground (arith, e, times-branch (last_of r kids))) in
          rw (e, m.points.2, gone)
    ]

    module _ (c : Removed h none 0 p (tree r x kids nil)) (s : Handover)
        (moved : Moved (tree p c.value c.below nil) (t.nodes, []) s) where
      split :
          (a : Ptr)
          → times a (prune p (tree r x kids nil)) + times a (tree p c.value c.below nil)
            ≡ times a (tree r x kids nil)
      split a = omega (arith, times-prune a p (tree r x kids nil), ap (λ g. times a g) c.whole)

      held :
          let h' = write c.heap p (some (node c.value none 0 (roots c.below))) in
          Holds h' none 0 (prune p (tree r x kids nil))
          × Holds h' none 0 (tree p c.value c.below nil)
      held =
          both_held fuel p r x kids m under le c (ground (arith, split p, m.distinct p))
            (ground (arith, split p, m.distinct p)) (λ a l. ground (arith, split a, m.distinct a))

      detached-Models :
          Models
            (write c.heap p (some (node c.value none 0 (roots c.below))))
            (detached t s.1 p c.below
              (inside (first_of r kids) (branch p (tree r x kids nil)))
              (inside (last_of r kids) (branch p (tree r x kids nil))))
            (tree p c.value c.below nil)
      detached-Models = record {
        held = held.1;
        distinct = λ a. omega (arith, split a, m.distinct a);
        owned = λ a. omega (arith, moved.right a);
        points = (
          refl,
          elim (Bool-cases (inside (first_of r kids) (branch p (tree r x kids nil)))) [
            | inl e ↦ rw (e, m.points.1, first_same c (ground arith))
            | inr e ↦ rw e
          ],
          elim (Bool-cases (inside (last_of r kids) (branch p (tree r x kids nil)))) [
            | inl e ↦ rw (e, m.points.2, last_same c (ground arith))
            | inr e ↦ rw e
          ],
        );
      }

  -- With the tree that stands for a forest, a node below its root, and rounds for the depth,
  -- `chop_subtree` returns two trees. The one cut off stands for the subtree of the node. The other
  -- has the rest of the forest, its nodes and its root, but its leftmost node is right only where
  -- the subtree did not have it, and is the parent of the node else; likewise its rightmost node.
  pub chop_subtree-Models :
      {h : Heap T} {t : UnsafeTree} (fuel : ℕ) (p r : Ptr) (x : T) (kids : Forest T)
      → Models h t (tree r x kids nil)
      → 0 < times p kids
      → depth (tree r x kids nil) < fuel
      → (h' : Heap T) × (t' : UnsafeTree) × (c : UnsafeTree) × (n : Node T) × (parent : Ptr)
        × (chop_subtree fuel h t p ≡ ok (h', t', c))
        × Models h' c (branch p (tree r x kids nil))
        × Models h'
            (record t' {
              leftmost = some (first_of r (prune p kids));
              rightmost = some (last_of r (prune p kids));
            })
            (prune p (tree r x kids nil))
        × (h p ≡ some n)
        × (n.parent ≡ some parent)
        × (t'.leftmost ≡ (
            if inside (first_of r kids) (branch p (tree r x kids nil))
            then some parent
            else some (first_of r (prune p kids))))
        × (t'.rightmost ≡ (
            if inside (last_of r kids) (branch p (tree r x kids nil))
            then some parent
            else some (last_of r (prune p kids))))
  chop_subtree-Models {h} {t} fuel p r x kids m under le =
      let f = tree r x kids nil in
      let c = cut_out fuel p r x kids m under le in
      let same = λ (a : Ptr). ap (λ g. times a g) c.whole in
      let (s, moves, moved) =
        move_node_ptrs-Moved fuel h (some c.parent) c.index p c.value c.below c.branch_held t.nodes
          [] (shallow fuel p r x kids m under le c)
          (λ a. omega (arith, times-prune a p f, m.owned a, same a)) in
      (
        write c.heap p (some (node c.value none 0 (roots c.below))),
        remaining t s.0 c.parent (inside (first_of r kids) (branch p f))
            (inside (last_of r kids) (branch p f)),
        detached t s.1 p c.below (inside (first_of r kids) (branch p f))
            (inside (last_of r kids) (branch p f)),
        node c.value (some c.parent) c.index (roots c.below),
        c.parent,
        chop_subtree_lem fuel p r x kids m under le c s moves
            (c.frame p (ground (arith, times-prune p p f, same p, m.distinct p))),
        subst
            (λ g.
              Models (write c.heap p (some (node c.value none 0 (roots c.below))))
                (detached t s.1 p c.below (inside (first_of r kids) (branch p f))
                  (inside (last_of r kids) (branch p f)))
                g)
            (sym c.whole) (detached-Models fuel p r x kids m under le c s moved),
        remaining-Models fuel p r x kids m under le _ s.0
            (held fuel p r x kids m under le c s moved).0
            (λ a. omega (arith, times-prune a p f, same a, moved.left a, m.owned a)),
        c.branch_held.0,
        refl,
        first_kept fuel p r x kids m under le c.parent,
        last_kept fuel p r x kids m under le c.parent,
      )
