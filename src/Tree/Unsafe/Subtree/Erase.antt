-- ===== src/Tree/Unsafe/Subtree/Erase.antt =====
-- `erase_subtree` takes a subtree out and destroys its nodes.
use cpp_tools.Base.{ℕ, ◌+◌, ◌<◌, List, none, some, ◌≡◌, refl, ap, arith, if◌then◌else◌}
use cpp_tools.Base.Result.{ok}
use mathlib.Core.Path.{subst}
use cpp_tools.Tree.Store.{Ptr, Node, node, Heap, load}
use cpp_tools.Tree.Forest.{Forest, nil, tree, roots, depth, times, Holds}
use cpp_tools.Tree.Graft.Frame.{Holds-frame}
use cpp_tools.Tree.Graft.Ends.{times-head, times-last, last-tree}
use cpp_tools.Tree.Unsafe.{UnsafeTree}
use cpp_tools.Tree.Unsafe.Model.{Models}
use cpp_tools.Tree.Unsafe.Subtree.{delete_subtree_nodes, erase_subtree}
use cpp_tools.Tree.Unsafe.Subtree.Prune.{prune, branch, times-prune}
use cpp_tools.Tree.Unsafe.Subtree.Remove.{Removed}
use cpp_tools.Tree.Unsafe.Subtree.Reach.{inside, reaches-branch}
use cpp_tools.Tree.Unsafe.Subtree.Chop.{remaining, apart, cut_out, shallow}
use cpp_tools.Tree.Unsafe.Subtree.Delete.{delete_subtree_nodes-Deleted}
use cpp_tools.Tree.Unsafe.Subtree.Parts.{first_of, last_of, remaining-Models, first_kept, last_kept}

module _ {ℓ} {T : Type ℓ} where
  module _ {h : Heap T} {t : UnsafeTree} (fuel : ℕ) (p r : Ptr) (x : T) (kids : Forest T)
      (m : Models h t (tree r x kids nil)) (under : 0 < times p kids)
      (le : depth (tree r x kids nil) < fuel) where
    -- What `erase_subtree` returns, once the parent has let go and the nodes are destroyed.
    erase_subtree_lem :
        (c : Removed h none 0 p (tree r x kids nil)) (h' : Heap T) (ys : List Ptr)
        → delete_subtree_nodes fuel p (c.heap, t.nodes) ≡ ok (h', ys)
        → erase_subtree fuel h t p
          ≡ ok (
            h',
            remaining t ys c.parent
                (inside (first_of r kids) (branch p (tree r x kids nil)))
                (inside (last_of r kids) (branch p (tree r x kids nil))),
          )
    unfolding erase_subtree load
    erase_subtree_lem c h' ys deleted =
        let f = tree r x kids nil in
        let end : 0 < times (last_of r kids) f =
          subst (λ e. 0 < times e f) (last-tree r x kids r) (times-last f r tt) in
        rw (
          m.points.0,
          apart fuel p r x kids m under le,
          m.points.1,
          m.points.2,
          reaches-branch fuel h p (first_of r kids) f m.held m.distinct (times-head r x kids nil)
              le,
          reaches-branch fuel h p (last_of r kids) f m.held m.distinct end le,
          c.branch_held.0,
          c.removed,
          deleted,
        )

  -- With the tree that stands for a forest, a node below its root, a second node of its subtree, and
  -- rounds for the depth, `erase_subtree` returns a tree that stands for the rest of the forest, but
  -- for the leftmost and the rightmost node: each is right only where the subtree did not have it,
  -- and is the parent of the first node else. The second node is destroyed.
  pub erase_subtree-Models :
      {h : Heap T} {t : UnsafeTree} (fuel : ℕ) (p a r : Ptr) (x : T) (kids : Forest T)
      → Models h t (tree r x kids nil)
      → 0 < times p kids
      → 0 < times a (branch p (tree r x kids nil))
      → depth (tree r x kids nil) < fuel
      → (h' : Heap T) × (t' : UnsafeTree) × (n : Node T) × (parent : Ptr) × (erase_subtree fuel h t
            p
          ≡ ok (h', t'))
        × Models h'
            (record t' {
              leftmost = some (first_of r (prune p kids));
              rightmost = some (last_of r (prune p kids));
            })
            (prune p (tree r x kids nil))
        × (h' a ≡ none)
        × (h p ≡ some n)
        × (n.parent ≡ some parent)
        × (t'.leftmost ≡ (
            if inside (first_of r kids) (branch p (tree r x kids nil))
            then some parent
            else some (first_of r (prune p kids))))
        × (t'.rightmost ≡ (
            if inside (last_of r kids) (branch p (tree r x kids nil))
            then some parent
            else some (last_of r (prune p kids))))
  erase_subtree-Models {h} {t} fuel p a r x kids m under doomed le =
      let f = tree r x kids nil in
      let c = cut_out fuel p r x kids m under le in
      let part = tree p c.value c.below nil in
      let split : (b : Ptr) → times b (prune p f) + times b part ≡ times b f =
        λ b. omega (arith, times-prune b p f, ap (λ g. times b g) c.whole) in
      let held =
        Holds-frame c.heap (some c.parent) c.index part c.branch_held
          (λ b l. c.frame b (ground (arith, split b, m.distinct b))) in
      let (h', ys, deleted, d) =
        delete_subtree_nodes-Deleted fuel c.heap t.nodes (some c.parent) c.index p c.value c.below
          held (λ b. omega (arith, split b, m.distinct b)) (shallow fuel p r x kids m under le c)
          (λ b. omega (arith, split b, m.owned b)) in
      let rest_held : Holds h' none 0 (prune p f) =
        Holds-frame h' none 0 (prune p f) c.held
          (λ b l. d.same b (omega (arith, split b, m.distinct b))) in
      (
        h',
        remaining t ys c.parent (inside (first_of r kids) (branch p f))
            (inside (last_of r kids) (branch p f)),
        node c.value (some c.parent) c.index (roots c.below),
        c.parent,
        erase_subtree_lem fuel p r x kids m under le c h' ys deleted,
        remaining-Models fuel p r x kids m under le h' ys rest_held
            (λ b. omega (arith, split b, d.left b, m.owned b)),
        d.gone a (omega (arith, doomed, ap (λ g. times a g) c.whole)),
        c.branch_held.0,
        refl,
        first_kept fuel p r x kids m under le c.parent,
        last_kept fuel p r x kids m under le c.parent,
      )
