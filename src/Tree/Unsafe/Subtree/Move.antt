-- ===== src/Tree/Unsafe/Subtree/Move.antt =====
-- `move_subtree` hangs a subtree under another node of the tree.
use cpp_tools.Base.{
  ltb, ℕ, suc, ◌+◌, ◌<◌, Bool, true, false, ◌||◌, Option, none, some, ◌==◌, ◌≡◌, refl, sym, ap, ◌∙◌,
  inl, inr, arith, if◌then◌else◌, Bool-cases, ==_iff,
}
use cpp_tools.Base.Result.{ok}
use mathlib.Core.Path.{subst}
use cpp_tools.Tree.Store.{Ptr, node, Heap, load}
use cpp_tools.Tree.Forest.{
  Forest, nil, tree, roots, preorder, postorder, depth, times, Distinct, Holds,
}
use cpp_tools.Tree.Node.{insert_child, leftmost_child_or_this, rightmost_child_or_this}
use cpp_tools.Tree.Node.Descend.{head_or, last_or}
use cpp_tools.Tree.Graft.{graft, linked, insert_child-linked}
use cpp_tools.Tree.Graft.Frame.{Holds-frame, ne_of_times, node_of}
use cpp_tools.Tree.Graft.Ends.{
  above, times-head, times-last, head-tree, last-tree, head-graft, last-graft,
}
use cpp_tools.Tree.Unsafe.{UnsafeTree, would_change_leftmost}
use cpp_tools.Tree.Unsafe.Model.{Models}
use cpp_tools.Tree.Unsafe.Grafted.{grafted, Models-grafted}
use cpp_tools.Tree.Unsafe.Emplace.{would_change_rightmost_lem}
use cpp_tools.Tree.Unsafe.Subtree.{move_subtree, moved_extremum}
use cpp_tools.Tree.Unsafe.Subtree.Prune.{prune, branch, times-prune}
use cpp_tools.Tree.Unsafe.Subtree.Remove.{Removed}
use cpp_tools.Tree.Unsafe.Subtree.Reach.{inside, reaches-branch}
use cpp_tools.Tree.Unsafe.Subtree.PruneEnds.{head-prune, last-prune}
use cpp_tools.Tree.Unsafe.Subtree.Nested.{times-branch-prune, nested, last-kept}
use native.Mathlib.Decide.{dec_lt}
use cpp_tools.Tree.Unsafe.Subtree.Chop.{cut_out}
use cpp_tools.Tree.Unsafe.Subtree.Parts.{first_of, last_of, times-branch, last_same}
use cpp_tools.Tree.Unsafe.Subtree.Located.{
  first_at, last_at, graft-grows, branch-graft, branch-graft_below, times-branch_self,
}
use cpp_tools.Tree.Unsafe.Subtree.MoveCases.{moved_extremum_all, moved_extremum_lem, on_branch}

module _ {ℓ} {T : Type ℓ} where
  module _ {h : Heap T} {t : UnsafeTree} (fuel : ℕ) (p w r : Ptr) (x : T) (kids : Forest T)
      (m : Models h t (tree r x kids nil)) (under : 0 < times p kids)
      (dest : 0 < times w (prune p (tree r x kids nil))) (le : depth (tree r x kids nil) < fuel)
      (c : Removed h none 0 p (tree r x kids nil)) where
    abbrev moved : Forest T
    moved = graft w (tree p c.value c.below nil) (tree r x (prune p kids) nil)

    other_root : (r == p) ≡ false
    other_root = ground (arith, m.distinct r)

    pruned : prune p (tree r x kids nil) ≡ tree r x (prune p kids) nil
    pruned = rw other_root

    split :
        (a : Ptr)
        → times a (tree r x (prune p kids) nil) + times a (tree p c.value c.below nil)
          ≡ times a (tree r x kids nil)
    split a = omega (
      arith,
      times-prune a p (tree r x kids nil),
      ap (λ g. times a g) c.whole,
      ap (λ g. times a g) pruned,
    )

    -- The first leaf of the new tree.
    first_moved :
        head_or (postorder moved) (suc w)
        ≡ (if first_of r (prune p kids) == w then first_of p c.below else first_of r (prune p kids))
    first_moved =
        let F = tree r x (prune p kids) nil in
        rw (
          head-graft w p c.value c.below F (suc w) (λ a. omega (arith, split a, m.distinct a))
              (omega arith),
          head-tree r x (prune p kids) nil (suc w),
        )

    -- A part of the rest that has the first leaf of the rest has that of the new tree.
    first_in :
        (q : Ptr)
        → 0 < times (first_of r (prune p kids)) (branch q (tree r x (prune p kids) nil))
        → 0 < times (head_or (postorder moved) (suc w)) (branch q moved)
    first_in q l =
        let F = tree r x (prune p kids) nil in
        let g = tree p c.value c.below nil in
        let L = first_of r (prune p kids) in
        let d : Distinct F = λ a. omega (arith, split a, m.distinct a) in
        subst (λ e. 0 < times e (branch q (graft w g F))) (sym first_moved)
          (elim (Bool-cases (L == w)) [
            | inl e ↦
                let same : L ≡ w = (==_iff L w).0 e in
                let kept =
                  branch-graft_below (first_of p c.below) q w g F d
                    (subst (λ z. 0 < times z (branch q F)) same l) in
                rw e (omega (arith, kept, times-head p c.value c.below nil))
            | inr e ↦ rw e (omega (arith, l, branch-graft L q w g F))
          ])

    near_parent :
        0 < times (first_of r kids) (branch p (tree r x kids nil))
        → 0 < times (first_of r (prune p kids)) (branch c.parent (tree r x (prune p kids) nil))
    near_parent l =
        let f = tree r x kids nil in
        let near =
          c.first_near r r
            (subst (λ z. 0 < times z (branch p f)) (sym (head-tree r x kids nil r)) l) in
        subst (λ z. 0 < times z (branch c.parent (tree r x (prune p kids) nil)))
          (head-tree r x (prune p kids) nil r)
          (subst (λ k. 0 < times (head_or (postorder k) r) (branch c.parent k)) pruned near)

    -- The four cases for the leftmost node, on a heap that holds the new tree.
    leftmost_moved :
        (h' : Heap T)
        → Holds h' none 0 moved
        → Distinct moved
        → depth moved < fuel
        → moved_extremum
            (inside (first_of r kids) (branch p (tree r x kids nil)))
            (w == first_of r kids)
            (leftmost_child_or_this fuel h')
            w
            c.parent
            (some (first_of r kids))
          ≡ ok (some (head_or (postorder moved) (suc w)))
    leftmost_moved h' held d deep =
        let f = tree r x kids nil in
        let F = tree r x (prune p kids) nil in
        let g = tree p c.value c.below nil in
        let L = first_of r kids in
        let L' = first_of r (prune p kids) in
        let dest' : 0 < times w F = subst (λ k. 0 < times w k) pruned dest in
        let parent' : 0 < times c.parent F = subst (λ k. 0 < times c.parent k) pruned c.kept in
        let d' : Distinct F = λ a. omega (arith, split a, m.distinct a) in
        let part = ap (times L) c.whole in
        let same : inside L (branch p f) ≡ false → L' ≡ L =
          λ e. head-prune p kids r (ground (arith, e, times-branch fuel p r x kids m under le L)) in
        let heldF : Holds c.heap none 0 F = subst (λ k. Holds c.heap none 0 k) pruned c.held in
        let own = times-branch_self c.heap F w heldF d' dest' in
        moved_extremum_lem (inside L (branch p f)) (w == L) (leftmost_child_or_this fuel h') w
          c.parent L (head_or (postorder moved) (suc w))
          (λ e e'. rw first_moved (ground (arith, same e, e')))
          (λ e e'.
            first_at fuel h' moved w (suc w) held d deep (omega (arith, dest', graft-grows w w g F))
              (first_in w
                (subst (λ z. 0 < times z (branch w F)) ((==_iff w L).0 e' ∙ sym (same e)) own)))
          (λ e.
            first_at fuel h' moved c.parent (suc w) held d deep
              (omega (arith, parent', graft-grows c.parent w g F))
              (first_in c.parent (near_parent (ground (arith, e)))))
          (λ e. elim (Bool-cases (w == L)) [
            | inl hit ↦
                let there : 0 < times w g =
                  subst (λ z. 0 < times z g) (sym ((==_iff w L).0 hit)) (ground (arith, e, part)) in
                absurd (omega (arith, dest', there, split w, m.distinct w))
            | inr miss ↦ miss
          ])

    -- Whether the end of the branch of last children of the rest is below the place.
    below_place : Bool
    below_place =
        last_or (preorder (tree r x (prune p kids) nil)) (suc w) == w
        || above w (tree r x (prune p kids) nil)

    same_place :
        below_place ≡ inside (last_of r (prune p kids)) (branch w (tree r x (prune p kids) nil))
    unfolding below_place
    same_place =
        let F = tree r x (prune p kids) nil in
        let d : Distinct F = λ a. omega (arith, split a, m.distinct a) in
        let heldF : Holds c.heap none 0 F = subst (λ k. Holds c.heap none 0 k) pruned c.held in
        let asked = on_branch c.heap w r x (prune p kids) heldF d in
        rw (last-tree r x (prune p kids) (suc w)) (rw (last-tree r x (prune p kids) r) at asked)

    same_update :
        (last_or (preorder (tree r x kids nil)) r == w || above w (tree r x kids nil))
        ≡ inside (last_of r kids) (branch w (tree r x kids nil))
    same_update =
        let asked = on_branch h w r x kids m.held m.distinct in
        asked ∙ ap (λ e. inside e (branch w (tree r x kids nil))) (last-tree r x kids r)

    last_moved :
        last_or (preorder moved) (suc w)
        ≡ (if below_place then last_of p c.below else last_of r (prune p kids))
    unfolding below_place
    last_moved =
        let F = tree r x (prune p kids) nil in
        last-graft w p c.value c.below F (suc w) (λ a. omega (arith, split a, m.distinct a))
          (omega arith)
        ∙ rw (last-tree r x (prune p kids) (suc w))

    last_in :
        (q : Ptr)
        → 0 < times (last_of r (prune p kids)) (branch q (tree r x (prune p kids) nil))
        → (below_place ≡ true → 0 < times w (branch q (tree r x (prune p kids) nil)))
        → 0 < times (last_or (preorder moved) (suc w)) (branch q moved)
    last_in q l place =
        let F = tree r x (prune p kids) nil in
        let g = tree p c.value c.below nil in
        let d : Distinct F = λ a. omega (arith, split a, m.distinct a) in
        let inner : 0 < times (last_of p c.below) g =
          subst (λ e. 0 < times e g) (last-tree p c.value c.below p) (times-last g p tt) in
        subst (λ e. 0 < times e (branch q (graft w g F))) (sym last_moved)
          (elim (Bool-cases below_place) [
            | inl e ↦
                let kept = branch-graft_below (last_of p c.below) q w g F d (place e) in
                rw e (omega (arith, kept, inner))
            | inr e ↦ rw e (omega (arith, l, branch-graft (last_of r (prune p kids)) q w g F))
          ])

    -- What is known of the end of the branch where it does not go.
    last_stays :
        inside (last_of r kids) (branch p (tree r x kids nil)) ≡ false
        → last_of r (prune p kids) ≡ last_of r kids
    last_stays e =
        last-prune p kids r
          (ground (arith, e, times-branch fuel p r x kids m under le (last_of r kids)))

    place_stays :
        inside (last_of r kids) (branch p (tree r x kids nil)) ≡ false
        → below_place
          ≡ (last_or (preorder (tree r x kids nil)) r == w || above w (tree r x kids nil))
    place_stays e =
        let f = tree r x kids nil in
        let R = last_of r kids in
        let away : times w (branch p f) ≡ 0 =
          omega (arith, dest, times-prune w p f, m.distinct w) in
        let kept = times-branch-prune R p w f m.distinct (ground (arith, e)) away in
        let kept' : times R (branch w (tree r x (prune p kids) nil)) ≡ times R (branch w f) =
          subst (λ k. times R (branch w k) ≡ times R (branch w f)) pruned kept in
        same_place
        ∙ ap (λ z. inside z (branch w (tree r x (prune p kids) nil))) (last_stays e)
        ∙ ap (λ n. ltb 0 n) kept'
        ∙ sym same_update

    -- Where it goes from below the place.
    place_kept :
        0 < times (last_of r kids) (branch p (tree r x kids nil))
        → 0 < times (last_of r kids) (branch w (tree r x kids nil))
        → below_place ≡ true
    place_kept l l' =
        let f = tree r x kids nil in
        let away : times w (branch p f) ≡ 0 =
          omega (arith, dest, times-prune w p f, m.distinct w) in
        let same = sym (last-tree r x kids r) in
        let kept =
          last-kept p w f r r m.distinct (subst (λ z. 0 < times z (branch p f)) same l)
            (subst (λ z. 0 < times z (branch w f)) same l') away in
        let kept' =
          subst (λ z. 0 < times z (branch w (tree r x (prune p kids) nil)))
            (last-tree r x (prune p kids) r)
            (subst (λ k. 0 < times (last_or (preorder k) r) (branch w k)) pruned kept) in
        rw same_place (ground (arith, kept'))

    near_last :
        0 < times (last_of r kids) (branch p (tree r x kids nil))
        → 0 < times (last_of r (prune p kids)) (branch c.parent (tree r x (prune p kids) nil))
    near_last l =
        let f = tree r x kids nil in
        let near =
          c.last_near r r (subst (λ z. 0 < times z (branch p f)) (sym (last-tree r x kids r)) l) in
        subst (λ z. 0 < times z (branch c.parent (tree r x (prune p kids) nil)))
          (last-tree r x (prune p kids) r)
          (subst (λ k. 0 < times (last_or (preorder k) r) (branch c.parent k)) pruned near)

    -- Where it goes from elsewhere, the place is below the parent if it is on the new branch.
    place_near :
        0 < times (last_of r kids) (branch p (tree r x kids nil))
        → times (last_of r kids) (branch w (tree r x kids nil)) ≡ 0
        → below_place ≡ true
        → 0 < times w (branch c.parent (tree r x (prune p kids) nil))
    place_near l out on =
        let F = tree r x (prune p kids) nil in
        let R' = last_of r (prune p kids) in
        let d' : Distinct F = λ a. omega (arith, split a, m.distinct a) in
        let on' : 0 < times R' (branch w F) = ground (arith, sym same_place ∙ on) in
        let both = nested R' c.parent w F d' (near_last l) on' in
        elim (dec_lt 0 (times c.parent (branch w F))) [
          | no other ↦ omega (arith, both, other)
          | yes above_it ↦
              let back = subst (λ k. 0 < times c.parent (branch w k)) (sym pruned) above_it in
              absurd (omega (arith, out, c.up w (last_of r kids) back l))
        ]

    -- The four cases for the rightmost node.
    rightmost_moved :
        (h' : Heap T)
        → Holds h' none 0 moved
        → Distinct moved
        → depth moved < fuel
        → moved_extremum
            (inside (last_of r kids) (branch p (tree r x kids nil)))
            (last_or (preorder (tree r x kids nil)) r == w || above w (tree r x kids nil))
            (rightmost_child_or_this fuel h')
            w
            c.parent
            (some (last_of r kids))
          ≡ ok (some (last_or (preorder moved) (suc w)))
    rightmost_moved h' held d deep =
        let f = tree r x kids nil in
        let F = tree r x (prune p kids) nil in
        let g = tree p c.value c.below nil in
        let R = last_of r kids in
        let d' : Distinct F = λ a. omega (arith, split a, m.distinct a) in
        let heldF : Holds c.heap none 0 F = subst (λ k. Holds c.heap none 0 k) pruned c.held in
        let dest' : 0 < times w F = subst (λ k. 0 < times w k) pruned dest in
        let parent' : 0 < times c.parent F = subst (λ k. 0 < times c.parent k) pruned c.kept in
        let own = times-branch_self c.heap F w heldF d' dest' in
        moved_extremum_all (inside R (branch p f)) (last_or (preorder f) r == w || above w f)
          (rightmost_child_or_this fuel h') w c.parent R (last_or (preorder moved) (suc w))
          (λ same. elim (Bool-cases (inside R (branch p f))) [
            | inl e ↦
                let l : 0 < times R (branch p f) = ground (arith, e) in
                let l' : 0 < times R (branch w f) =
                  ground (arith, sym same_update ∙ sym same ∙ e) in
                rw (last_moved, place_kept l l') (sym (last_same fuel p r x kids m under le c l))
            | inr e ↦ rw (last_moved, place_stays e ∙ sym same ∙ e) (sym (last_stays e))
          ])
          (λ e e'.
            last_at fuel h' moved w (suc w) held d deep (omega (arith, dest', graft-grows w w g F))
              (last_in w (ground (arith, sym same_place ∙ place_stays e ∙ e')) (λ on. own)))
          (λ e e'.
            last_at fuel h' moved c.parent (suc w) held d deep
              (omega (arith, parent', graft-grows c.parent w g F))
              (last_in c.parent (near_last (ground (arith, e)))
                (place_near (ground (arith, e)) (ground (arith, sym same_update ∙ e')))))

    -- What `move_subtree` returns, once the nodes have been linked.
    move_subtree_lem :
        (h' : Heap T) (last : Option Ptr)
        → insert_child c.heap w p ≡ ok h'
        → moved_extremum
            (inside (first_of r kids) (branch p (tree r x kids nil)))
            (w == first_of r kids)
            (leftmost_child_or_this fuel h')
            w
            c.parent
            (some (first_of r kids))
          ≡ ok (some (head_or (postorder moved) (suc w)))
        → moved_extremum
            (inside (last_of r kids) (branch p (tree r x kids nil)))
            (last_or (preorder (tree r x kids nil)) r == w || above w (tree r x kids nil))
            (rightmost_child_or_this fuel h')
            w
            c.parent
            (some (last_of r kids))
          ≡ ok last
        → move_subtree fuel h t w p
          ≡ ok (
            h',
            record t { leftmost = some (head_or (postorder moved) (suc w)); rightmost = last },
          )
    unfolding move_subtree load would_change_leftmost
    move_subtree_lem h' last inserted first_ok last_ok =
        let f = tree r x kids nil in
        let end : 0 < times (last_of r kids) f =
          subst (λ e. 0 < times e f) (last-tree r x kids r) (times-last f r tt) in
        let old_last = m.points.2 ∙ ap some (sym (last-tree r x kids r)) in
        let updating = would_change_rightmost_lem fuel h t w r x kids m.held old_last le in
        rw (updating, m.points.1, m.points.2)
          (rw (
            reaches-branch fuel h p (first_of r kids) f m.held m.distinct (times-head r x kids nil)
                le,
            reaches-branch fuel h p (last_of r kids) f m.held m.distinct end le,
            c.branch_held.0,
            c.removed,
            inserted,
            first_ok,
            last_ok,
          ))

    place_same :
        (last_or (preorder (tree r x (prune p kids) nil)) r == w
          || above w (tree r x (prune p kids) nil))
        ≡ below_place
    unfolding below_place
    place_same = rw (last-tree r x (prune p kids) r)

    move_from :
        depth (graft w (tree p c.value c.below nil) (prune p (tree r x kids nil))) < fuel
        → (h' : Heap T) × (t' : UnsafeTree) × (move_subtree fuel h t w p ≡ ok (h', t'))
          × Models h' t' (graft w (branch p (tree r x kids nil)) (prune p (tree r x kids nil)))
    move_from deep =
        let f = tree r x kids nil in
        let F = tree r x (prune p kids) nil in
        let g = tree p c.value c.below nil in
        let dest' : 0 < times w F = subst (λ k. 0 < times w k) pruned dest in
        let parent' : 0 < times c.parent F = subst (λ k. 0 < times c.parent k) pruned c.kept in
        let deep' : depth moved < fuel = subst (λ k. depth (graft w g k) < fuel) pruned deep in
        let heldF : Holds c.heap none 0 F = subst (λ k. Holds c.heap none 0 k) pruned c.held in
        let held = Holds-frame c.heap (some c.parent) c.index g c.branch_held (λ a l.
          c.frame a (omega (arith, l, split a, m.distinct a, ap (λ k. times a k) pruned))) in
        let (n, at_w) = node_of c.heap none 0 w F heldF dest' in
        let out : times p F ≡ 0 = ground (arith, split p, m.distinct p) in
        let t0 : UnsafeTree = record t {
          leftmost = some (first_of r (prune p kids));
          rightmost = some (last_of r (prune p kids));
        } in
        let new =
          Models-grafted t0 w r x (prune p kids) p c.heap c.value c.below (some c.parent) c.index
            t.nodes at_w held.0 dest' heldF (m.points.0, refl, refl) held
            (λ a. omega (arith, split a, m.distinct a)) (λ a. omega (arith, split a, m.owned a)) in
        let h' = linked c.heap w n p (node c.value (some c.parent) c.index (roots c.below)) in
        let first = some (head_or (postorder moved) (suc w)) in
        let right = (grafted t0 w r x (prune p kids) p c.below t.nodes).rightmost in
        let first_eq : (grafted t0 w r x (prune p kids) p c.below t.nodes).leftmost ≡ first =
          rw first_moved (ground arith) in
        let inserted =
          insert_child-linked c.heap w p at_w held.0 (λ e. ne_of_times F dest' out (sym e)) in
        let last = some (last_or (preorder moved) (suc w)) in
        let last_eq : (grafted t0 w r x (prune p kids) p c.below t.nodes).rightmost ≡ last =
          rw (place_same, last_moved) (ground arith) in
        let t' : UnsafeTree = record t { leftmost = first; rightmost = last } in
        (
          h',
          t',
          move_subtree_lem h' last inserted (leftmost_moved h' new.held new.distinct deep')
              (rightmost_moved h' new.held new.distinct deep'),
          subst (λ k. Models h' t' (graft w (branch p f) k)) (sym pruned)
              (subst (λ k. Models h' t' (graft w k F)) (sym c.whole)
                (subst (λ e. Models h' (record t { leftmost = first; rightmost = e }) moved) last_eq
                  (subst (λ e. Models h' (record t { leftmost = e; rightmost = right }) moved)
                    first_eq new))),
        )

  -- With the tree that stands for a forest, a node below its root, a place outside its subtree, and
  -- rounds for the depth of the forest before and after, `move_subtree` returns a tree that stands for
  -- the forest with the subtree as the last child of the place.
  pub move_subtree-Models :
      {h : Heap T} {t : UnsafeTree} (fuel : ℕ) (p w r : Ptr) (x : T) (kids : Forest T)
      → Models h t (tree r x kids nil)
      → 0 < times p kids
      → 0 < times w (prune p (tree r x kids nil))
      → depth (tree r x kids nil) < fuel
      → depth (graft w (branch p (tree r x kids nil)) (prune p (tree r x kids nil))) < fuel
      → (h' : Heap T) × (t' : UnsafeTree) × (move_subtree fuel h t w p ≡ ok (h', t'))
        × Models h' t' (graft w (branch p (tree r x kids nil)) (prune p (tree r x kids nil)))
  move_subtree-Models {h} {t} fuel p w r x kids m under dest le le' =
      let f = tree r x kids nil in
      let c = cut_out fuel p r x kids m under le in
      move_from fuel p w r x kids m under dest le c
        (subst (λ k. depth (graft w k (prune p f)) < fuel) c.whole le')
