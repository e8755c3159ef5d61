-- ===== src/Tree/Unsafe/Emplace.antt =====
-- The two cases of `emplace_node`: below a node, and as the root.
use cpp_tools.Base.{
  ℕ, ◌+◌, ◌≤◌, ◌<◌, true, ◌||◌, ◌∷◌, none, some, ◌==◌, ◌≡◌, ◌≢◌, refl, sym, ap, ◌∙◌, inl, inr,
  arith, Bool-cases, ==_iff,
}
use cpp_tools.Base.Result.{ok}
use mathlib.Core.Path.{subst}
use cpp_tools.Tree.Store.{Ptr, node, Heap, write, write_self, write_ne}
use cpp_tools.Tree.Forest.{Forest, nil, tree, roots, preorder, depth, times, Distinct, Holds}
use cpp_tools.Tree.Node.{make}
use cpp_tools.Tree.Node.Descend.{last_or}
use cpp_tools.Tree.Graft.{graft, linked, insert_child-linked, Holds-graft}
use cpp_tools.Tree.Graft.Frame.{Holds-frame, ne_of_times, node_of}
use cpp_tools.Tree.Graft.Ends.{above, head-tree, last-tree}
use cpp_tools.Tree.Graft.Climbs.{has_parent-last}
use cpp_tools.Tree.Unsafe.{UnsafeTree, would_change_rightmost, emplace_below, emplace_root}
use cpp_tools.Tree.Unsafe.Model.{Models}
use cpp_tools.Tree.Unsafe.Grafted.{grafted, Models-grafted}

module _ {ℓ} {T : Type ℓ} where
  pub would_change_rightmost_lem :
      (fuel : ℕ) (h : Heap T) (t : UnsafeTree) (w r : Ptr) (x : T) (kids : Forest T)
      → Holds h none 0 (tree r x kids nil)
      → t.rightmost ≡ some (last_or (preorder (tree r x kids nil)) r)
      → depth (tree r x kids nil) < fuel
      → would_change_rightmost fuel h t w
        ≡ ok (last_or (preorder (tree r x kids nil)) r == w || above w (tree r x kids nil))
  unfolding would_change_rightmost
  would_change_rightmost_lem fuel h t w r x kids held last le =
      let up = has_parent-last h w fuel 0 (tree r x kids nil) r held tt le in
      rw (last, up) (ground arith)

  -- A tree in memory stays where it is when a node is made elsewhere.
  Holds-fresh :
      (h : Heap T) (fresh : Ptr) (v : T) (f : Forest T)
      → Holds h none 0 f
      → times fresh f ≡ 0
      → Holds (write h fresh (some (make v))) none 0 f
  Holds-fresh h fresh v f held out =
      Holds-frame (write h fresh (some (make v))) none 0 f held
        (λ a l. write_ne h fresh a (some (make v)) (ne_of_times f l out))

  module _ (fresh : Ptr) (v : T) (w r : Ptr) (x : T) (kids : Forest T) where
    new_leaf-apart :
        Distinct (tree r x kids nil)
        → times fresh (tree r x kids nil) ≡ 0
        → (a : Ptr) → times a (tree r x kids nil) + times a (tree fresh v nil nil) ≤ 1
    new_leaf-apart d out a = elim (Bool-cases (a == fresh)) [
      | inl e ↦
          let none_there : times a (tree r x kids nil) ≡ 0 =
            ap (λ b. times b (tree r x kids nil)) ((==_iff a fresh).0 e) ∙ out in
          rw none_there (ground arith)
      | inr e ↦ ground (arith, d a)
    ]

    new_root-Distinct :
        Distinct (tree r x kids nil)
        → times fresh (tree r x kids nil) ≡ 0
        → Distinct (tree fresh v (tree r x kids nil) nil)
    new_root-Distinct d out a = elim (Bool-cases (a == fresh)) [
      | inl e ↦
          let none_there : times a (tree r x kids nil) ≡ 0 =
            ap (λ b. times b (tree r x kids nil)) ((==_iff a fresh).0 e) ∙ out in
          ground (arith, none_there)
      | inr e ↦ ground (arith, d a)
    ]

    pub emplace_below-Models :
        {h : Heap T} {t : UnsafeTree} (fuel : ℕ)
        → Models h t (tree r x kids nil)
        → 0 < times w (tree r x kids nil)
        → times fresh (tree r x kids nil) ≡ 0
        → depth (tree r x kids nil) < fuel
        → (h' : Heap T) × (t' : UnsafeTree) × (emplace_below fuel h t w fresh v ≡ ok (h', t'))
          × Models h' t' (graft w (tree fresh v nil nil) (tree r x kids nil))
    unfolding emplace_below
    emplace_below-Models {h} {t} fuel m inside out le =
        let f = tree r x kids nil in
        let h1 = write h fresh (some (make v)) in
        let held1 = Holds-fresh h fresh v f m.held out in
        let (n, at_w) = node_of h1 none 0 w f held1 inside in
        let at_c = write_self h fresh (some (make v)) in
        let apart : fresh ≢ w = λ e. ne_of_times f inside out (sym e) in
        let old_last = m.points.2 ∙ ap some (sym (last-tree r x kids r)) in
        (
          linked h1 w n fresh (make v),
          grafted t w r x kids fresh nil (fresh ∷ t.nodes),
          rw (
            would_change_rightmost_lem fuel h1 (record t { nodes = fresh ∷ t.nodes }) w r x kids
                held1 old_last le,
            insert_child-linked h1 w fresh at_w at_c apart,
          ),
          Models-grafted t w r x kids fresh h1 v nil none 0 (fresh ∷ t.nodes) at_w at_c inside held1
              m.points (at_c, tt, tt) (λ a. new_leaf-apart m.distinct out a)
              (λ a. omega (arith, m.owned a)),
        )

    -- The old tree hangs under the new root.
    pub emplace_root-Models :
        {h : Heap T} {t : UnsafeTree}
        → Models h t (tree r x kids nil)
        → times fresh (tree r x kids nil) ≡ 0
        → (h' : Heap T) × (t' : UnsafeTree) × (emplace_root h t fresh v ≡ ok (h', t'))
          × Models h' t' (tree fresh v (tree r x kids nil) nil)
    unfolding emplace_root
    emplace_root-Models {h} {t} m out =
        let f = tree r x kids nil in
        let h1 = write h fresh (some (make v)) in
        let held1 = Holds-fresh h fresh v f m.held out in
        let at_w = write_self h fresh (some (make v)) in
        let apart : r ≢ fresh = λ e. ne_of_times f (ground arith) out e in
        let same : (fresh == fresh) ≡ true = (==_iff fresh fresh).1 refl in
        let under : graft fresh f (tree fresh v nil nil) ≡ tree fresh v f nil = rw same in
        let t' : UnsafeTree = record {
          nodes = fresh ∷ t.nodes;
          root = some fresh;
          leftmost = t.leftmost;
          rightmost = t.rightmost;
        } in
        (
          linked h1 fresh (make v) r (node x none 0 (roots kids)),
          t',
          rw (m.points.0, insert_child-linked h1 fresh r at_w held1.0 apart),
          record {
            held =
                subst
                  (λ k. Holds (linked h1 fresh (make v) r (node x none 0 (roots kids))) none 0 k)
                  under
                  (Holds-graft h1 fresh r at_w held1.0 apart none 0 (tree fresh v nil nil) x kids
                    none 0 (at_w, tt, tt) (λ a. ground arith) (ground arith) held1 out
                    (ground (arith, m.distinct r)));
            distinct = λ a. new_root-Distinct m.distinct out a;
            owned = λ a. omega (arith, m.owned a);
            points = (
              refl,
              m.points.1 ∙ ap some (sym (head-tree r x kids nil fresh)),
              m.points.2 ∙ ap some (sym (last-tree r x kids fresh)),
            );
          },
        )

  pub emplace_root_empty :
      {h : Heap T} {t : UnsafeTree} (fresh : Ptr) (v : T)
      → Models h t nil
      → (h' : Heap T) × (t' : UnsafeTree) × (emplace_root h t fresh v ≡ ok (h', t'))
        × Models h' t' (tree fresh v nil nil)
  unfolding emplace_root
  emplace_root_empty {h} {t} fresh v m =
      let t' : UnsafeTree = record {
        nodes = fresh ∷ t.nodes;
        root = some fresh;
        leftmost = some fresh;
        rightmost = some fresh;
      } in
      (
        write h fresh (some (make v)),
        t',
        rw m.points.0,
        record {
          held = (write_self h fresh (some (make v)), tt, tt);
          distinct = λ a. ground arith;
          owned = λ a. omega (arith, m.owned a);
          points = (refl, refl, refl);
        },
      )
