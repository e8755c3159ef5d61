-- ===== src/Tree/Unsafe/Subtree/Delete.antt =====
-- `_delete_subtree_nodes` destroys the nodes of a subtree, and no other.
use cpp_tools.Base.{
  ℕ, zero, suc, ◌+◌, ◌≤◌, ◌<◌, List, [], Option, none, some, ◌==◌, ◌≡◌, refl, sym, ap, ◌∙◌, inl,
  inr, arith, Bool-cases, false, ==_iff,
}
use cpp_tools.Base.Result.{ok, bind-ok}
use native.Mathlib.Decide.{dec_lt}
use cpp_tools.Tree.Store.{Ptr, Node, node, Heap, load, write, write_self, write_ne}
use cpp_tools.Tree.Forest.{Forest, nil, tree, roots, depth, times, Distinct, Holds}
use cpp_tools.Tree.Node.{release_children}
use cpp_tools.Tree.Graft.Frame.{Holds-frame, ne_of_times}
use cpp_tools.Tree.Unsafe.{disown}
use cpp_tools.Tree.Unsafe.Model.{count}
use cpp_tools.Tree.Unsafe.Owned.{count-disown}
use cpp_tools.Tree.Unsafe.Subtree.{for_each, delete_subtree_nodes}

module _ {ℓ} {T : Type ℓ} where
  -- From the heap `h` and the nodes `xs` to `h'` and `ys` without the nodes of the forest.
  pub record Deleted (f : Forest T) (h : Heap T) (xs : List Ptr) (h' : Heap T) (ys : List Ptr)
      : Type ℓ where
    pub gone : (a : Ptr) → 0 < times a f → h' a ≡ none
    pub same : (a : Ptr) → times a f ≡ 0 → h' a ≡ h a
    pub left : (a : Ptr) → count a ys + times a f ≡ count a xs

  module _ (p : Ptr) (v : T) (kids rest : Forest T) (h h2 h4 : Heap T) (bare : Option (Node T))
      (xs ys zs : List Ptr) (d : Distinct (tree p v kids rest))
      (m : Deleted kids (write h p bare) xs h2 ys) where
    -- Behind the children and the node itself.
    same_behind : (a : Ptr) → (a == p) ≡ false → times a kids ≡ 0 → write h2 p none a ≡ h a
    same_behind a o z =
        write_ne h2 p a none (ground (arith, o))
        ∙ m.same a z
        ∙ write_ne h p a bare (ground (arith, o))

    gone_behind : (a : Ptr) → 0 < times a (tree p v kids nil) → write h2 p none a ≡ none
    gone_behind a l = elim (Bool-cases (a == p)) [
      | inl here ↦ ap (write h2 p none) ((==_iff a p).0 here) ∙ write_self h2 p none
      | inr other ↦ write_ne h2 p a none (ground (arith, other)) ∙ m.gone a (ground arith)
    ]

    Deleted-tree :
        Deleted rest (write h2 p none) (disown p ys) h4 zs
        → ((a : Ptr) → times a (tree p v kids rest) ≤ count a xs)
        → Deleted (tree p v kids rest) h xs h4 zs
    Deleted-tree m' owned = record {
      gone = λ a l. elim (dec_lt 0 (times a rest)) [
        | yes beside ↦ m'.gone a beside
        | no elsewhere ↦ m'.same a (omega arith) ∙ gone_behind a (ground arith)
      ];
      same = λ a z. m'.same a (ground arith) ∙ same_behind a (ground arith) (ground arith);
      left = λ a. ground (arith, owned a, d a, m.left a, m'.left a, count-disown p a ys);
    }

  for_each-Deleted :
      (k : ℕ) (h : Heap T) (xs : List Ptr) (q : Option Ptr) (i : ℕ) (f : Forest T)
      → Holds h q i f
      → Distinct f
      → depth f ≤ k
      → ((a : Ptr) → times a f ≤ count a xs)
      → (h' : Heap T) × (ys : List Ptr) × (for_each (delete_subtree_nodes k) (roots f) (h, xs)
          ≡ ok (h', ys))
        × Deleted f h xs h' ys
  unfolding delete_subtree_nodes release_children load
  for_each-Deleted k h xs q i nil s d deep owned = (
    h,
    xs,
    refl,
    record { gone = λ a l. absurd (omega arith); same = λ a z. refl; left = λ a. omega arith },
  )
  for_each-Deleted zero h xs q i (tree p v kids rest) s d deep owned = absurd (omega arith)
  for_each-Deleted (suc k) h xs q i (tree p v kids rest) s d deep owned =
      let alone : times p kids ≡ 0 = ground (arith, d p) in
      let bare = some (node v q i []) in
      let h1 = write h p bare in
      let (h2, ys, e, m) =
        for_each-Deleted k h1 xs (some p) 0 kids
          (Holds-frame h1 (some p) 0 kids s.1
            (λ a l. write_ne h p a bare (ne_of_times kids l alone)))
          (λ a. ground (arith, d a)) (omega arith) (λ a. ground (arith, owned a)) in
      let h3 = write h2 p none in
      let count_left = λ (a : Ptr). count-disown p a ys in
      let (h4, zs, e', m') =
        for_each-Deleted (suc k) h3 (disown p ys) q (suc i) rest
          (Holds-frame h3 q (suc i) rest s.2 (λ a l.
            same_behind p v kids rest h h2 h3 bare xs ys [] d m a (ground (arith, d a))
              (ground (arith, d a))))
          (λ a. ground (arith, d a)) (omega arith)
          (λ a. ground (arith, owned a, d a, m.left a, count_left a)) in
      (h4, zs, rw (s.0, e) e', Deleted-tree p v kids rest h h2 h4 bare xs ys zs d m m' owned)

  pub delete_subtree_nodes-Deleted :
      (fuel : ℕ) (h : Heap T) (xs : List Ptr) (q : Option Ptr) (i : ℕ) (p : Ptr) (v : T)
      (kids : Forest T)
      → Holds h q i (tree p v kids nil)
      → Distinct (tree p v kids nil)
      → depth (tree p v kids nil) < fuel
      → ((a : Ptr) → times a (tree p v kids nil) ≤ count a xs)
      → (h' : Heap T) × (ys : List Ptr) × (delete_subtree_nodes fuel p (h, xs) ≡ ok (h', ys))
        × Deleted (tree p v kids nil) h xs h' ys
  delete_subtree_nodes-Deleted fuel h xs q i p v kids s d le owned =
      let (h', ys, e, m) =
        for_each-Deleted fuel h xs q i (tree p v kids nil) s d (omega arith) owned in
      (h', ys, sym (bind-ok _) ∙ e, m)
