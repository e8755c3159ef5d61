-- ===== src/Tree/Iterator/Inverse.antt =====
-- `operator--` undoes `operator++`, in both orders.
use cpp_tools.Base.{
  ℕ, ◌≤◌, ◌<◌, List, [], ◌∷◌, Option, none, some, ◌==◌, ◌≡◌, ap, sym, ◌∙◌, arith, inl, inr,
  Bool-cases, ==_iff,
}
use cpp_tools.Base.Result.{Result, ok}
use cpp_tools.Tree.Store.{Ptr, Heap}
use cpp_tools.Tree.Forest.{Forest, nil, tree, times, depth}
use cpp_tools.Tree.Traversal.Visits.{finish, Visits, VisitsBack}
use cpp_tools.Tree.Unsafe.{UnsafeTree}
use cpp_tools.Tree.Unsafe.Model.{Models, count}
use cpp_tools.Tree.Iterator.{Order, dfs_next, dfs_previous, dfs_last, increment, decrement}
use cpp_tools.Tree.Iterator.Forward.{nodes_in, root-Visits}
use cpp_tools.Tree.Iterator.Reverse.{root-VisitsBack, dfs_last-finish, count-nodes_in}

-- The position `it` leads back to `p`: by the step, or as the last node from past the end.
abbrev LeadsBack : (Ptr → Result (Option Ptr)) → Option Ptr → Option Ptr → Ptr → Type 0
LeadsBack back last none p = last ≡ some p
LeadsBack back last (some q) p = back q ≡ ok (some p)

module _ (next back : Ptr → Result (Option Ptr)) (p : Ptr) where
  next_back :
      (b : Option Ptr) (xs : List Ptr)
      → Visits next xs none
      → VisitsBack back b xs
      → 0 < count p xs
      → (it : Option Ptr) × (next p ≡ ok it) × LeadsBack back (finish b xs) it p
  next_back b [] v w l = absurd (omega arith)
  next_back b (x ∷ []) v w l =
      let e : p ≡ x = ground arith in (none, ap next e ∙ v.0, ap some (sym e))
  next_back b (x ∷ y ∷ xs) v w l = elim (Bool-cases (p == x)) [
    | inl hit ↦
        let e : p ≡ x = (==_iff p x).0 hit in
        (some y, ap next e ∙ v.0, w.1.0 ∙ ap (λ z. ok (some z)) (sym e))
    | inr miss ↦ next_back (some x) (y ∷ xs) v.1 w.1 (ground arith)
  ]

module _ {ℓ} {T : Type ℓ} where
  LeadsBack-decrement :
      (o : Order) (fuel : ℕ) (h : Heap T) (t : UnsafeTree) (it : Option Ptr) (p : Ptr)
      → LeadsBack (dfs_previous o fuel h) (dfs_last o t) it p
      → decrement o fuel h t it ≡ ok (some p)
  unfolding decrement
  LeadsBack-decrement o fuel h t none p e = ap ok e
  LeadsBack-decrement o fuel h t (some q) p e = e

  -- From an iterator at any node of a tree, `operator++` leads somewhere, past the end included, from
  -- where `operator--` leads back to that node, in either order and with fuel for the depth.
  pub decrement-increment :
      (o : Order) (fuel : ℕ) (h : Heap T) (t : UnsafeTree) (r : Ptr) (v : T) (kids : Forest T)
      (p : Ptr)
      → Models h t (tree r v kids nil)
      → depth (tree r v kids nil) ≤ fuel
      → 0 < times p (tree r v kids nil)
      → (it : Option Ptr) × (increment o fuel h (some p) ≡ ok it)
        × (decrement o fuel h t it ≡ ok (some p))
  unfolding increment
  decrement-increment o fuel h t r v kids p m le inside =
      let f = tree r v kids nil in
      let (it, forth, back) =
        next_back (dfs_next o fuel h) (dfs_previous o fuel h) p none (nodes_in o f)
          (root-Visits o fuel h r v kids m.held le) (root-VisitsBack o fuel h r v kids m.held le)
          (omega (arith, count-nodes_in o p f)) in
      (
        it,
        forth,
        LeadsBack-decrement o fuel h t it p (rw (dfs_last-finish o t r v kids m.points) back),
      )
