-- ===== src/Tree/Unsafe/Subtree/Transfer.antt =====
-- `_move_node_ptrs_recursive` hands over the nodes of a subtree, each once.
use cpp_tools.Base.{
  ℕ, zero, suc, ◌+◌, ◌≤◌, ◌<◌, true, List, [], ◌∷◌, Option, some, inl, inr, Bool-cases, ==_iff,
  ◌==◌, ◌≡◌, refl, sym, ◌∙◌, arith, if◌then◌else◌,
}
use cpp_tools.Base.Result.{ok, bind-ok}
use cpp_tools.Tree.Store.{Ptr, Heap, load}
use cpp_tools.Tree.Forest.{Forest, nil, tree, roots, depth, times, Holds}
use cpp_tools.Tree.Unsafe.Model.{count}
use cpp_tools.Tree.Unsafe.Owned.{count-disown}
use cpp_tools.Tree.Unsafe.Subtree.{for_each, Handover, owns, transfer, move_node_ptrs}

owns-count : (a : Ptr) (xs : List Ptr) → 0 < count a xs → owns xs a ≡ true
owns-count a [] l = absurd (omega arith)
owns-count a (x ∷ xs) l = ground (arith, owns-count a xs)

pub nil-count : (xs : List Ptr) → ((a : Ptr) → count a xs ≡ 0) → xs ≡ []
nil-count [] none_there = refl
nil-count (x ∷ xs) none_there = absurd (ground (arith, none_there x))

transfer-count :
    (p a : Ptr) (from to : List Ptr)
    → 0 < count p from
    → (count a (transfer p (from, to)).0 + (if a == p then 1 else 0) ≡ count a from)
      × (count a (transfer p (from, to)).1 ≡ count a to + (if a == p then 1 else 0))
transfer-count p a from to l =
    rw (owns-count p from l, count-disown p a from)
      (elim (Bool-cases (a == p)) [
        | inl e ↦ let same : a ≡ p = (==_iff a p).0 e in rw same (ground (arith, l))
        | inr e ↦ ground arith
      ])

module _ {ℓ} {T : Type ℓ} where
  -- The nodes of the forest have gone from the one list to the other.
  pub record Moved (f : Forest T) (s s' : Handover) : Type 0 where
    pub left : (a : Ptr) → count a s'.0 + times a f ≡ count a s.0
    pub right : (a : Ptr) → count a s'.1 ≡ count a s.1 + times a f

  pub for_each-Moved :
      (k : ℕ) (h : Heap T) (q : Option Ptr) (i : ℕ) (f : Forest T) (s : Handover)
      → Holds h q i f
      → depth f ≤ k
      → ((a : Ptr) → times a f ≤ count a s.0)
      → (s' : Handover) × (for_each (move_node_ptrs k h) (roots f) s ≡ ok s') × Moved f s s'
  unfolding move_node_ptrs load
  for_each-Moved k h q i nil s held deep owned =
      (s, refl, record { left = λ a. omega arith; right = λ a. omega arith })
  for_each-Moved zero h q i (tree p v kids rest) s held deep owned = absurd (omega arith)
  for_each-Moved (suc k) h q i (tree p v kids rest) s held deep owned =
      let here : 0 < count p s.0 = ground (arith, owned p) in
      let step = λ (a : Ptr). transfer-count p a s.0 s.1 here in
      let (s1, e1, m1) =
        for_each-Moved k h (some p) 0 kids (transfer p s) held.1 (omega arith)
          (λ a. ground (arith, owned a, step a)) in
      let (s2, e2, m2) =
        for_each-Moved (suc k) h q (suc i) rest s1 held.2 (omega arith)
          (λ a. ground (arith, owned a, step a, m1.left a)) in
      (
        s2,
        rw (held.0, e1) e2,
        record {
          left = λ a. omega (arith, step a, m1.left a, m2.left a);
          right = λ a. omega (arith, step a, m1.right a, m2.right a);
        },
      )

  pub move_node_ptrs-Moved :
      (fuel : ℕ) (h : Heap T) (q : Option Ptr) (i : ℕ) (p : Ptr) (v : T) (kids : Forest T)
      → Holds h q i (tree p v kids nil)
      → (from to : List Ptr) → depth (tree p v kids nil) < fuel
      → ((a : Ptr) → times a (tree p v kids nil) ≤ count a from)
      → (s : Handover) × (move_node_ptrs fuel h p (from, to) ≡ ok s)
        × Moved (tree p v kids nil) (from, to) s
  move_node_ptrs-Moved fuel h q i p v kids held from to le owned =
      let (s, e, m) =
        for_each-Moved fuel h q i (tree p v kids nil) (from, to) held (omega arith) owned in
      (s, sym (bind-ok _) ∙ e, m)
