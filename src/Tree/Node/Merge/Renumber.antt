-- ===== src/Tree/Node/Merge/Renumber.antt =====
-- The two loops of `merge_child` over nodes: each keeps the forest below, under a new parent or at
-- new indices.
use cpp_tools.Base.{
  ℕ, suc, ◌+◌, List, Option-cases, inl, inr, [], ◌∷◌, ◌++◌, Option, some, ◌≡◌, refl, ◌∙◌, arith,
  length, map, append_assoc, length-append,
}
use cpp_tools.Base.Result.{ok, ◌>>=◌}
use cpp_tools.Tree.Store.{Ptr, Node, node, Heap, load, write, write_self, write_ne}
use cpp_tools.Tree.Forest.{Forest, nil, tree, roots, Distinct, Holds}
use cpp_tools.Tree.Graft.Frame.{Holds-frame, ne_of_times}
use cpp_tools.Tree.Unsafe.Model.{count}
use cpp_tools.Tree.Unsafe.Subtree.Prune.{count-roots}
use cpp_tools.Tree.Node.Merge.{Slots, adopt, renumber}
use cpp_tools.Tree.Node.Merge.Slots.{get_elem?-middle, set-middle}

module _ {ℓ} {T : Type ℓ} where
  -- The heap behind one step, where the root of the first tree has a new parent and index.
  relink-rest :
      (h : Heap T) (c : Option (Node T)) (q : Option Ptr) (i : ℕ) (p : Ptr) (v : T)
      (kids rest : Forest T)
      → Holds h q i rest
      → Distinct (tree p v kids rest)
      → Holds (write h p c) q i rest
  relink-rest h c q i p v kids rest s d =
      Holds-frame (write h p c) q i rest s
        (λ a l. write_ne h p a c (ne_of_times rest l (ground (arith, d p))))

  relink-tree :
      (h h' : Heap T) (q : Option Ptr) (i : ℕ) (p : Ptr) (v : T) (kids rest : Forest T)
      → Holds h (some p) 0 kids
      → Distinct (tree p v kids rest)
      → Holds h' q (suc i) rest
      → ((a : Ptr) → count a (roots rest) ≡ 0 → h' a ≡ write h p (some (node v q i (roots kids))) a)
      → Holds h' q i (tree p v kids rest)
  relink-tree h h' q i p v kids rest s d held same =
      let c = some (node v q i (roots kids)) in
      (
        same p (ground (arith, count-roots p rest, d p)) ∙ write_self h p c,
        Holds-frame h' (some p) 0 kids s (λ a l.
            same a (ground (arith, count-roots a rest, d a))
            ∙ write_ne h p a c (ne_of_times kids l (ground (arith, d p)))),
        held,
      )

  -- `renumber` gives the roots of a forest the indices from `i` on.
  pub renumber-Holds :
      (h : Heap T) (q : Option Ptr) (j i : ℕ) (f : Forest T)
      → Holds h q j f
      → Distinct f
      → (h' : Heap T) × (renumber h (roots f) i ≡ ok h')
        × Holds h' q i f
        × ((a : Ptr) → count a (roots f) ≡ 0 → h' a ≡ h a)
  unfolding renumber load
  renumber-Holds h q j i nil s d = (h, refl, tt, λ a z. refl)
  renumber-Holds h q j i (tree p v kids rest) s d =
      let c = some (node v q i (roots kids)) in
      let (h', e, held, same) =
        renumber-Holds (write h p c) q (suc j) (suc i) rest
          (relink-rest h c q (suc j) p v kids rest s.2 d) (λ a. ground (arith, d a)) in
      (
        h',
        rw s.0 e,
        relink-tree h h' q i p v kids rest s.1 d held same,
        λ a z. same a (omega arith) ∙ write_ne h p a c (ground arith),
      )

  -- `adopt` puts the roots of a forest in the slots between its new siblings, under a new parent.
  pub adopt-Holds :
      (h : Heap T) (this : Ptr) (q : Option Ptr) (i : ℕ) (f : Forest T) (left between right : Slots)
      → Holds h q i f
      → Distinct f
      → length between ≡ length (roots f)
      → (h' : Heap T) × (adopt this (roots f) h (left ++ (between ++ right)) (length left)
          ≡ ok (h', left ++ (map some (roots f) ++ right)))
        × Holds h' (some this) i f
        × ((a : Ptr) → count a (roots f) ≡ 0 → h' a ≡ h a)
  unfolding adopt load
  adopt-Holds h this q i nil left [] right s d e = (h, refl, tt, λ a z. refl)
  adopt-Holds h this q i nil left (x ∷ between) right s d e = absurd (omega arith)
  adopt-Holds h this q i (tree p v kids rest) left [] right s d e = absurd (omega arith)
  adopt-Holds h this q i (tree p v kids rest) left (x ∷ between) right s d e =
      let c = some (node v (some this) i (roots kids)) in
      let left' = left ++ some p ∷ [] in
      let (h', run, held, same) =
        adopt-Holds (write h p c) this q (suc i) rest left' between right
          (relink-rest h c q (suc i) p v kids rest s.2 d) (λ a. ground (arith, d a))
          (omega arith) in
      let regroup : (l : Slots) → left' ++ l ≡ left ++ some p ∷ l =
        λ l. append_assoc left (some p ∷ []) l in
      let next : length left' ≡ suc (length left) =
        omega (arith, length-append left (some p ∷ [])) in
      (
        h',
        rw
            (
              s.0,
              get_elem?-middle left x (between ++ right),
              set-middle left x (some p) (between ++ right),
            )
            (rw (regroup (between ++ right), regroup (map some (roots rest) ++ right), next) at
              run),
        relink-tree h h' (some this) i p v kids rest s.1 d held same,
        λ a z. same a (omega arith) ∙ write_ne h p a c (ground arith),
      )

  pub renumber-append :
      (h : Heap T) (front back : List Ptr) (i : ℕ)
      → renumber h (front ++ back) i
        ≡ (renumber h front i >>= λ h'. renumber h' back (i + length front))
  unfolding renumber load
  renumber-append h [] back i = let e : i + 0 ≡ i = omega arith in rw e
  renumber-append h (c ∷ front) back i = elim (Option-cases (h c)) [
    | inl e ↦ rw e
    | inr (m, e) ↦
        let next : i + suc (length front) ≡ suc i + length front = omega arith in
        rw (e, next)
          (renumber-append (write h c (some (record m { sibling_index = i }))) front back (suc i))
  ]
