-- ===== src/Cli/TextMap/Laws.antt =====
-- The map as a function of the key, and its order.
use Prim.Native.Nat.Ordering.{lt, gt}
use cpp_tools.Base.{
  true, false, [], ◌∷◌, Option, none, some, ◌≡◌, ◌⊎◌, refl, sym, ap, ◌∙◌, inl, inr, arith,
  Bool-cases, if◌then◌else◌,
}
use cpp_tools.Text.Chars.{Text, text_eq, eq_of_text_eq, text_eq_self}
use cpp_tools.Cli.Arguments.Values.{compare_text}
use cpp_tools.Cli.Arguments.Values.Map.{
  eq_of_compare_text, compare_text_self, compare_text_swap, Ordering-cases,
}
use cpp_tools.Cli.TextMap.{TextMap, find, insert, erase}

compare_text_trans :
    (s t u : Text) → compare_text s t ≡ lt → compare_text t u ≡ lt → compare_text s u ≡ lt
compare_text_trans [] [] u h k = cc
compare_text_trans [] (y ∷ t) [] h k = cc
compare_text_trans [] (y ∷ t) (z ∷ u) h k = refl
compare_text_trans (x ∷ s) [] u h k = cc
compare_text_trans (x ∷ s) (y ∷ t) [] h k = cc
compare_text_trans (x ∷ s) (y ∷ t) (z ∷ u) h k = ground (arith, compare_text_trans s t u)

apart_of_lt : (s t : Text) → compare_text s t ≡ lt → text_eq t s ≡ false
apart_of_lt s t h = elim (Bool-cases (text_eq t s)) [
  | inr other ↦ other
  | inl same ↦ cc (eq_of_text_eq t s same, compare_text_self s, h)
]

-- A key is not equal to two that differ.
other_key : (j k i : Text) → text_eq j k ≡ false → text_eq j i ≡ true → text_eq k i ≡ false
other_key j k i apart hit = elim (Bool-cases (text_eq k i)) [
  | inr other ↦ other
  | inl both ↦ let same : text_eq j k ≡ true = ap (text_eq j) (eq_of_text_eq k i both) ∙ hit in cc
]

module _ {ℓ} {V : Type ℓ} where
  abbrev pub Above : Text → TextMap V → Type 0
  Above k [] = Unit
  Above k ((j, v) ∷ m) = compare_text k j ≡ lt

  -- The keys come in increasing order, each once.
  abbrev pub Sorted : TextMap V → Type 0
  Sorted [] = Unit
  Sorted ((k, v) ∷ m) = Above k m × Sorted m

  find-Above : (k : Text) (m : TextMap V) → Above k m → Sorted m → find k m ≡ none
  find-Above k [] above sorted = refl
  find-Above k ((j, v) ∷ []) above sorted = rw (apart_of_lt k j above)
  find-Above k ((j, v) ∷ (i, w) ∷ m) above sorted =
      rw (apart_of_lt k j above)
        (find-Above k ((i, w) ∷ m) (compare_text_trans k j i above sorted.0) sorted.1)

  pub insert-cases :
      (k : Text) (v : V) (j : Text) (w : V) (m : TextMap V)
      → ((compare_text k j ≡ lt) × (insert k v ((j, w) ∷ m) ≡ (k, v) ∷ (j, w) ∷ m))
        ⊎ (((k ≡ j) × (insert k v ((j, w) ∷ m) ≡ (j, w) ∷ m))
            ⊎ ((compare_text k j ≡ gt) × (insert k v ((j, w) ∷ m) ≡ (j, w) ∷ insert k v m)))
  unfolding insert
  insert-cases k v j w m = elim (Ordering-cases (compare_text k j)) [
    | inl h ↦ inl (h, rw (insert, h))
    | inr more ↦ elim more [
      | inl h ↦ inr (inl (eq_of_compare_text k j h, rw (insert, h)))
      | inr h ↦ inr (inr (h, rw (insert, h)))
    ]
  ]

  swap_tests :
      (j k i : Text) (w : V) (v o : Option V)
      → text_eq j k ≡ false
      → (if text_eq j i then some w else if text_eq k i then v else o)
        ≡ (if text_eq k i then v else if text_eq j i then some w else o)
  swap_tests j k i w v o apart = elim (Bool-cases (text_eq j i)) [
    | inl hit ↦ rw (hit, other_key j k i apart hit)
    | inr other ↦ rw other
  ]

  found_first :
      (k j : Text) (m : TextMap V) (i : Text) (w : V)
      → j ≡ k
      → Above j m × Sorted m
      → find i m ≡ (if text_eq k i then none else if text_eq k i then some w else find i m)
  found_first k j m i w same sorted = elim (Bool-cases (text_eq k i)) [
    | inl hit ↦ rw hit (
        ap (λ t. find t m) (sym (eq_of_text_eq k i hit) ∙ sym same)
        ∙ find-Above j m sorted.0 sorted.1)
    | inr other ↦ rw other
  ]

  -- A new key, looked up among the others.
  pub find-insert :
      (k : Text) (v : V) (m : TextMap V) (i : Text)
      → find k m ≡ none
      → find i (insert k v m) ≡ (if text_eq k i then some v else find i m)
  unfolding insert
  find-insert k v [] i new = refl
  find-insert k v ((j, w) ∷ m) i new = elim (insert-cases k v j w m) [
    | inl (lower, e) ↦ rw e
    | inr more ↦ elim more [
      | inl (same, e) ↦ absurd (ground (arith, text_eq_self j, same))
      | inr (higher, e) ↦
          let apart : text_eq j k ≡ false = ground arith in
          let rest : find k m ≡ none = ground arith in
          rw (e, find-insert k v m i rest) (swap_tests j k i w (some v) (find i m) apart)
    ]
  ]

  Above-insert :
      (b k : Text) (v : V) (m : TextMap V)
      → compare_text b k ≡ lt
      → Above b m
      → Above b (insert k v m)
  unfolding insert
  Above-insert b k v [] h above = h
  Above-insert b k v ((j, w) ∷ m) h above = elim (insert-cases k v j w m) [
    | inl (lower, e) ↦ rw e h
    | inr more ↦ elim more [ inl (same, e) ↦ rw e above | inr (higher, e) ↦ rw e above ]
  ]

  pub insert-Sorted : (k : Text) (v : V) (m : TextMap V) → Sorted m → Sorted (insert k v m)
  unfolding insert
  insert-Sorted k v [] sorted = (tt, tt)
  insert-Sorted k v ((j, w) ∷ m) sorted = elim (insert-cases k v j w m) [
    | inl (lower, e) ↦ rw e (lower, sorted)
    | inr more ↦ elim more [
      | inl (same, e) ↦ rw e sorted
      | inr (higher, e) ↦ rw e (
        Above-insert j k v m (compare_text_swap k j higher) sorted.0,
        insert-Sorted k v m sorted.1,
      )
    ]
  ]

  Above-trans : (b k : Text) (m : TextMap V) → compare_text b k ≡ lt → Above k m → Above b m
  Above-trans b k [] h above = tt
  Above-trans b k ((j, v) ∷ m) h above = compare_text_trans b k j h above

  Above-erase : (b k : Text) (m : TextMap V) → Above b m → Sorted m → Above b (erase k m)
  unfolding erase
  Above-erase b k [] above sorted = tt
  Above-erase b k ((j, w) ∷ m) above sorted = elim (Bool-cases (text_eq j k)) [
    | inl same ↦ rw same (Above-trans b j m above sorted.0)
    | inr other ↦ rw other above
  ]

  pub erase-Sorted : (k : Text) (m : TextMap V) → Sorted m → Sorted (erase k m)
  unfolding erase
  erase-Sorted k [] sorted = tt
  erase-Sorted k ((j, w) ∷ m) sorted = elim (Bool-cases (text_eq j k)) [
    | inl same ↦ rw same sorted.1
    | inr other ↦ rw other (Above-erase j k m sorted.0 sorted.1, erase-Sorted k m sorted.1)
  ]

  pub find-erase :
      (k : Text) (m : TextMap V) (i : Text)
      → Sorted m
      → find i (erase k m) ≡ (if text_eq k i then none else find i m)
  unfolding erase
  find-erase k [] i sorted = ground arith
  find-erase k ((j, w) ∷ m) i sorted = elim (Bool-cases (text_eq j k)) [
    | inl same ↦
        let keys : text_eq j i ≡ text_eq k i = ap (λ t. text_eq t i) (eq_of_text_eq j k same) in
        rw (same, keys) (found_first k j m i w (eq_of_text_eq j k same) sorted)
    | inr other ↦ rw (other, find-erase k m i sorted.1) (swap_tests j k i w none (find i m) other)
  ]
