-- ===== src/Cli/Arguments/Values/Map.antt =====
-- The map of values as a function of the name, in the order that `std::map` keeps.
use Prim.Native.Nat.{Ordering}
use Prim.Native.Nat.Ordering.{lt, eq, gt}
use cpp_tools.Base.{
  ℕ, true, List, [], ◌∷◌, Option, none, some, ◌==◌, ◌||◌, ◌≡◌, ◌≢◌, refl, arith, if◌then◌else◌,
  Bool-cases, inl, inr, ◌⊎◌, ◌∙◌, sym, ap,
}
use cpp_tools.Text.Chars.{Text, text_eq, eq_of_text_eq, text_eq_self}
use cpp_tools.Cli.Arguments.{ArgumentName, name_eq}
use cpp_tools.Cli.Arguments.Values.{
  ValueMap, compare_text, compare_name, insert, first_short, first_long, is_some,
}

pub eq_of_name_eq : (n m : ArgumentName) → name_eq n m ≡ true → n ≡ m
eq_of_name_eq n m h = ground (arith, eq_of_text_eq n.long_name m.long_name)

name_eq_self : (n : ArgumentName) → name_eq n n ≡ true
name_eq_self n = ground (arith, text_eq_self n.long_name)

pub eq_of_compare_text : (s t : Text) → compare_text s t ≡ eq → s ≡ t
eq_of_compare_text [] [] h = refl
eq_of_compare_text [] (y ∷ t) h = cc
eq_of_compare_text (x ∷ s) [] h = cc
eq_of_compare_text (x ∷ s) (y ∷ t) h = ground (arith, eq_of_compare_text s t)

pub compare_text_self : (s : Text) → compare_text s s ≡ eq
compare_text_self [] = refl
compare_text_self (x ∷ s) = ground (arith, compare_text_self s)

pub compare_text_swap : (s t : Text) → compare_text s t ≡ gt → compare_text t s ≡ lt
compare_text_swap [] [] h = cc
compare_text_swap [] (y ∷ t) h = cc
compare_text_swap (x ∷ s) [] h = refl
compare_text_swap (x ∷ s) (y ∷ t) h = ground (arith, compare_text_swap s t)

eq_of_compare_name : (n m : ArgumentName) → compare_name n m ≡ eq → n ≡ m
eq_of_compare_name n m h = ground (arith, eq_of_compare_text n.long_name m.long_name)

compare_name_self : (n : ArgumentName) → compare_name n n ≡ eq
compare_name_self n = ground (arith, compare_text_self n.long_name)

compare_name_swap : (n m : ArgumentName) → compare_name n m ≡ gt → compare_name m n ≡ lt
compare_name_swap n m h = ground (
  arith,
  compare_text_swap n.long_name m.long_name,
  eq_of_compare_text n.long_name m.long_name,
  compare_text_self n.long_name,
)

-- The values that the map holds for a name.
abbrev pub get : ValueMap → ArgumentName → Option (List Text)
get [] name = none
get ((n, v) ∷ m) name = let rest = get m name in if name_eq n name then some v else rest

-- A function, changed at one name.
abbrev pub update :
    (ArgumentName → Option (List Text))
    → ArgumentName
    → List Text
    → ArgumentName
    → Option (List Text)
update f name values n = if name_eq name n then some values else f n

-- The names come in increasing order.
abbrev pub Above : ArgumentName → ValueMap → Type 0
Above n [] = Unit
Above n ((k, v) ∷ m) = compare_name n k ≡ lt

abbrev pub Sorted : ValueMap → Type 0
Sorted [] = Unit
Sorted ((n, v) ∷ m) = Above n m × Sorted m

pub Ordering-cases : (o : Ordering) → (o ≡ lt) ⊎ ((o ≡ eq) ⊎ (o ≡ gt))
Ordering-cases lt = inl refl
Ordering-cases eq = inr (inl refl)
Ordering-cases gt = inr (inr refl)

-- What `insert` does at an entry, in each case of the comparison.
insert-cases :
    (name : ArgumentName) (values : List Text) (k : ArgumentName) (v : List Text) (m : ValueMap)
    → ((compare_name name k ≡ lt) × (insert name values ((k, v) ∷ m) ≡ (name, values) ∷ (k, v) ∷ m))
      ⊎ (((name ≡ k) × (insert name values ((k, v) ∷ m) ≡ (k, values) ∷ m))
          ⊎ ((compare_name name k ≡ gt)
              × (insert name values ((k, v) ∷ m) ≡ (k, v) ∷ insert name values m)))
unfolding insert
insert-cases name values k v m = elim (Ordering-cases (compare_name name k)) [
  | inl h ↦ inl (h, rw (insert, h))
  | inr more ↦ elim more [
    | inl h ↦ inr (inl (eq_of_compare_name name k h, rw (insert, h)))
    | inr h ↦ inr (inr (h, rw (insert, h)))
  ]
]

apart_of_gt : (n k : ArgumentName) → compare_name n k ≡ gt → n ≢ k
apart_of_gt n k h e = cc (ap (λ b. compare_name n b) (sym e), compare_name_self n, h)

-- The entry for a name, after an insertion: two different names are not both equal to a third.
past_entry :
    (name k n : ArgumentName) (values v : List Text) (old : Option (List Text))
    → name ≢ k
    → (if name_eq k n then some v else if name_eq name n then some values else old)
      ≡ (if name_eq name n then some values else if name_eq k n then some v else old)
past_entry name k n values v old apart = elim (Bool-cases (name_eq name n)) [
  | inr other ↦ rw other
  | inl hit ↦ elim (Bool-cases (name_eq k n)) [
    | inr other ↦ rw (hit, other)
    | inl both ↦ absurd (apart (eq_of_name_eq name n hit ∙ sym (eq_of_name_eq k n both)))
  ]
]

-- As a function of the name, the map after `insert_or_assign` is the one before, changed at that name.
pub get-insert :
    (name : ArgumentName) (values : List Text) (m : ValueMap) (n : ArgumentName)
    → get (insert name values m) n ≡ update (get m) name values n
unfolding insert
get-insert name values [] n = refl
get-insert name values ((k, v) ∷ m) n = elim (insert-cases name values k v m) [
  | inl (h, e) ↦ rw e
  | inr more ↦ elim more [
    | inl (same, e) ↦ rw (e, same) (ground arith)
    | inr (h, e) ↦
        rw (e, get-insert name values m n)
          (past_entry name k n values v (get m n) (apart_of_gt name k h))
  ]
]

Above-insert :
    (b name : ArgumentName) (values : List Text) (m : ValueMap)
    → compare_name b name ≡ lt
    → Above b m
    → Above b (insert name values m)
unfolding insert
Above-insert b name values [] h above = h
Above-insert b name values ((k, v) ∷ m) h above = elim (insert-cases name values k v m) [
  | inl (lower, e) ↦ rw e h
  | inr more ↦ elim more [ inl (same, e) ↦ rw e above | inr (higher, e) ↦ rw e above ]
]

-- `insert_or_assign` keeps the names in increasing order, each once.
pub insert-Sorted :
    (name : ArgumentName) (values : List Text) (m : ValueMap)
    → Sorted m
    → Sorted (insert name values m)
unfolding insert
insert-Sorted name values [] sorted = (tt, tt)
insert-Sorted name values ((k, v) ∷ m) sorted = elim (insert-cases name values k v m) [
  | inl (lower, e) ↦ rw e (lower, sorted)
  | inr more ↦ elim more [
    | inl (same, e) ↦ rw e sorted
    | inr (higher, e) ↦ rw e (
      Above-insert k name values m (compare_name_swap name k higher) sorted.0,
      insert-Sorted name values m sorted.1,
    )
  ]
]

pub first_short-insert :
    (c : ℕ) (name : ArgumentName) (values : List Text) (m : ValueMap)
    → (name.short_name == c || is_some (first_short c m)) ≡ true
    → is_some (first_short c (insert name values m)) ≡ true
unfolding insert
first_short-insert c name values [] h = ground arith
first_short-insert c name values ((k, v) ∷ m) h = elim (insert-cases name values k v m) [
  | inl (lower, e) ↦ rw e (ground arith)
  | inr more ↦ elim more [
    | inl (same, e) ↦ rw e (ground (arith, ap (λ (n : ArgumentName). n.short_name) same))
    | inr (higher, e) ↦ rw e (ground (arith, first_short-insert c name values m))
  ]
]

pub first_long-insert :
    (s : Text) (name : ArgumentName) (values : List Text) (m : ValueMap)
    → (text_eq name.long_name s || is_some (first_long s m)) ≡ true
    → is_some (first_long s (insert name values m)) ≡ true
unfolding insert
first_long-insert s name values [] h = ground arith
first_long-insert s name values ((k, v) ∷ m) h = elim (insert-cases name values k v m) [
  | inl (lower, e) ↦ rw e (ground arith)
  | inr more ↦ elim more [
    | inl (same, e) ↦
        let names : text_eq name.long_name s ≡ text_eq k.long_name s =
          ap (λ (n : ArgumentName). text_eq n.long_name s) same in
        rw e (ground (arith, names))
    | inr (higher, e) ↦ rw e (ground (arith, first_long-insert s name values m))
  ]
]
