-- ===== src/Text/Contains.antt =====
-- `contains`, for one byte: `str.find(sub, found + 1)` and the loop around it read the string once.
use cpp_tools.Base.{
  ℕ, suc, ◌+◌, ◌≤◌, ◌<◌, Bool, true, false, [], ◌∷◌, ◌==◌, ◌≡◌, arith, if◌then◌else◌, ltb, leb,
  Bool-cases, inl, inr,
}
use cpp_tools.Text.Chars.{Text}

-- `while ((found = str.find(sub, found + 1)) != npos) { i++; if (i > n) return false; } return i == n;`
unfoldable count_to : Text → ℕ → ℕ → ℕ → Bool
count_to [] c i n = i == n
count_to (x ∷ s) c i n =
    let found = count_to s c (suc i) n in
    let rest = count_to s c i n in if x == c then if ltb n (suc i) then false else found else rest

-- `while ((found = str.find(sub, found + 1)) != npos) { i++; if (i == n) return true; } return false;`
unfoldable reach : Text → ℕ → ℕ → ℕ → Bool
reach [] c i n = false
reach (x ∷ s) c i n =
    let found = reach s c (suc i) n in
    let rest = reach s c i n in if x == c then if suc i == n then true else found else rest

unfoldable pub contains : Text → ℕ → ℕ → Bool → Bool
unfolding count_to reach
contains [] c n exact = n == 0
contains (x ∷ s) c n true = count_to (x ∷ s) c 0 n
contains (x ∷ s) c n false = if n == 0 then true else reach (x ∷ s) c 0 n

abbrev pub count : ℕ → Text → ℕ
count c [] = 0
count c (x ∷ s) = let n = count c s in if x == c then suc n else n

count_to-count : (s : Text) (c i n : ℕ) → i ≤ n → count_to s c i n ≡ (i + count c s == n)
unfolding count_to
count_to-count [] c i n h = ground arith
count_to-count (x ∷ s) c i n h =
    ground (arith, count_to-count s c (suc i) n, count_to-count s c i n)

reach-count : (s : Text) (c i n : ℕ) → i < n → reach s c i n ≡ leb n (i + count c s)
unfolding reach
reach-count [] c i n h = ground arith
reach-count (x ∷ s) c i n h = ground (arith, reach-count s c (suc i) n, reach-count s c i n)

-- `contains` compares how often the byte occurs with `n`: exactly that often where `exact` is set,
-- and at least that often where it is not.
pub contains-count :
    (s : Text) (c n : ℕ) (exact : Bool)
    → contains s c n exact ≡ (if exact then count c s == n else leb n (count c s))
unfolding contains
contains-count [] c n true = ground arith
contains-count [] c n false = ground arith
contains-count (x ∷ s) c n true = ground (arith, count_to-count (x ∷ s) c 0 n (omega arith))
contains-count (x ∷ s) c n false = elim (Bool-cases (n == 0)) [
  | inl none_asked ↦ ground arith
  | inr some_asked ↦ rw (some_asked, reach-count (x ∷ s) c 0 n (ground arith)) (ground arith)
]
