-- ===== src/Text/Numbers.antt =====
-- `is_integer` and `parse_integer_sequence`.
pub mod Sequence
use cpp_tools.Base.{
  ℕ, suc, ◌+◌, ◌-◌, ◌*◌, ◌%◌, ◌^◌, Bool, true, false, ◌||◌, List, [], ◌∷◌, ◌==◌, ◌≡◌, refl, inl,
  inr, ◌⊎◌, if◌then◌else◌, Bool-cases, ltb, leb, arith, ◌↔◌, ==_iff,
}
use cpp_tools.Base.Result.{Result, ok, ◌>>=◌}
use cpp_tools.Text.Chars.{Text, is_digit, All}
use cpp_tools.Text.Tokens.{tokenize}

unfoldable pub all_digits : Text → Bool
all_digits [] = true
all_digits (x ∷ s) = let rest = all_digits s in if is_digit x then rest else false

unfoldable pub is_integer : Text → Bool → Bool
is_integer [] accept_minus = false
is_integer (x ∷ s) true = if is_digit x || x == b'-' then all_digits s else false
is_integer (x ∷ s) false = all_digits (x ∷ s)

abbrev pub Digit : ℕ → Type 0
Digit x = is_digit x ≡ true

all_digits_lem : (s : Text) → (all_digits s ≡ true) ↔ All Digit s
unfolding all_digits
all_digits_lem [] = (λ _. tt, λ _. refl)
all_digits_lem (x ∷ s) =
    (λ h. ground (arith, all_digits_lem s), λ h. rw (h.0) ((all_digits_lem s).1 h.1))

-- What `is_integer` accepts.
abbrev pub Numeral : Text → Bool → Type 0
Numeral s accept_minus =
    (x : ℕ) × (ds : Text) × (s ≡ x ∷ ds)
    × (Digit x ⊎ ((accept_minus ≡ true) × (x ≡ b'-')))
    × All Digit ds

is_integer-Numeral : (s : Text) (m : Bool) → is_integer s m ≡ true → Numeral s m
unfolding is_integer all_digits
is_integer-Numeral [] m h = cc
is_integer-Numeral (x ∷ s) true h = elim (Bool-cases (is_digit x)) [
  | inl digit ↦ (x, s, refl, inl digit, (all_digits_lem s).0 (rw digit at h))
  | inr other ↦ elim (Bool-cases (x == b'-')) [
    | inl minus ↦ (
      x,
      s,
      refl,
      inr (refl, (==_iff x b'-').0 minus),
      (all_digits_lem s).0 (rw (other, minus) at h),
    )
    | inr neither ↦ absurd (ground arith)
  ]
]
is_integer-Numeral (x ∷ s) false h =
    let (digit, rest) = (all_digits_lem (x ∷ s)).0 h in (x, s, refl, inl digit, rest)

Numeral-is_integer : (s : Text) (m : Bool) → Numeral s m → is_integer s m ≡ true
unfolding is_integer all_digits
Numeral-is_integer s true (x, ds, e, inl digit, rest) = rw (e, digit) ((all_digits_lem ds).1 rest)
Numeral-is_integer s true (x, ds, e, inr (allowed, minus), rest) =
    rw (e, minus) ((all_digits_lem ds).1 rest)
Numeral-is_integer s false (x, ds, e, inl digit, rest) =
    rw e ((all_digits_lem (x ∷ ds)).1 (digit, rest))
Numeral-is_integer s false (x, ds, e, inr (allowed, minus), rest) = cc

-- `is_integer` accepts a byte followed by digits, where the first byte is a digit, or a minus sign
-- that `accept_minus` allows; a lone minus sign is such a string.
pub is_integer_lem :
    (s : Text) (accept_minus : Bool) → (is_integer s accept_minus ≡ true) ↔ Numeral s accept_minus
is_integer_lem s m = (is_integer-Numeral s m, Numeral-is_integer s m)

-- `non_integer_action`
pub data NonIntegerAction : Type 0 where
  drop : NonIntegerAction
  zero : NonIntegerAction
  exception : NonIntegerAction

-- What `parse_integer_sequence` throws: of its own, with the index of the token, or out of `std::stoi`.
pub data Thrown : Type 0 where
  not_an_integer : ℕ → Thrown
  no_conversion : Thrown
  out_of_range : Thrown

pub data Parsed {ℓ} (A : Type ℓ) : Type ℓ where
  parsed : A → Parsed A
  thrown : Thrown → Parsed A

abbrev pub and_then {ℓ κ} : {A : Type ℓ} {B : Type κ} → Parsed A → (A → Parsed B) → Parsed B
and_then (parsed a) f = f a
and_then (thrown e) f = thrown e

-- The number that decimal digits stand for, after those already read.
abbrev pub value_from : ℕ → Text → ℕ
value_from n [] = n
value_from n (x ∷ s) = value_from (10 * n + (x - b'0')) s

abbrev pub value : Text → ℕ
value s = value_from 0 s

-- `std::stoi` on a token that `is_integer` accepts, converted to a `std::size_t` of 64 bits.
abbrev pub stoi : Text → Parsed ℕ
stoi [] = thrown no_conversion
stoi (x ∷ []) = if x == b'-' then thrown no_conversion else parsed (value (x ∷ []))
stoi (x ∷ y ∷ s) =
    if x == b'-'
    then (if leb (value (y ∷ s)) (2 ^ 31)
        then parsed ((2 ^ 64 - value (y ∷ s)) % 2 ^ 64)
        else thrown out_of_range)
    else if ltb (value (x ∷ y ∷ s)) (2 ^ 31)
    then parsed (value (x ∷ y ∷ s))
    else thrown out_of_range

-- The loop over the tokens, from the one at the index `n` on.
unfoldable pub parse_tokens : NonIntegerAction → ℕ → List Text → Parsed (List ℕ)
parse_tokens action n [] = parsed []
parse_tokens action n (t ∷ ts) =
    let rest = parse_tokens action (suc n) ts in
    if is_integer t true
    then and_then (stoi t) (λ i. and_then rest (λ is. parsed (i ∷ is)))
    else elim action [
      | drop ↦ rest
      | zero ↦ and_then rest (λ is. parsed (0 ∷ is))
      | exception ↦ thrown (not_an_integer n)
    ]

unfoldable pub parse_integer_sequence : Text → ℕ → NonIntegerAction → Result (Parsed (List ℕ))
parse_integer_sequence s delimiter action = do
  tokens ← tokenize s delimiter true
  ok (parse_tokens action 0 tokens)
