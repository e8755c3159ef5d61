-- ===== src/Text/Decimal.antt =====
-- `std::to_string` of a number, and `std::stoi` on a string that `is_integer` accepts, which the prompts and
-- the menus use.
use cpp_tools.Base.{
  ℕ, zero, suc, ◌+◌, ◌-◌, ◌*◌, ◌/◌, ◌%◌, ◌^◌, ◌≤◌, ◌<◌, true, false, [], ◌∷◌, ◌==◌, ◌≡◌, refl, sym,
  ◌∙◌, inl, inr, arith, if◌then◌else◌, ltb, leb, ap, Bool-cases,
}
use cpp_tools.Base.Run.{Run, done, throws}
use cpp_tools.Base.Int.{ℤ, pos, negsuc, difference, int_min, int_max, ◌≤ℤ◌, plus_part, minus_part}
use cpp_tools.Text.Chars.{Text, All}
use cpp_tools.Text.Numbers.{Digit, is_integer, is_integer_lem, value_from, value}

-- The digits of `n` in front of those already written, by a loop with `rounds` rounds.
digits : ℕ → ℕ → Text → Text
digits zero n out = out
digits (suc rounds) n out =
    let more = digits rounds (n / 10) ((b'0' + n % 10) ∷ out) in
    if ltb n 10 then (b'0' + n % 10) ∷ out else more

unfoldable pub decimal : ℕ → Text
unfolding digits
decimal n = digits (suc n) n []

-- `std::to_string`
unfoldable pub to_string : ℤ → Text
unfolding decimal
to_string (pos n) = decimal n
to_string (negsuc n) = b'-' ∷ decimal (suc n)

pub data StoiError : Type 0 where
  invalid_argument out_of_range : StoiError

-- Behind the minus sign, for the type whose least value is `- half`; a conversion needs a digit.
abbrev pub negative : ℕ → Text → Run StoiError ℤ
negative half [] = throws invalid_argument
negative half (x ∷ s) =
    if leb (value (x ∷ s)) half then done (difference 0 (value (x ∷ s))) else throws out_of_range

abbrev pub positive : ℕ → Text → Run StoiError ℤ
positive half s = if ltb (value s) half then done (pos (value s)) else throws out_of_range

unfoldable pub convert : ℕ → Text → Run StoiError ℤ
convert half [] = throws invalid_argument
convert half (x ∷ s) = if x == b'-' then negative half s else positive half (x ∷ s)

unfoldable pub stoi : Text → Run StoiError ℤ
unfolding convert
stoi s = convert (2 ^ 31) s

-- `std::stoll`
unfoldable pub stoll : Text → Run StoiError ℤ
unfolding convert
stoll s = convert (2 ^ 63) s

-- Reading the digits gives the number back.
value-digits :
    (rounds n : ℕ) (out : Text) → n < rounds → value_from 0 (digits rounds n out) ≡ value_from n out
unfolding digits
value-digits zero n out h = absurd (omega arith)
value-digits (suc rounds) n out h = elim (Bool-cases (ltb n 10)) [
  | inl small ↦ rw small (
      ap (λ k. value_from k out)
        (let same : 10 * 0 + (b'0' + n % 10 - b'0') ≡ n = ground arith in same))
  | inr large ↦
      rw (large, value-digits rounds (n / 10) ((b'0' + n % 10) ∷ out) (ground arith))
        (ap (λ k. value_from k out)
          (let same : 10 * (n / 10) + (b'0' + n % 10 - b'0') ≡ n = omega arith in same))
]

-- What the loop writes: digits, and at least one.
digits-Digit :
    (rounds n : ℕ) (out : Text)
    → n < rounds
    → All Digit out
    → (x : ℕ) × (s : Text) × (digits rounds n out ≡ x ∷ s) × Digit x × All Digit s
unfolding digits
digits-Digit zero n out h all = absurd (omega arith)
digits-Digit (suc rounds) n out h all = elim (Bool-cases (ltb n 10)) [
  | inl small ↦ rw small (b'0' + n % 10, out, refl, ground arith, all)
  | inr large ↦
      rw large
        (digits-Digit rounds (n / 10) ((b'0' + n % 10) ∷ out) (ground arith) (ground arith, all))
]

pub value-decimal : (n : ℕ) → value (decimal n) ≡ n
unfolding decimal
value-decimal n = value-digits (suc n) n [] (omega arith)

pub decimal-Digit : (n : ℕ) → (x : ℕ) × (s : Text) × (decimal n ≡ x ∷ s) × Digit x × All Digit s
unfolding decimal
decimal-Digit n = digits-Digit (suc n) n [] (omega arith) tt

pub is_integer-to_string : (z : ℤ) → is_integer (to_string z) true ≡ true
unfolding to_string
is_integer-to_string (pos n) =
    let (x, s, e, digit, all) = decimal-Digit n in
    (is_integer_lem (decimal n) true).1 (x, s, e, inl digit, all)
is_integer-to_string (negsuc n) =
    let (x, s, e, digit, all) = decimal-Digit (suc n) in
    let digits : All Digit (decimal (suc n)) = rw e (digit, all) in
    (is_integer_lem (b'-' ∷ decimal (suc n)) true).1
      (b'-', decimal (suc n), refl, inr (refl, refl), digits)

positive-small :
    (half : ℕ) (s : Text) (n : ℕ) → value s ≡ n → n < half → positive half s ≡ done (pos n)
positive-small half s n e h = rw (positive, e) (ground (arith, h))

negative-small :
    (half : ℕ) (s : Text) (x n : ℕ) (more : Text)
    → s ≡ x ∷ more
    → value s ≡ suc n
    → suc n ≤ half
    → negative half s ≡ done (negsuc n)
negative-small half s x n more cut e h =
    let same : value (x ∷ more) ≡ suc n = sym (ap value cut) ∙ e in
    rw (cut, same) (ground (arith, h))

convert-to_string :
    (half : ℕ) (z : ℤ)
    → minus_part z ≤ half
    → plus_part z < half
    → convert half (to_string z) ≡ done z
unfolding convert to_string
convert-to_string half (pos n) low high =
    let (x, s, e, digit, all) = decimal-Digit n in
    let other : (x == b'-') ≡ false = ground arith in
    rw (e, other) (rw (← e) (positive-small half (decimal n) n (value-decimal n) high))
convert-to_string half (negsuc n) low high =
    let (x, s, e, digit, all) = decimal-Digit (suc n) in
    negative-small half (decimal (suc n)) x n s e (value-decimal (suc n)) low

-- What `std::to_string` writes of an `int` is read back.
pub stoi-to_string : (z : ℤ) → int_min ≤ℤ z → z ≤ℤ int_max → stoi (to_string z) ≡ done z
unfolding stoi
stoi-to_string (pos n) low high = convert-to_string (2 ^ 31) (pos n) (omega arith) (omega arith)
stoi-to_string (negsuc n) low high =
    convert-to_string (2 ^ 31) (negsuc n) (omega arith) (omega arith)

-- The values of a `long long` of 64 bits.
abbrev pub long_min : ℤ
long_min = negsuc (2 ^ 63 - 1)

abbrev pub long_max : ℤ
long_max = pos (2 ^ 63 - 1)

pub stoll-to_string : (z : ℤ) → long_min ≤ℤ z → z ≤ℤ long_max → stoll (to_string z) ≡ done z
unfolding stoll
stoll-to_string (pos n) low high = convert-to_string (2 ^ 63) (pos n) (omega arith) (omega arith)
stoll-to_string (negsuc n) low high =
    convert-to_string (2 ^ 63) (negsuc n) (omega arith) (omega arith)
