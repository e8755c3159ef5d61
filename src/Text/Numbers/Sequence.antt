-- ===== src/Text/Numbers/Sequence.antt =====
-- What `parse_integer_sequence` returns and throws.
use cpp_tools.Base.{
  ℕ, suc, ◌+◌, ◌<◌, ◌^◌, true, false, List, [], ◌∷◌, ◌++◌, map, ◌==◌, ◌≡◌, refl, ap, inl, ltb,
  arith, length,
}
use mathlib.Core.Path.{subst}
use cpp_tools.Base.Result.{ok}
use cpp_tools.Text.Chars.{Text, All}
use cpp_tools.Text.Tokens.Cut.{pieces, nonempty}
use cpp_tools.Text.Tokens.Read.{tokenize-pieces}
use cpp_tools.Text.Numbers.{
  Digit, is_integer, is_integer_lem, NonIntegerAction, drop, zero, exception, not_an_integer,
  Parsed, parsed, thrown, and_then, value, stoi, parse_tokens, parse_integer_sequence,
}

-- A token of decimal digits whose value an `int` holds.
abbrev pub Decimal : Text → Type 0
Decimal [] = ⊥
Decimal (x ∷ s) = Digit x × All Digit s × (value (x ∷ s) < 2 ^ 31)

Digit-is_no_minus : (x : ℕ) → Digit x → (x == b'-') ≡ false
Digit-is_no_minus x h = ground arith

stoi-Decimal : (t : Text) → Decimal t → stoi t ≡ parsed (value t)
stoi-Decimal [] h = absurd h
stoi-Decimal (x ∷ []) h = rw (Digit-is_no_minus x h.0)
stoi-Decimal (x ∷ y ∷ s) h =
    let small : ltb (value (x ∷ y ∷ s)) (2 ^ 31) ≡ true = ground (arith, h.2) in
    rw (Digit-is_no_minus x h.0, small)

is_integer-Decimal : (t : Text) → Decimal t → is_integer t true ≡ true
is_integer-Decimal [] h = absurd h
is_integer-Decimal (x ∷ s) h = (is_integer_lem (x ∷ s) true).1 (x, s, refl, inl h.0, h.1)

parse_tokens-Decimal :
    (action : NonIntegerAction) (n : ℕ) (ts : List Text)
    → All Decimal ts
    → parse_tokens action n ts ≡ parsed (map value ts)
unfolding parse_tokens
parse_tokens-Decimal action n [] h = refl
parse_tokens-Decimal action n (t ∷ ts) h =
    rw (is_integer-Decimal t h.0, stoi-Decimal t h.0, parse_tokens-Decimal action (suc n) ts h.1)

-- Where every nonempty token is a decimal numeral below 2^31, `parse_integer_sequence` returns their
-- values in order, whichever action it is given.
pub parse_integer_sequence-values :
    (s : Text) (delimiter : ℕ) (action : NonIntegerAction)
    → All Decimal (nonempty (pieces delimiter s))
    → parse_integer_sequence s delimiter action
      ≡ ok (parsed (map value (nonempty (pieces delimiter s))))
unfolding parse_integer_sequence
parse_integer_sequence-values s delimiter action h = rw (
  tokenize-pieces s delimiter true,
  parse_tokens-Decimal action 0 (nonempty (pieces delimiter s)) h,
)

-- What is left of a sequence behind a token that is no integer.
abbrev pub after_bad : NonIntegerAction → ℕ → Parsed (List ℕ) → Parsed (List ℕ)
after_bad drop n rest = rest
after_bad zero n rest = and_then rest (λ is. parsed (0 ∷ is))
after_bad exception n rest = thrown (not_an_integer n)

-- The numbers read so far, in front of what the rest gives.
abbrev pub put_all : List ℕ → Parsed (List ℕ) → Parsed (List ℕ)
put_all [] rest = rest
put_all (i ∷ is) rest = and_then (put_all is rest) (λ js. parsed (i ∷ js))

parse_tokens-bad :
    (action : NonIntegerAction) (n k : ℕ) (good : List Text) (bad : Text) (more : List Text)
    → n + length good ≡ k
    → All Decimal good
    → is_integer bad true ≡ false
    → parse_tokens action n (good ++ bad ∷ more)
      ≡ put_all (map value good) (after_bad action k (parse_tokens action (suc k) more))
unfolding parse_tokens
parse_tokens-bad drop n k [] bad more at decimal h =
    subst
      (λ k. parse_tokens drop n (bad ∷ more) ≡ after_bad drop k (parse_tokens drop (suc k) more))
      (let same : n ≡ k = omega arith in same) (rw h)
parse_tokens-bad zero n k [] bad more at decimal h =
    subst
      (λ k. parse_tokens zero n (bad ∷ more) ≡ after_bad zero k (parse_tokens zero (suc k) more))
      (let same : n ≡ k = omega arith in same) (rw h)
parse_tokens-bad exception n k [] bad more at decimal h =
    subst
      (λ k.
        parse_tokens exception n (bad ∷ more)
        ≡ after_bad exception k (parse_tokens exception (suc k) more))
      (let same : n ≡ k = omega arith in same) (rw h)
parse_tokens-bad action n k (t ∷ good) bad more at decimal h = rw (
  is_integer-Decimal t decimal.0,
  stoi-Decimal t decimal.0,
  parse_tokens-bad action (suc n) k good bad more (omega arith) decimal.1 h,
)

-- At the first token that is no integer, behind decimal numerals below 2^31, `drop` goes on behind it,
-- `zero` puts a zero in its place, and `exception` throws with the token's index.
pub parse_integer_sequence-bad :
    (s : Text) (delimiter : ℕ) (action : NonIntegerAction) (good : List Text) (bad : Text)
    (more : List Text)
    → nonempty (pieces delimiter s) ≡ good ++ bad ∷ more
    → All Decimal good
    → is_integer bad true ≡ false
    → parse_integer_sequence s delimiter action
      ≡ ok (
          let n = length good in
          put_all (map value good) (after_bad action n (parse_tokens action (suc n) more)))
unfolding parse_integer_sequence
parse_integer_sequence-bad s delimiter action good bad more split decimal h =
    rw (tokenize-pieces s delimiter true, split)
      (ap (λ r. ok r)
        (parse_tokens-bad action 0 (length good) good bad more (omega arith) decimal h))
