-- ===== src/Cli/Input/Reading.antt =====
-- What a line of the input is read as, where an `int` is read (`read_as` of cpptools/cli/input.hpp): it always ends,
-- and only an empty line is undefined.
use cpp_tools.Base.{ℕ, [], ◌∷◌, some, ◌==◌, ◌≡◌, ◌≢◌, refl, Bool-cases, inl, inr, arith, ◌^◌}
use cpp_tools.Base.Result.{Result, fault, out_of_fuel, ok}
use cpp_tools.Base.Run.{undefined, no_fuel, of_result, ◌>>=◌}
use cpp_tools.Text.Chars.{Text}
use cpp_tools.Text.Pop.{pop_cr, pop_if_back}
use cpp_tools.Text.Decimal.{stoi, negative, convert}
use cpp_tools.Tree.Node.{last?}
use cpp_tools.Cli.Input.{an_int, read_as, parse_int}

negative-ends : (half : ℕ) (s : Text) → negative half s ≢ no_fuel
negative-ends half [] e = cc
negative-ends half (x ∷ s) e = ground arith

convert-ends : (half : ℕ) (s : Text) → convert half s ≢ no_fuel
unfolding convert
convert-ends half [] e = cc
convert-ends half (x ∷ s) e = elim (Bool-cases (x == b'-')) [
  | inl minus ↦ negative-ends half s (rw minus at e)
  | inr other ↦ absurd (ground arith)
]

parse_int-ends : (s : Text) → parse_int s ≢ no_fuel
unfolding parse_int stoi
parse_int-ends s e = ground (arith, convert-ends (2 ^ 31) s)

read-ends :
    (popped : Result Text) (line : Text)
    → popped ≢ out_of_fuel
    → (of_result popped >>= λ input. parse_int input) ≢ no_fuel
read-ends fault line h e = cc
read-ends out_of_fuel line h e = h refl
read-ends (ok s) line h e = parse_int-ends s e

pop_cr-ends : (line : Text) → pop_cr line ≢ out_of_fuel
unfolding pop_cr pop_if_back
pop_cr-ends line e = ground arith

pub read_as-ends : (line : Text) → read_as an_int line ≢ no_fuel
unfolding read_as
read_as-ends line e = read-ends (pop_cr line) line (pop_cr-ends line) e

negative-defined : (half : ℕ) (s : Text) → negative half s ≢ undefined
negative-defined half [] e = cc
negative-defined half (x ∷ s) e = ground arith

convert-defined : (half : ℕ) (s : Text) → convert half s ≢ undefined
unfolding convert
convert-defined half [] e = cc
convert-defined half (x ∷ s) e = elim (Bool-cases (x == b'-')) [
  | inl minus ↦ negative-defined half s (rw minus at e)
  | inr other ↦ absurd (ground arith)
]

parse_int-defined : (s : Text) → parse_int s ≢ undefined
unfolding parse_int stoi
parse_int-defined s e = ground (arith, convert-defined (2 ^ 31) s)

last-some : (x : ℕ) (s : Text) → (b : ℕ) × (last? (x ∷ s) ≡ some b)
last-some x [] = (x, refl)
last-some x (y ∷ s) = last-some y s

-- Only an empty line is undefined when it is read.
pop_cr-fault : (line : Text) → pop_cr line ≡ fault → line ≡ []
unfolding pop_cr pop_if_back
pop_cr-fault [] e = refl
pop_cr-fault (x ∷ s) e = let (b, last) = last-some x s in cc (rw last at e)

read-undefined :
    (popped : Result Text) (line : Text)
    → (popped ≡ fault → line ≡ [])
    → (of_result popped >>= λ input. parse_int input) ≡ undefined
    → line ≡ []
read-undefined fault line h e = h refl
read-undefined out_of_fuel line h e = cc
read-undefined (ok s) line h e = absurd (parse_int-defined s e)

pub read_as-undefined : (line : Text) → read_as an_int line ≡ undefined → line ≡ []
unfolding read_as
read_as-undefined line e = read-undefined (pop_cr line) line (pop_cr-fault line) e
