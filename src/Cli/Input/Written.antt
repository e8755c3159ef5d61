-- ===== src/Cli/Input/Written.antt =====
-- Integers as they are written and read: `std::to_string`, and the `int` version of `read_input`.
use cpp_tools.Base.{ℕ, suc, false, [], ◌∷◌, some, ◌==◌, ◌≡◌, refl, arith}
use cpp_tools.Base.Result.{ok}
use cpp_tools.Base.Run.{done}
use cpp_tools.Base.Int.{ℤ, pos, negsuc, int_min, int_max, ◌≤ℤ◌}
use cpp_tools.Tree.Node.{last?}
use cpp_tools.Text.Chars.{Text, All}
use cpp_tools.Text.Pop.{pop_cr, pop_if_back}
use cpp_tools.Text.Numbers.{Digit}
use cpp_tools.Text.Decimal.{decimal-Digit, to_string, is_integer-to_string, stoi-to_string}
use cpp_tools.Cli.Input.{an_int, parse_int, read_as}

last?-Digit : (x : ℕ) (s : Text) → All Digit (x ∷ s) → (b : ℕ) × (last? (x ∷ s) ≡ some b) × Digit b
last?-Digit x [] h = (x, refl, h.0)
last?-Digit x (y ∷ s) h = last?-Digit y s h.1

last?-to_string : (z : ℤ) → (b : ℕ) × (last? (to_string z) ≡ some b) × Digit b
unfolding to_string
last?-to_string (pos n) =
    let (x, s, e, digit, all) = decimal-Digit n in rw e (last?-Digit x s (digit, all))
last?-to_string (negsuc n) =
    let (x, s, e, digit, all) = decimal-Digit (suc n) in rw e (last?-Digit x s (digit, all))

pop_cr-to_string : (z : ℤ) → pop_cr (to_string z) ≡ ok (to_string z)
unfolding pop_cr pop_if_back
pop_cr-to_string z =
    let (b, last, digit) = last?-to_string z in
    let other : (b == b'\r') ≡ false = ground arith in rw (last, other)

-- Every `int` is read back from the line that `std::to_string` writes of it.
pub read_as-to_string :
    (z : ℤ) → int_min ≤ℤ z → z ≤ℤ int_max → read_as an_int (to_string z) ≡ done z
unfolding read_as parse_int
read_as-to_string z low high =
    rw (pop_cr-to_string z, is_integer-to_string z) (stoi-to_string z low high)
