-- ===== src/Text/RangeTests.antt =====
-- Intervals and lists of strings, written and read.
use cpp_tools.Base.{false, [], ◌∷◌, some, ◌≡◌, refl, arith}
use cpp_tools.Base.Result.{ok}
use cpp_tools.Base.Run.{done, throws}
use cpp_tools.Base.Int.{pos, negsuc}
use cpp_tools.Text.Chars.{codes}
use cpp_tools.Text.Contains.{contains}
use cpp_tools.Text.Tokens.{tokenize, read_tokens}
use cpp_tools.Text.Tokens.Cut.{pieces}
use cpp_tools.Text.Numbers.{is_integer, all_digits}
use cpp_tools.Text.Decimal.{to_string, decimal, stoi, stoll, invalid_argument, long_min}
use cpp_tools.Text.Range.{
  written, interval, parse_int_range, parse_int_range-interval, from_range, tokenize-from_range,
}

one_value : parse_int_range (codes "7") b':' ≡ done (pos 7, pos 7)
unfolding parse_int_range tokenize contains is_integer all_digits stoi
one_value = refl

three_tokens : parse_int_range (codes "1:2:3") b':' ≡ throws invalid_argument
unfolding parse_int_range tokenize contains read_tokens
three_tokens = refl

right_missing : parse_int_range (codes "5:") b':' ≡ done (pos 5, long_min)
unfolding parse_int_range tokenize contains read_tokens is_integer all_digits stoll
right_missing = refl

listed :
    from_range
      (codes "a" ∷ codes "b" ∷ [])
      (codes ", ")
      (codes "[")
      (codes "]")
      (codes "<")
      (codes ">")
    ≡ codes "[<a>, <b>]"
unfolding from_range
listed = refl

cut : pieces b':' (codes "9:-4") ≡ written (some (pos 9)) ∷ written (some (negsuc 3)) ∷ []
unfolding to_string decimal
cut = refl

parse_int_range-interval_example :
    parse_int_range (codes "9:-4") b':' ≡ done (interval (some (pos 9)) (some (negsuc 3)))
parse_int_range-interval_example =
    parse_int_range-interval (codes "9:-4") b':' (some (pos 9)) (some (negsuc 3)) cut (omega arith)
      (omega arith)

tokenize-from_range_example :
    tokenize (from_range (codes "a" ∷ codes "" ∷ codes "b" ∷ []) (b',' ∷ []) [] [] [] []) b',' false
    ≡ ok (codes "a" ∷ codes "" ∷ codes "b" ∷ [])
tokenize-from_range_example =
    tokenize-from_range b',' (codes "a") (codes "" ∷ codes "b" ∷ []) (refl, (refl, (refl, tt)))
