-- ===== src/Text/Tests.antt =====
-- Runs of the string toolbox, and its theorems at concrete strings.
use cpp_tools.Base.{ℕ, true, false, [], ◌∷◌, ◌++◌, ◌≡◌, refl, arith}
use cpp_tools.Base.Result.{ok, fault}
use cpp_tools.Text.Chars.{Text, codes, is_space, All}
use cpp_tools.Text.Pop.{pop_char, pop_string, strip_cr}
use cpp_tools.Base.Run.{done}
use cpp_tools.Text.Comments.{strip_c_comments, comments, find, find_end}
use cpp_tools.Text.Comments.Strip.{strip_c_comments-strip}
use cpp_tools.Text.Trim.{trim, trim_parts, Space}
use cpp_tools.Text.Contains.{contains}
use cpp_tools.Text.Tokens.{read_tokens, tokenize}
use cpp_tools.Text.Tokens.Read.{tokenize-pieces}
use cpp_tools.Text.Columns.{multiline_concatenate, multiline_concatenate-beside}
use cpp_tools.Text.Numbers.{
  is_integer, all_digits, parse_tokens, parse_integer_sequence, drop, exception, thrown,
  not_an_integer, no_conversion,
}
use cpp_tools.Text.Numbers.Sequence.{parse_integer_sequence-bad}

abbrev commas : Text
commas = codes "1,,22"

trims : trim (codes "  a b\t ") ≡ codes "a b"
unfolding trim
trims = refl

pops : pop_string (codes "main.cpp") (codes ".cpp") ≡ codes "main"
unfolding pop_string
pops = refl

pops_char : pop_char (codes "path/") b'/' ≡ codes "path"
unfolding pop_char
pops_char = refl

strips : strip_cr (codes "\r\na\r") ≡ codes "\na"
unfolding strip_cr
strips = refl

tokens_kept : tokenize (codes ",a,") b',' false ≡ ok (codes "" ∷ codes "a" ∷ codes "" ∷ [])
unfolding tokenize contains read_tokens
tokens_kept = refl

tokens_discarded : tokenize (codes ",a,") b',' true ≡ ok (codes "a" ∷ [])
unfolding tokenize contains read_tokens
tokens_discarded = refl

-- A lone minus sign passes for an integer, and `std::stoi` throws on it.
lone_minus : parse_integer_sequence (codes "-") b',' drop ≡ ok (thrown no_conversion)
unfolding parse_integer_sequence tokenize contains parse_tokens is_integer all_digits
lone_minus = refl

trim_parts_example :
    (before : Text) × (after : Text) × (codes " a " ≡ before ++ trim (codes " a ") ++ after)
    × All Space before
    × All Space after
    × ((c : ℕ) (r : Text) → trim (codes " a ") ≡ c ∷ r → is_space c ≡ false)
    × ((r : Text) (c : ℕ) → trim (codes " a ") ≡ r ++ c ∷ [] → is_space c ≡ false)
trim_parts_example = trim_parts (codes " a ")

tokenize-pieces_example : tokenize commas b',' false ≡ ok (codes "1" ∷ codes "" ∷ codes "22" ∷ [])
tokenize-pieces_example = tokenize-pieces commas b',' false

multiline_concatenate-beside_example :
    multiline_concatenate (codes "a\nb\r\nc") (codes "1\n2") ≡ ok (codes "a1\nb2\nc")
multiline_concatenate-beside_example =
    multiline_concatenate-beside (codes "a\nb\r\nc") (codes "1\n2")

-- A blank line in either text is undefined behaviour.
blank_line : multiline_concatenate (codes "a\n\nb") (codes "1") ≡ fault
blank_line = multiline_concatenate-beside (codes "a\n\nb") (codes "1")

x_is_no_integer : is_integer (codes "x") true ≡ false
unfolding is_integer all_digits
x_is_no_integer = refl

parse_integer_sequence-bad_example :
    parse_integer_sequence (codes "4,x,5") b',' exception ≡ ok (thrown (not_an_integer 1))
parse_integer_sequence-bad_example =
    parse_integer_sequence-bad (codes "4,x,5") b',' exception (codes "4" ∷ []) (codes "x")
      (codes "5" ∷ []) refl ((refl, tt, omega arith), tt) (x_is_no_integer)

-- Of two comments side by side the second stays: the search goes on one byte too far behind the first.
second_comment_stays : strip_c_comments (codes "a/*b*//*c*/d") ≡ done (codes "a/*c*/d")
unfolding strip_c_comments comments find find_end
second_comment_stays = refl

strip_c_comments-strip_example : strip_c_comments (codes "x//y\nz/*u*//v") ≡ done (codes "x\nz/v")
strip_c_comments-strip_example = strip_c_comments-strip (codes "x//y\nz/*u*//v")
