-- ===== src/Text/Tokens.antt =====
-- `tokenize`, with `std::getline` on the string's stream.
pub mod Cut
pub mod Read
use cpp_tools.Base.{
  ℕ, zero, suc, ◌+◌, ◌<◌, Bool, true, false, not, ◌&&◌, List, [], ◌∷◌, ◌++◌, Option, none, some,
  ◌==◌, ◌≡◌, if◌then◌else◌, length,
}
use cpp_tools.Base.Result.{Result, ok, out_of_fuel, ◌>>=◌}
use cpp_tools.Tree.Node.{last?}
use cpp_tools.Text.Chars.{Text}
use cpp_tools.Text.Contains.{contains}

-- What stands before the first delimiter, and what is left behind it.
abbrev pub take_line : ℕ → Text → Text × Text
take_line c [] = ([], [])
take_line c (x ∷ s) = let rest = take_line c s in if x == c then ([], s) else (x ∷ rest.0, rest.1)

-- `std::getline`: no line where nothing is left to extract.
abbrev pub getline : ℕ → Text → Option (Text × Text)
getline c [] = none
getline c (x ∷ s) = some (take_line c (x ∷ s))

abbrev pub is_empty : Text → Bool
is_empty [] = true
is_empty (x ∷ s) = false

abbrev pub push_token : Bool → Text → List Text → List Text
push_token discard_empty token tokens =
    if discard_empty && is_empty token then tokens else token ∷ tokens

-- The loop over `std::getline`; each round but the last takes a byte off the stream.
unfoldable pub read_tokens : ℕ → Bool → ℕ → Text → Result (List Text)
read_tokens zero discard_empty c s = out_of_fuel
read_tokens (suc n) discard_empty c s = elim (getline c s) [
  | none ↦ ok []
  | some line ↦ do
    tokens ← read_tokens n discard_empty c line.1
    ok (push_token discard_empty line.0 tokens)
]

-- `str.back() == delimiter`
abbrev pub ends_with : Text → ℕ → Bool
ends_with s c = elim (last? s) [ none ↦ false | some b ↦ b == c ]

unfoldable pub tokenize : Text → ℕ → Bool → Result (List Text)
tokenize s c discard_empty =
    if not (contains s c 1 false)
    then ok (if is_empty s && discard_empty then [] else s ∷ [])
    else do
      tokens ← read_tokens (suc (length s)) discard_empty c s
      ok (if ends_with s c && not discard_empty then tokens ++ [] ∷ [] else tokens)
