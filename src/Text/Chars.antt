-- ===== src/Text/Chars.antt =====
-- Bytes and what <cctype> says of them, in the "C" locale.
use Prim.Native.Char.{code}
use Prim.Native.String.{String}
use cpp_tools.Base.{ℕ, Bool, true, false, ◌&&◌, ◌||◌, List, [], ◌∷◌, ◌==◌, leb, ◌≡◌, arith}

abbrev pub Text : Type 0
Text = List ℕ

-- The bytes of a literal, which is ASCII.
abbrev pub codes : String → Text
codes String.[] = []
codes (String.◌∷◌ c s) = code c ∷ codes s

abbrev pub cr : ℕ
cr = b'\r'

abbrev pub lf : ℕ
lf = b'\n'

-- `std::isdigit` and `std::isspace`.
abbrev pub is_digit : ℕ → Bool
is_digit c = leb b'0' c && leb c b'9'

abbrev pub is_space : ℕ → Bool
is_space c = c == b' ' || (leb 9 c && leb c 13)

abbrev pub text_eq : Text → Text → Bool
text_eq [] [] = true
text_eq [] (y ∷ ys) = false
text_eq (x ∷ xs) [] = false
text_eq (x ∷ xs) (y ∷ ys) = x == y && text_eq xs ys

module _ {ℓ κ} {A : Type ℓ} (P : A → Type κ) where
  -- Every member of a list has the property.
  abbrev pub All : List A → Type κ
  All [] = Unit
  All (member ∷ others) = P member × All others

pub eq_of_text_eq : (xs ys : Text) → text_eq xs ys ≡ true → xs ≡ ys
eq_of_text_eq [] [] h = cc
eq_of_text_eq [] (y ∷ ys) h = cc
eq_of_text_eq (x ∷ xs) [] h = cc
eq_of_text_eq (x ∷ xs) (y ∷ ys) h = ground (arith, eq_of_text_eq xs ys)

pub text_eq_self : (xs : Text) → text_eq xs xs ≡ true
text_eq_self [] = cc
text_eq_self (x ∷ xs) = ground (arith, text_eq_self xs)
