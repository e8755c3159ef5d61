-- ===== src/Text/Range.antt =====
-- `parse_int_range` for `long long`, the one signed type for which its calls of `std::clamp` agree on their
-- arguments, and `from_range`.
use cpp_tools.Base.{
  ℕ, Bool, true, false, not, ◌&&◌, List, [], ◌∷◌, ◌++◌, Option, none, some, append-nil,
  append_assoc, ◌≡◌, refl, ap, ◌∙◌, inl, inr, arith, Bool-cases, if◌then◌else◌, ◌==◌,
}
use cpp_tools.Base.Result.{ok}
use cpp_tools.Base.Run.{Run, done, throws, of_result, ◌>>=◌}
use cpp_tools.Base.Int.{ℤ, pos, negsuc, ltb_ℤ, ◌≤ℤ◌}
use cpp_tools.Text.Chars.{Text, All}
use cpp_tools.Text.Tokens.{is_empty, tokenize}
use cpp_tools.Text.Contains.{count}
use cpp_tools.Text.Tokens.Cut.{pieces, pieces-none}
use cpp_tools.Text.Tokens.Read.{tokenize-pieces}
use cpp_tools.Text.Numbers.{is_integer}
use cpp_tools.Text.Decimal.{
  StoiError, invalid_argument, stoi, stoll, to_string, long_min, long_max, decimal-Digit,
  stoll-to_string, is_integer-to_string,
}

-- `std::clamp`
abbrev pub clamp : ℤ → ℤ → ℤ → ℤ
clamp v low high = if ltb_ℤ v low then low else if ltb_ℤ high v then high else v

-- The value of a boundary, which stays zero where it is missing.
abbrev pub read_boundary : Text → Run StoiError ℤ
read_boundary [] = done (pos 0)
read_boundary (x ∷ s) = stoll (x ∷ s)

-- The two boundaries in order; one that is missing is the least value.
abbrev pub arranged : Bool → Bool → ℤ → ℤ → ℤ × ℤ
arranged true true left right = if ltb_ℤ right left then (right, left) else (left, right)
arranged true false left right = (left, long_min)
arranged false true left right = (long_min, right)
arranged false false left right = (long_min, long_min)

abbrev pub clamped : Bool → ℤ → ℤ → ℤ
clamped present v missing = if present then clamp v long_min long_max else missing

-- A boundary that is there is an integer, or the function throws.
abbrev pub acceptable : Text → Bool
acceptable s = if is_empty s then true else is_integer s true

abbrev pub read_boundaries : Text → Text → Run StoiError (ℤ × ℤ)
read_boundaries left right = do
  parsed_left ← read_boundary left
  parsed_right ← read_boundary right
  done (
      arranged (not (is_empty left)) (not (is_empty right))
        (clamped (not (is_empty left)) parsed_left long_min)
        (clamped (not (is_empty right)) parsed_right long_max))

abbrev pub two_boundaries : Text → Text → Run StoiError (ℤ × ℤ)
two_boundaries left right =
    if is_empty left && is_empty right
    then done (long_min, long_max)
    else if not (acceptable left)
    then throws invalid_argument
    else if not (acceptable right)
    then throws invalid_argument
    else read_boundaries left right

abbrev pub boundaries : List Text → Run StoiError (ℤ × ℤ)
boundaries [] = throws invalid_argument
boundaries (t ∷ []) =
    if is_integer t true
    then (do parsed ← stoi t; done (parsed, parsed))
    else throws invalid_argument
boundaries (t ∷ u ∷ []) = two_boundaries t u
boundaries (t ∷ u ∷ v ∷ ts) = throws invalid_argument

unfoldable pub parse_int_range : Text → ℕ → Run StoiError (ℤ × ℤ)
parse_int_range s delimiter = do tokens ← of_result (tokenize s delimiter false); boundaries tokens

-- `from_range`, over the elements as strings.
abbrev pub elements : Text → Text → Text → List Text → Text
elements delimiter before behind [] = []
elements delimiter before behind (t ∷ []) = before ++ t ++ behind
elements delimiter before behind (t ∷ u ∷ ts) =
    (before ++ t ++ behind) ++ delimiter ++ elements delimiter before behind (u ∷ ts)

unfoldable pub from_range : List Text → Text → Text → Text → Text → Text → Text
from_range ts delimiter prefix suffix elt_prefix elt_suffix =
    prefix ++ elements delimiter elt_prefix elt_suffix ts ++ suffix

-- A boundary as it is written: nothing, where it is missing.
abbrev pub written : Option ℤ → Text
written none = []
written (some z) = to_string z

abbrev pub IsLong : Option ℤ → Type 0
IsLong none = Unit {0}
IsLong (some z) = (long_min ≤ℤ z) × (z ≤ℤ long_max)

-- What becomes of two boundaries.
abbrev pub interval : Option ℤ → Option ℤ → ℤ × ℤ
interval none none = (long_min, long_max)
interval none (some b) = (long_min, b)
interval (some a) none = (a, long_min)
interval (some a) (some b) = if ltb_ℤ b a then (b, a) else (a, b)

clamp_self : (z : ℤ) → long_min ≤ℤ z → z ≤ℤ long_max → clamp z long_min long_max ≡ z
clamp_self z low high =
    let above : ltb_ℤ z long_min ≡ false = ground arith in
    let below : ltb_ℤ long_max z ≡ false = ground arith in rw (above, below)

-- An integer is written by at least one byte.
to_string-cons : (z : ℤ) → (x : ℕ) × (s : Text) × (to_string z ≡ x ∷ s)
unfolding to_string
to_string-cons (pos n) = let (x, s, e, digit, all) = decimal-Digit n in (x, s, e)
to_string-cons (negsuc n) = (b'-', _, refl)

two_boundaries-interval :
    (l r : Option ℤ)
    → IsLong l
    → IsLong r
    → two_boundaries (written l) (written r) ≡ done (interval l r)
two_boundaries-interval none none hl hr = refl
two_boundaries-interval none (some b) hl hr =
    let (x, s, e) = to_string-cons b in
    let good : is_integer (x ∷ s) true ≡ true = rw (← e) (is_integer-to_string b) in
    let value : stoll (x ∷ s) ≡ done b = rw (← e) (stoll-to_string b hr.0 hr.1) in
    rw (e, good, value, clamp_self b hr.0 hr.1) refl
two_boundaries-interval (some a) none hl hr =
    let (x, s, e) = to_string-cons a in
    let good : is_integer (x ∷ s) true ≡ true = rw (← e) (is_integer-to_string a) in
    let value : stoll (x ∷ s) ≡ done a = rw (← e) (stoll-to_string a hl.0 hl.1) in
    rw (e, good, value, clamp_self a hl.0 hl.1) refl
two_boundaries-interval (some a) (some b) hl hr =
    let (x, s, e) = to_string-cons a in
    let good : is_integer (x ∷ s) true ≡ true = rw (← e) (is_integer-to_string a) in
    let value : stoll (x ∷ s) ≡ done a = rw (← e) (stoll-to_string a hl.0 hl.1) in
    let (y, t, e') = to_string-cons b in
    let good' : is_integer (y ∷ t) true ≡ true = rw (← e') (is_integer-to_string b) in
    let value' : stoll (y ∷ t) ≡ done b = rw (← e') (stoll-to_string b hr.0 hr.1) in
    rw (e, e', good, good', value, value', clamp_self a hl.0 hl.1, clamp_self b hr.0 hr.1) refl

-- On two boundaries with the delimiter between them, `parse_int_range` returns the lower one and then the
-- higher one; where the left one is missing, the least value and the right one; where the right one is
-- missing, the left one and the least value; and where both are, the least and the greatest value.
pub parse_int_range-interval :
    (s : Text) (delimiter : ℕ) (l r : Option ℤ)
    → pieces delimiter s ≡ written l ∷ written r ∷ []
    → IsLong l
    → IsLong r
    → parse_int_range s delimiter ≡ done (interval l r)
unfolding parse_int_range
parse_int_range-interval s delimiter l r cut hl hr =
    rw (tokenize-pieces s delimiter false, cut) (two_boundaries-interval l r hl hr)

-- A list whose members do not have the byte.
abbrev pub Without : ℕ → Text → Type 0
Without c t = count c t ≡ 0

pieces-append : (c : ℕ) (t r : Text) → Without c t → pieces c (t ++ c ∷ r) ≡ t ∷ pieces c r
pieces-append c [] r h = ground arith
pieces-append c (x ∷ t) r h = elim (Bool-cases (x == c)) [
  | inl hit ↦ absurd (ground arith)
  | inr miss ↦ rw (miss, pieces-append c t r (ground arith))
]

pieces-elements :
    (c : ℕ) (t : Text) (ts : List Text)
    → All (Without c) (t ∷ ts)
    → pieces c (elements (c ∷ []) [] [] (t ∷ ts)) ≡ t ∷ ts
pieces-elements c t [] h = rw append-nil (pieces-none c t h.0)
pieces-elements c t (u ∷ ts) h =
    let rest = elements (c ∷ []) [] [] (u ∷ ts) in
    rw (append-nil, append_assoc t (c ∷ []) rest)
      (pieces-append c t rest h.0 ∙ ap (λ l. t ∷ l) (pieces-elements c u ts h.1))

-- A list of strings that is written with a byte between them, which none of them has, is split into them
-- again.
pub tokenize-from_range :
    (c : ℕ) (t : Text) (ts : List Text)
    → All (Without c) (t ∷ ts)
    → tokenize (from_range (t ∷ ts) (c ∷ []) [] [] [] []) c false ≡ ok (t ∷ ts)
unfolding from_range
tokenize-from_range c t ts h = rw (
  append-nil,
  tokenize-pieces (elements (c ∷ []) [] [] (t ∷ ts)) c false,
  pieces-elements c t ts h,
)
