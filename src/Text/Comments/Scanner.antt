-- ===== src/Text/Comments/Scanner.antt =====
-- A scanner that takes the comments out of a text in one pass, as `strip_c_comments` does.
use cpp_tools.Base.{
  ℕ, true, false, ◌&&◌, [], ◌∷◌, ◌++◌, none, some, ◌==◌, ◌≡◌, refl, ap, ◌∙◌, arith, inl, inr,
  length, Bool-cases, Option-cases, ==_iff,
}
use cpp_tools.Text.Chars.{Text, lf}
use cpp_tools.Text.Comments.{index_of, index_of_end}

-- Where the scanner stands: in the code, behind a slash, in a comment of either kind, behind an asterisk in
-- a comment, or just behind a comment that "*/" has closed.
pub data Mode : Type 0 where
  code : Mode
  slashed : Mode
  in_line : Mode
  in_block : Mode
  starred : Mode
  closed : Mode

-- The text without its comments. The byte behind "*/" is kept and begins no comment.
abbrev pub strip : Mode → Text → Text
strip slashed [] = b'/' ∷ []
strip code [] = []
strip in_line [] = []
strip in_block [] = []
strip starred [] = []
strip closed [] = []
strip code (x ∷ s) = elim (x == b'/') [ true ↦ strip slashed s | false ↦ x ∷ strip code s ]
strip slashed (x ∷ s) = elim (x == b'/') [
  | true ↦ strip in_line s
  | false ↦ elim (x == b'*') [ true ↦ strip in_block s | false ↦ b'/' ∷ x ∷ strip code s ]
]
strip in_line (x ∷ s) = elim (x == lf) [ true ↦ x ∷ strip code s | false ↦ strip in_line s ]
strip in_block (x ∷ s) = elim (x == b'*') [ true ↦ strip starred s | false ↦ strip in_block s ]
strip starred (x ∷ s) = elim (x == b'/') [
  | true ↦ strip closed s
  | false ↦ elim (x == b'*') [ true ↦ strip starred s | false ↦ strip in_block s ]
]
strip closed (x ∷ s) = x ∷ strip code s

-- A text cut at the first byte of a kind.
pub cut_at :
    (c : ℕ) (w : Text) (j : ℕ)
    → index_of c w ≡ some j
    → (front : Text) × (t : Text) × (w ≡ front ++ c ∷ t)
      × (length front ≡ j)
      × (index_of c front ≡ none)
cut_at c [] j e = cc
cut_at c (x ∷ w) j e = elim (Bool-cases (x == c)) [
  | inl hit ↦
      let same : x ≡ c = (==_iff x c).0 hit in ([], w, ap (λ b. b ∷ w) same, ground arith, refl)
  | inr miss ↦ elim (Option-cases (index_of c w)) [
    | inl gone ↦ absurd (ground arith)
    | inr (i, here) ↦
        let (front, t, whole, place, free) = cut_at c w i here in
        (x ∷ front, t, ap (λ l. x ∷ l) whole, ground arith, rw (free, miss))
  ]
]

pub code_all : (w : Text) → index_of b'/' w ≡ none → strip code w ≡ w
code_all [] e = refl
code_all (x ∷ w) e = elim (Bool-cases (x == b'/')) [
  | inl hit ↦ absurd (ground arith)
  | inr miss ↦ rw (strip, miss) (ap (λ l. x ∷ l) (code_all w (ground arith)))
]

pub code_free :
    (front t : Text) → index_of b'/' front ≡ none → strip code (front ++ t) ≡ front ++ strip code t
code_free [] t e = refl
code_free (x ∷ front) t e = elim (Bool-cases (x == b'/')) [
  | inl hit ↦ absurd (ground arith)
  | inr miss ↦ rw (strip, miss) (ap (λ l. x ∷ l) (code_free front t (ground arith)))
]

pub line_all : (w : Text) → index_of lf w ≡ none → strip in_line w ≡ []
line_all [] e = refl
line_all (x ∷ w) e = elim (Bool-cases (x == lf)) [
  | inl hit ↦ absurd (ground arith)
  | inr miss ↦ rw (strip, miss) (line_all w (ground arith))
]

pub line_free :
    (front t : Text) → index_of lf front ≡ none → strip in_line (front ++ t) ≡ strip in_line t
line_free [] t e = refl
line_free (x ∷ front) t e = elim (Bool-cases (x == lf)) [
  | inl hit ↦ absurd (ground arith)
  | inr miss ↦ rw (strip, miss) (line_free front t (ground arith))
]

star_on : (y : ℕ) (w : Text) → (y == b'/') ≡ false → strip starred (y ∷ w) ≡ strip in_block (y ∷ w)
star_on y w goes = rw (strip, goes)

pub block_all : (w : Text) → index_of_end w ≡ none → strip in_block w ≡ []
block_all [] e = refl
block_all (x ∷ []) e = elim (Bool-cases (x == b'*')) [
  | inl hit ↦ rw (strip, hit)
  | inr miss ↦ rw (strip, miss)
]
block_all (x ∷ y ∷ w) e = elim (Bool-cases (x == b'*')) [
  | inl hit ↦ elim (Bool-cases (y == b'/')) [
    | inl close ↦ absurd (ground arith)
    | inr goes ↦ rw (strip, hit) (star_on y w goes ∙ block_all (y ∷ w) (ground arith))
  ]
  | inr miss ↦ rw (strip, miss) (block_all (y ∷ w) (ground arith))
]

pub slash_on :
    (c : ℕ) (t : Text)
    → (c == b'/') ≡ false
    → (c == b'*') ≡ false
    → b'/' ∷ strip code (c ∷ t) ≡ strip slashed (c ∷ t)
slash_on c t not_slash not_star = rw (strip, not_slash, not_star)

-- A text cut behind the end of a comment.
pub block_cut :
    (w : Text) (j : ℕ)
    → index_of_end w ≡ some j
    → (front : Text) × (t : Text) × (w ≡ front ++ b'*' ∷ b'/' ∷ t)
      × (length front ≡ j)
      × (strip in_block w ≡ strip closed t)
block_cut [] j e = cc
block_cut (x ∷ []) j e = cc
block_cut (x ∷ y ∷ w) j e = elim (Bool-cases (x == b'*' && y == b'/')) [
  | inl both ↦
      let star : x ≡ b'*' = ground arith in
      let close : y ≡ b'/' = ground arith in
      ([], w, rw (star, close), ground arith, rw (strip, star, close))
  | inr apart ↦ elim (Option-cases (index_of_end (y ∷ w))) [
    | inl gone ↦ absurd (ground arith)
    | inr (i, here) ↦
        let (front, t, whole, place, left) = block_cut (y ∷ w) i here in
        let passes : strip in_block (x ∷ y ∷ w) ≡ strip in_block (y ∷ w) =
          elim (Bool-cases (x == b'*')) [
            | inl hit ↦
                let goes : (y == b'/') ≡ false = ground arith in rw (strip, hit) (star_on y w goes)
            | inr miss ↦ rw (strip, miss)
          ] in
        (x ∷ front, t, ap (λ l. x ∷ l) whole, ground arith, passes ∙ left)
  ]
]
