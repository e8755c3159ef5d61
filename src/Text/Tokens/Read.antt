-- ===== src/Text/Tokens/Read.antt =====
-- `tokenize` ends, and returns the pieces of the string; joined again they give the string.
use cpp_tools.Base.{
  ℕ, zero, suc, ◌<◌, Bool, true, false, not, ◌&&◌, List, [], ◌∷◌, ◌++◌, ◌==◌, ◌≡◌, refl, sym, ap,
  ◌∙◌, inl, inr, if◌then◌else◌, length, length-append, leb, Bool-cases, append-nil, arith, ==_iff,
}
use mathlib.Core.Path.{subst}
use cpp_tools.Base.Result.{ok, ◌>>=◌}
use cpp_tools.Text.Chars.{Text}
use cpp_tools.Text.Contains.{count, contains-count}
use cpp_tools.Text.Tokens.{take_line, push_token, read_tokens, ends_with, tokenize}
use cpp_tools.Text.Tokens.Cut.{
  put_head, pieces, nonempty, select, pieces-none, take_line-cases, count-ends_with, unread,
  unread-behind, push_token-select,
}

read_step :
    (n : ℕ) (d : Bool) (c x : ℕ) (s t r : Text) (ts : List Text)
    → take_line c (x ∷ s) ≡ (t, r)
    → read_tokens n d c r ≡ ok (select d ts)
    → read_tokens (suc n) d c (x ∷ s) ≡ ok (select d (t ∷ ts))
unfolding read_tokens
read_step n d c x s t r ts line rest =
    let next : (do tokens ← read_tokens n d c r; ok (push_token d t tokens))
        ≡ ok (select d (t ∷ ts)) =
      rw rest (ap (λ l. ok l) (push_token-select d t ts)) in
    subst
      (λ (line : Text × Text).
        (do tokens ← read_tokens n d c line.1; ok (push_token d line.0 tokens))
        ≡ ok (select d (t ∷ ts)))
      (sym line) next

read_nothing : (n : ℕ) (d : Bool) (c : ℕ) → read_tokens (suc n) d c [] ≡ ok (select d [])
unfolding read_tokens
read_nothing n true c = refl
read_nothing n false c = refl

-- With a round for each byte and one more, the loop reads every piece but an empty one at the end.
read_tokens-pieces :
    (n : ℕ) (d : Bool) (c : ℕ) (s : Text)
    → length s < n
    → (ts : List Text) × (read_tokens n d c s ≡ ok (select d ts)) × (pieces c s ≡ ts ++ unread c s)
read_tokens-pieces zero d c s enough = absurd (omega arith)
read_tokens-pieces (suc n) d c [] enough = ([], read_nothing n d c, refl)
read_tokens-pieces (suc (suc n)) d c (x ∷ s) enough = elim (take_line-cases c (x ∷ s)) [
  | inl (line, no_delimiter) ↦ (
    (x ∷ s) ∷ [],
    read_step (suc n) d c x s (x ∷ s) [] [] line (read_nothing n d c),
    pieces-none c (x ∷ s) no_delimiter ∙ rw (count-ends_with c (x ∷ s) no_delimiter),
  )
  | inr (t, r, line, split, cut) ↦
      let shorter : length r < suc n =
        omega (arith, ap (λ (l : Text). length l) split, length-append t (c ∷ r)) in
      let (ts, read, rest) = read_tokens-pieces (suc n) d c r shorter in
      (
        t ∷ ts,
        read_step (suc n) d c x s t r ts line read,
        cut
            ∙ ap (λ l. t ∷ l)
                (rest ∙ ap (λ l. ts ++ l) (sym (ap (unread c) split ∙ unread-behind t c r))),
      )
]
read_tokens-pieces (suc zero) d c (x ∷ s) enough = absurd (omega arith)

nonempty-end : (ts : List Text) → nonempty (ts ++ [] ∷ []) ≡ nonempty ts
nonempty-end [] = refl
nonempty-end ([] ∷ ts) = nonempty-end ts
nonempty-end ((x ∷ t) ∷ ts) = ap (λ l. (x ∷ t) ∷ l) (nonempty-end ts)

add_unread :
    (d : Bool) (c x : ℕ) (s : Text) (ts : List Text)
    → (if ends_with (x ∷ s) c && not d then select d ts ++ [] ∷ [] else select d ts)
      ≡ select d (ts ++ unread c (x ∷ s))
add_unread d c x s ts = add (ends_with (x ∷ s) c) d
  where
    add :
        (e d : Bool)
        → (if e && not d then select d ts ++ [] ∷ [] else select d ts)
          ≡ select d (ts ++ (if e then [] ∷ [] else []))
    add true true = sym (nonempty-end ts)
    add true false = refl
    add false true = rw append-nil
    add false false = rw append-nil

-- `tokenize` returns for every string: its pieces between the delimiters, in order, without the
-- empty ones where `discard_empty` is set.
pub tokenize-pieces :
    (s : Text) (c : ℕ) (discard_empty : Bool)
    → tokenize s c discard_empty ≡ ok (select discard_empty (pieces c s))
unfolding tokenize
tokenize-pieces [] c true = rw (contains-count [] c 1 false)
tokenize-pieces [] c false = rw (contains-count [] c 1 false)
tokenize-pieces (x ∷ s) c d = elim (Bool-cases (leb 1 (count c (x ∷ s)))) [
  | inl delimited ↦
      let (ts, read, rest) = read_tokens-pieces (suc (length (x ∷ s))) d c (x ∷ s) (omega arith) in
      rw (contains-count (x ∷ s) c 1 false, delimited, read)
        (ap (λ l. ok l) (add_unread d c x s ts ∙ ap (select d) (sym rest)))
  | inr plain ↦
      rw (contains-count (x ∷ s) c 1 false, plain, pieces-none c (x ∷ s) (ground arith)) (whole d)
]
  where
    whole : (d : Bool) → ok ((x ∷ s) ∷ []) ≡ ok (select d ((x ∷ s) ∷ []))
    whole true = refl
    whole false = refl

-- The tokens with the delimiter between them.
abbrev pub join : ℕ → List Text → Text
join c [] = []
join c (t ∷ []) = t
join c (t ∷ u ∷ ts) = t ++ c ∷ join c (u ∷ ts)

pub pieces-cons : (c : ℕ) (s : Text) → (t : Text) × (ts : List Text) × (pieces c s ≡ t ∷ ts)
pieces-cons c [] = ([], [], refl)
pieces-cons c (x ∷ s) = elim (Bool-cases (x == c)) [
  | inl hit ↦ ([], pieces c s, rw hit)
  | inr miss ↦ let (t, ts, e) = pieces-cons c s in (x ∷ t, ts, rw (miss, e))
]

join-put_head :
    (c x : ℕ) (t : Text) (ts : List Text) → join c (put_head x (t ∷ ts)) ≡ x ∷ join c (t ∷ ts)
join-put_head c x t [] = refl
join-put_head c x t (u ∷ ts) = refl

join-pieces : (c : ℕ) (s : Text) → join c (pieces c s) ≡ s
join-pieces c [] = refl
join-pieces c (x ∷ s) =
    let (t, ts, e) = pieces-cons c s in
    let rest : join c (t ∷ ts) ≡ s = ap (join c) (sym e) ∙ join-pieces c s in
    elim (Bool-cases (x == c)) [
      | inl hit ↦ rw (hit, e) (ap (λ l. c ∷ l) rest ∙ ap (λ b. b ∷ s) (sym ((==_iff x c).0 hit)))
      | inr miss ↦ rw (miss, e) (join-put_head c x t ts ∙ ap (λ l. x ∷ l) rest)
    ]

-- Joining the tokens with the delimiter between them gives the string back, where empty tokens are
-- kept.
pub tokenize-join :
    (s : Text) (c : ℕ) → (ts : List Text) × (tokenize s c false ≡ ok ts) × (join c ts ≡ s)
tokenize-join s c = (pieces c s, tokenize-pieces s c false, join-pieces c s)
