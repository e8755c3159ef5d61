-- ===== src/Text/Columns.antt =====
-- `multiline_concatenate`.
use cpp_tools.Base.{
  ℕ, Bool, true, false, not, ◌&&◌, List, [], ◌∷◌, ◌++◌, map, none, some, ◌==◌, ◌≡◌, refl, sym, ap,
  ◌∙◌, if◌then◌else◌, append_assoc,
}
use mathlib.Core.Path.{subst}
use cpp_tools.Base.Result.{Result, ok, fault, ◌>>=◌}
use cpp_tools.Tree.Node.{last?}
use cpp_tools.Text.Chars.{Text, cr, lf}
use cpp_tools.Text.Pop.{
  pop_cr, pop_lf, pop_back, pop_if_back, pop_if_back-snoc, snoc_view, last?-snoc, pop_back-snoc,
}
use cpp_tools.Text.Tokens.{is_empty, tokenize}
use cpp_tools.Text.Tokens.Cut.{pieces}
use cpp_tools.Text.Tokens.Read.{join, tokenize-pieces, pieces-cons}

-- `for (auto& str : tokens) { pop_cr(str); }`
unfoldable pub pop_each : List Text → Result (List Text)
pop_each [] = ok []
pop_each (t ∷ ts) = do t' ← pop_cr t; ts' ← pop_each ts; ok (t' ∷ ts')

-- The lines that one text has more than the other.
unfoldable pub append_remaining : List Text → Text
append_remaining [] = []
append_remaining (t ∷ ts) = t ++ lf ∷ append_remaining ts

unfoldable pub join_lines : List Text → List Text → Text
join_lines [] ys = append_remaining ys
join_lines (x ∷ xs) [] = append_remaining (x ∷ xs)
join_lines (x ∷ xs) (y ∷ ys) = x ++ y ++ lf ∷ join_lines xs ys

unfoldable pub multiline_concatenate : Text → Text → Result Text
multiline_concatenate first second = do
  first_tokens ← tokenize first lf false
  second_tokens ← tokenize second lf false
  first_lines ← pop_each first_tokens
  second_lines ← pop_each second_tokens
  pop_lf (join_lines first_lines second_lines)

-- Line `i` of the result is line `i` of the first text followed by line `i` of the second.
abbrev pub beside : List Text → List Text → List Text
beside [] ys = ys
beside (x ∷ xs) [] = x ∷ xs
beside (x ∷ xs) (y ∷ ys) = (x ++ y) ∷ beside xs ys

abbrev pub without_cr : Text → Text
without_cr t = elim (last? t) [ none ↦ t | some b ↦ if b == cr then pop_back t else t ]

abbrev pub no_blank : List Text → Bool
no_blank [] = true
no_blank (t ∷ ts) = not (is_empty t) && no_blank ts

pop_cr-snoc : (ys : Text) (c : ℕ) → pop_cr (ys ++ c ∷ []) ≡ ok (without_cr (ys ++ c ∷ []))
unfolding pop_cr
pop_cr-snoc ys c = pop_if_back-snoc ys c cr ∙ rw (without_cr, last?-snoc ys c, pop_back-snoc ys c)

pop_cr-without_cr : (x : ℕ) (t : Text) → pop_cr (x ∷ t) ≡ ok (without_cr (x ∷ t))
pop_cr-without_cr x t =
    let (ys, c, split) = snoc_view x t in
    subst (λ l. pop_cr l ≡ ok (without_cr l)) (sym split) (pop_cr-snoc ys c)

pop_each-lines :
    (ts : List Text) → pop_each ts ≡ (if no_blank ts then ok (map without_cr ts) else fault)
unfolding pop_each pop_cr pop_if_back
pop_each-lines [] = refl
pop_each-lines ([] ∷ ts) = refl
pop_each-lines ((x ∷ t) ∷ ts) =
    ap (λ m. do t' ← m; ts' ← pop_each ts; ok (t' ∷ ts')) (pop_cr-without_cr x t)
    ∙ ap (λ m. do ts' ← m; ok (without_cr (x ∷ t) ∷ ts')) (pop_each-lines ts)
    ∙ out (no_blank ts)
  where
    out :
        (b : Bool)
        → ((if b then ok (map without_cr ts) else fault) >>= λ ts'. ok (without_cr (x ∷ t) ∷ ts'))
          ≡ (if b then ok (without_cr (x ∷ t) ∷ map without_cr ts) else fault)
    out true = refl
    out false = refl

join_lines-beside : (xs ys : List Text) → join_lines xs ys ≡ append_remaining (beside xs ys)
unfolding join_lines append_remaining
join_lines-beside [] ys = refl
join_lines-beside (x ∷ xs) [] = refl
join_lines-beside (x ∷ xs) (y ∷ ys) = ap (λ l. x ++ y ++ lf ∷ l) (join_lines-beside xs ys)

append_remaining-join :
    (t : Text) (ts : List Text) → append_remaining (t ∷ ts) ≡ join lf (t ∷ ts) ++ lf ∷ []
unfolding append_remaining
append_remaining-join t [] = refl
append_remaining-join t (u ∷ ts) =
    ap (λ l. t ++ lf ∷ l) (append_remaining-join u ts)
    ∙ sym (append_assoc t (lf ∷ join lf (u ∷ ts)) (lf ∷ []))

abbrev lines : Text → Text → List Text
lines first second = beside (map without_cr (pieces lf first)) (map without_cr (pieces lf second))

lines-join :
    (first second : Text)
    → (t : Text) × (ts : List Text) × (beside
          (map without_cr (pieces lf first))
          (map without_cr (pieces lf second))
        ≡ t ∷ ts)
lines-join first second =
    let (a, rest, e) = pieces-cons lf first in
    let (b, rest', e') = pieces-cons lf second in
    (without_cr a ++ without_cr b, beside (map without_cr rest) (map without_cr rest'), rw (e, e'))

pop_last_lf : (s : Text) → pop_lf (s ++ lf ∷ []) ≡ ok s
unfolding pop_lf
pop_last_lf s = pop_if_back-snoc s lf lf

-- Where neither text has an empty line, `multiline_concatenate` returns the lines of both texts side by
-- side, without a carriage return at their ends. An empty line in either is undefined behaviour.
pub multiline_concatenate-beside :
    (first second : Text)
    → multiline_concatenate first second ≡ (
        let xs = pieces lf first in
        let ys = pieces lf second in
        if no_blank xs && no_blank ys
        then ok (join lf (beside (map without_cr xs) (map without_cr ys)))
        else fault)
unfolding multiline_concatenate
multiline_concatenate-beside first second =
    rw (tokenize-pieces first lf false, tokenize-pieces second lf false)
      (ap (λ m. do xs ← m; ys ← pop_each (pieces lf second); pop_lf (join_lines xs ys))
          (pop_each-lines (pieces lf first))
        ∙ out (no_blank (pieces lf first)) (no_blank (pieces lf second))
            (pop_each-lines (pieces lf second)))
  where
    joined :
        pop_lf (join_lines (map without_cr (pieces lf first)) (map without_cr (pieces lf second)))
        ≡ ok (join lf (lines first second))
    joined =
        let (t, ts, e) = lines-join first second in
        ap pop_lf (
          join_lines-beside (map without_cr (pieces lf first)) (map without_cr (pieces lf second))
          ∙ ap append_remaining e
          ∙ append_remaining-join t ts
          ∙ ap (λ l. join lf l ++ lf ∷ []) (sym e))
        ∙ pop_last_lf (join lf (lines first second))

    out :
        (a b : Bool)
        → pop_each (pieces lf second)
          ≡ (if b then ok (map without_cr (pieces lf second)) else fault)
        → ((if a then ok (map without_cr (pieces lf first)) else fault) >>= λ xs.
            pop_each (pieces lf second) >>= λ ys. pop_lf (join_lines xs ys))
          ≡ (if a && b then ok (join lf (lines first second)) else fault)
    out true true e = rw e joined
    out true false e = rw e
    out false b e = refl
