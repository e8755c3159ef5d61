-- ===== src/Text/Comments/Found.antt =====
-- The comments that the loop of `strip_c_comments` finds, one by one.
use cpp_tools.Base.{
  ℕ, zero, suc, ◌+◌, ◌-◌, ◌<◌, false, List, [], ◌∷◌, ◌++◌, Option, none, some, ◌==◌, ◌≡◌, refl, sym,
  ap, ◌∙◌, arith, inl, inr, length, length-append, append_assoc, append-nil, Option-cases,
}
use cpp_tools.Base.Run.{done, ◌>>=◌}
use cpp_tools.Text.Chars.{Text, lf}
use cpp_tools.Text.Comments.{
  index_of, index_of_end, find, line, block, other, Range, behind_slash, comments, erase,
  erase_ranges,
}
use cpp_tools.Text.Comments.Scanner.{
  code, slashed, in_line, in_block, closed, strip, cut_at, line_all, line_free, block_all, slash_on,
  block_cut,
}
use cpp_tools.Text.Comments.Places.{find_at, find_end_at, erase_rest, erase_middle, find_past}

pub comments-none : (k : ℕ) (s : Text) → 0 < k → comments k s none ≡ done []
unfolding comments
comments-none zero s l = absurd (omega arith)
comments-none (suc k) s l = refl

-- From a position on, the loop finds comments without which the string is what it was before the position,
-- and then what the scanner leaves of the rest.
abbrev pub Strips : ℕ → Text → Option ℕ → Text → Type 0
Strips k s pos left =
    (rs : List Range) × (comments k s pos ≡ done rs) × (erase_ranges s rs ≡ done left)

-- The same from any position behind a part of the string.
abbrev pub Goes : ℕ → Text → Type 0
Goes k s =
    (front w : Text) (n : ℕ)
    → s ≡ front ++ w
    → n ≡ length front
    → length w < k
    → Strips k s (find b'/' s n) (front ++ strip code w)

module _ (k : ℕ) (s : Text) (again : Goes k s) (front : Text) where
  -- A comment is found, and another position to go on from.
  one_range :
      (r : Range) (pos : Option ℕ) (u left : Text)
      → Strips k s pos u
      → erase u r ≡ done left
      → (rs : List Range) × ((do rest ← comments k s pos; done (r ∷ rest)) ≡ done rs)
        × (erase_ranges s rs ≡ done left)
  one_range r pos u left (rs, found, erased) e = (r ∷ rs, rw found, rw erased e)

  -- A comment with the body `body`, and the bytes `close` behind it.
  regroup :
      (x y : ℕ) (body close w : Text)
      → (front ++ x ∷ y ∷ (body ++ close)) ++ w ≡ front ++ x ∷ y ∷ (body ++ (close ++ w))
  regroup x y body close w =
      append_assoc front (x ∷ y ∷ (body ++ close)) w
      ∙ ap (λ l. front ++ x ∷ y ∷ l) (append_assoc body close w)

  regroup-length :
      (x y : ℕ) (body close : Text)
      → length (front ++ x ∷ y ∷ (body ++ close))
        ≡ length front + (2 + (length body + length close))
  regroup-length x y body close =
      omega (arith, length-append front (x ∷ y ∷ (body ++ close)), length-append body close)

  -- The comment goes, with what belongs to it of the bytes behind its body.
  erase_comment :
      (x y : ℕ) (body tail w : Text) (u : Text) (m : ℕ)
      → u ≡ front ++ x ∷ y ∷ (body ++ (tail ++ w))
      → m ≡ 2 + (length body + length tail)
      → erase u (length front, some m) ≡ done (front ++ w)
  erase_comment x y body tail w u m e size =
      erase_middle u front (x ∷ y ∷ (body ++ tail)) w (length front) m
        (e ∙ ap (λ l. front ++ x ∷ y ∷ l) (sym (append_assoc body tail w))) refl
        (omega (arith, length-append body tail))

  module _ (c : ℕ) (t : Text) (whole : s ≡ front ++ b'/' ∷ c ∷ t) (fits : length t < k) where
    opened : length front + 2 ≡ length (front ++ b'/' ∷ c ∷ [])
    opened = omega (arith, length-append front (b'/' ∷ c ∷ []))

    behind_open : s ≡ (front ++ b'/' ∷ c ∷ []) ++ t
    behind_open = whole ∙ sym (append_assoc front (b'/' ∷ c ∷ []) t)

    only : erase s (length front, none) ≡ done front
    only = erase_rest s front (b'/' ∷ c ∷ t) (length front) whole refl

    cut_comment :
        (body close w : Text)
        → t ≡ body ++ (close ++ w)
        → s ≡ (front ++ b'/' ∷ c ∷ (body ++ close)) ++ w
    cut_comment body close w e =
        whole ∙ ap (λ l. front ++ b'/' ∷ c ∷ l) e ∙ sym (regroup b'/' c body close w)

    pub line_comment :
        (rs : List Range) × (behind_slash (comments k s) s (length front) line ≡ done rs)
        × (erase_ranges s rs ≡ done (front ++ strip in_line t))
    line_comment =
        let found = find_at lf s (front ++ b'/' ∷ c ∷ []) t (length front + 2) behind_open opened in
        elim (Option-cases (index_of lf t)) [
          | inl gone ↦ (
            (length front, none) ∷ [],
            rw (behind_slash, found, gone),
            only ∙ ap done (rw (line_all t gone) (sym (append-nil front))),
          )
          | inr (j, here) ↦
              let (body, w, e, place, free) = cut_at lf t j here in
              let stop = j + (length front + 2) in
              let (rs, goes, erased) =
                again (front ++ b'/' ∷ c ∷ (body ++ lf ∷ [])) w (stop + 1)
                  (cut_comment body (lf ∷ []) w e)
                  (omega (arith, regroup-length b'/' c body (lf ∷ [])))
                  (omega (arith, ap length e, length-append body (lf ∷ w))) in
              let cut =
                erase_comment b'/' c body [] (lf ∷ strip code w)
                  ((front ++ b'/' ∷ c ∷ (body ++ lf ∷ [])) ++ strip code w) (stop - length front)
                  (regroup b'/' c body (lf ∷ []) (strip code w)) (omega arith) in
              let kept : strip in_line t ≡ lf ∷ strip code w =
                ap (strip in_line) e ∙ line_free body (lf ∷ w) free in
              (
                (length front, some (stop - length front)) ∷ rs,
                rw (behind_slash, found, here, goes),
                rw (erased, kept) cut,
              )
        ]

    -- Behind the end of a comment.
    closed_comment :
        (body w : Text) (stop : ℕ)
        → t ≡ body ++ b'*' ∷ b'/' ∷ w
        → stop ≡ length body + (length front + 2)
        → (rs : List Range) × (comments k s (find b'/' s (stop + 3)) ≡ done rs)
          × (erase_ranges s ((length front, some (stop - length front + 2)) ∷ rs)
              ≡ done (front ++ strip closed w))
    closed_comment body [] stop e place =
        let close = b'*' ∷ b'/' ∷ [] in
        let all = cut_comment body close [] e in
        let size : length s < stop + 3 = omega (
          arith,
          ap length all,
          length-append (front ++ b'/' ∷ c ∷ (body ++ close)) [],
          regroup-length b'/' c body close,
        ) in
        let cut =
          erase_comment b'/' c body close [] s (stop - length front + 2)
            (all ∙ regroup b'/' c body close []) (omega arith) in
        ([], rw (find_past b'/' s (stop + 3) size) (comments-none k s (omega arith)), cut)
    closed_comment body (x ∷ w) stop e place =
        let close = b'*' ∷ b'/' ∷ x ∷ [] in
        let (rs, goes, erased) =
          again (front ++ b'/' ∷ c ∷ (body ++ close)) w (stop + 3) (cut_comment body close w e)
            (omega (arith, regroup-length b'/' c body close))
            (omega (arith, ap length e, length-append body (close ++ w))) in
        let cut =
          erase_comment b'/' c body (b'*' ∷ b'/' ∷ []) (x ∷ strip code w)
            ((front ++ b'/' ∷ c ∷ (body ++ close)) ++ strip code w) (stop - length front + 2)
            (regroup b'/' c body close (strip code w)) (omega arith) in
        (rs, goes, rw erased cut)

    pub block_comment :
        (rs : List Range) × (behind_slash (comments k s) s (length front) block ≡ done rs)
        × (erase_ranges s rs ≡ done (front ++ strip in_block t))
    block_comment =
        let found =
          find_end_at s (front ++ b'/' ∷ c ∷ []) t (length front + 2) behind_open opened in
        elim (Option-cases (index_of_end t)) [
          | inl gone ↦ (
            (length front, none) ∷ [],
            rw (behind_slash, found, gone),
            only ∙ ap done (rw (block_all t gone) (sym (append-nil front))),
          )
          | inr (j, here) ↦
              let (body, w, e, place, kept) = block_cut t j here in
              let stop = j + (length front + 2) in
              let (rs, goes, erased) = closed_comment body w stop e (omega arith) in
              (
                (length front, some (stop - length front + 2)) ∷ rs,
                rw (behind_slash, found, here, goes),
                rw kept erased,
              )
        ]

  pub no_comment :
      (c : ℕ) (t : Text)
      → (c == b'/') ≡ false
      → (c == b'*') ≡ false
      → s ≡ front ++ b'/' ∷ c ∷ t
      → suc (length t) < k
      → (rs : List Range) × (behind_slash (comments k s) s (length front) other ≡ done rs)
        × (erase_ranges s rs ≡ done (front ++ strip slashed (c ∷ t)))
  no_comment c t other_1 other_2 whole fits =
      let start : length front + 1 ≡ length (front ++ b'/' ∷ []) =
        omega (arith, length-append front (b'/' ∷ [])) in
      let regroup : s ≡ (front ++ b'/' ∷ []) ++ c ∷ t =
        whole ∙ sym (append_assoc front (b'/' ∷ []) (c ∷ t)) in
      let (rs, found, erased) =
        again (front ++ b'/' ∷ []) (c ∷ t) (length front + 1) regroup start fits in
      let left : (front ++ b'/' ∷ []) ++ strip code (c ∷ t) ≡ front ++ strip slashed (c ∷ t) =
        append_assoc front (b'/' ∷ []) (strip code (c ∷ t))
        ∙ ap (λ l. front ++ l) (slash_on c t other_1 other_2) in
      (rs, found, erased ∙ ap done left)
