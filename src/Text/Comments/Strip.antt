-- ===== src/Text/Comments/Strip.antt =====
-- `strip_c_comments` leaves what the scanner leaves.
use cpp_tools.Base.{
  ℕ, zero, suc, ◌+◌, ◌<◌, true, false, [], ◌∷◌, ◌++◌, some, ◌==◌, ◌≡◌, refl, sym, ap, ◌∙◌, arith,
  inl, inr, length, get_elem?, length-append, append_assoc, Bool-cases, Option-cases,
}
use cpp_tools.Base.Run.{done}
use cpp_tools.Text.Chars.{Text}
use cpp_tools.Text.Comments.{index_of, comments, strip_c_comments}
use cpp_tools.Text.Comments.Scanner.{code, slashed, strip, cut_at, code_all, code_free}
use cpp_tools.Text.Comments.Places.{find_at, byte_at}
use cpp_tools.Text.Comments.Found.{
  Strips, Goes, line_comment, block_comment, no_comment, comments-none,
}

-- The slash at a position, which the loop has found.
at_slash :
    (k : ℕ) (s : Text)
    → Goes k s
    → (front t : Text) → s ≡ front ++ b'/' ∷ t
    → length t < k
    → Strips (suc k) s (some (length front)) (front ++ strip slashed t)
unfolding comments
at_slash k s again front [] whole fits =
    let end : (length front + 1 == length s) ≡ true =
      ground (arith, ap length whole, length-append front (b'/' ∷ [])) in
    ([], rw (comments, end), ap done whole)
at_slash k s again front (c ∷ t) whole fits =
    let more : (length front + 1 == length s) ≡ false =
      ground (arith, ap length whole, length-append front (b'/' ∷ c ∷ t)) in
    let next : get_elem? s (length front + 1) ≡ some c =
      byte_at s (front ++ b'/' ∷ []) t c (length front + 1)
        (whole ∙ sym (append_assoc front (b'/' ∷ []) (c ∷ t)))
        (omega (arith, length-append front (b'/' ∷ []))) in
    elim (Bool-cases (c == b'/')) [
      | inl is_slash ↦
          let (rs, goes, erased) = line_comment k s again front c t whole (omega arith) in
          (rs, rw (comments, more, next, is_slash) goes, rw (strip, is_slash) erased)
      | inr not_slash ↦ elim (Bool-cases (c == b'*')) [
        | inl is_star ↦
            let (rs, goes, erased) = block_comment k s again front c t whole (omega arith) in
            (
              rs,
              rw (comments, more, next, not_slash, is_star) goes,
              rw (strip, not_slash, is_star) erased,
            )
        | inr not_star ↦
            let (rs, goes, erased) =
              no_comment k s again front c t not_slash not_star whole (omega arith) in
            (rs, rw (comments, more, next, not_slash, not_star) goes, erased)
      ]
    ]

comments-Strips : (k : ℕ) (s : Text) → Goes k s
comments-Strips zero s front w n whole place fits = absurd (omega arith)
comments-Strips (suc k) s front w n whole place fits =
    let found = find_at b'/' s front w n whole place in
    elim (Option-cases (index_of b'/' w)) [
      | inl gone ↦ (
        [],
        rw (found, gone) (comments-none (suc k) s (omega arith)),
        ap done (whole ∙ ap (λ l. front ++ l) (sym (code_all w gone))),
      )
      | inr (j, here) ↦
          let (free_part, t, e, size, free) = cut_at b'/' w j here in
          let before = front ++ free_part in
          let (rs, goes, erased) =
            at_slash k s (comments-Strips k s) before t
              (whole ∙ ap (λ l. front ++ l) e ∙ sym (append_assoc front free_part (b'/' ∷ t)))
              (omega (arith, ap length e, length-append free_part (b'/' ∷ t))) in
          let start : j + n ≡ length before = omega (arith, length-append front free_part) in
          let left : before ++ strip slashed t ≡ front ++ strip code w =
            append_assoc front free_part (strip slashed t)
            ∙ ap (λ l. front ++ l)
                (sym (ap (strip code) e ∙ code_free free_part (b'/' ∷ t) free)) in
          (rs, rw (found, here, start) goes, erased ∙ ap done left)
    ]

-- For every string, `strip_c_comments` returns what the scanner leaves of it: without each comment from
-- "//" up to the end of the line, which stays, and from "/*" to "*/", and where the byte behind a "*/"
-- stays and begins no comment. Neither `at` nor `erase` throws.
pub strip_c_comments-strip : (s : Text) → strip_c_comments s ≡ done (strip code s)
unfolding strip_c_comments
strip_c_comments-strip s =
    let (rs, found, erased) = comments-Strips (suc (length s)) s [] s 0 refl refl (omega arith) in
    rw found erased
