-- ===== src/Text/Pop.antt =====
-- `pop_char`, `pop_string`, `pop_cr`, `pop_lf`, `pop_crlf` and `strip_cr`. `back()` of an empty string
-- is undefined, and a fault here.
use cpp_tools.Base.{
  ℕ, zero, suc, ◌-◌, true, false, [], ◌∷◌, ◌++◌, none, some, ◌==◌, ◌≡◌, ◌≢◌, refl, sym, ap, ◌∙◌,
  inl, inr, ◌⊎◌, ◌↔◌, arith, Bool-cases, if◌then◌else◌, ltb, length, take, drop, get_elem?,
  length-append, take-append-drop, append-nil, append_assoc, ==_iff,
}
use cpp_tools.Base.Result.{Result, ok, fault, ◌>>=◌, of_option}
use mathlib.Core.Path.{subst}
use cpp_tools.Tree.Node.{last?, erase_at}
use cpp_tools.Text.Chars.{Text, cr, lf, text_eq, eq_of_text_eq, text_eq_self}

abbrev pub pop_back : Text → Text
pop_back [] = []
pop_back (x ∷ []) = []
pop_back (x ∷ y ∷ s) = x ∷ pop_back (y ∷ s)

-- `if (str.back() == c) str.pop_back();`
unfoldable pub pop_if_back : Text → ℕ → Result Text
pop_if_back s c = do b ← of_option (last? s); ok (if b == c then pop_back s else s)

unfoldable pub pop_char : Text → ℕ → Text
pop_char [] c = []
pop_char (x ∷ s) c = elim (last? (x ∷ s)) [
  | none ↦ x ∷ s
  | some b ↦ if b == c then pop_back (x ∷ s) else x ∷ s
]

unfoldable pub pop_string : Text → Text → Text
pop_string s sub =
    let pos = length s - length sub in
    if ltb (length s) (length sub) then s else if text_eq (drop pos s) sub then take pos s else s

unfoldable pub pop_cr : Text → Result Text
pop_cr s = pop_if_back s cr

unfoldable pub pop_lf : Text → Result Text
pop_lf s = pop_if_back s lf

unfoldable pub pop_crlf : Text → Result Text
pop_crlf s = do s' ← pop_if_back s lf; pop_if_back s' cr

-- The body of the loop of `strip_cr`, at the position `i`.
abbrev strip_step : ℕ → Text → Text
strip_step i s = elim (get_elem? s i) [ none ↦ s | some c ↦ if c == cr then erase_at s i else s ]

-- The loop, from the position `i` down to the start of the string.
strip_from : ℕ → Text → Text
strip_from zero s = s
strip_from (suc i) s = strip_from i (strip_step i s)

unfoldable pub strip_cr : Text → Text
unfolding strip_from
strip_cr s = strip_from (length s) s

-- The string without its carriage returns.
abbrev pub without : ℕ → Text → Text
without c [] = []
without c (x ∷ s) = if x == c then without c s else x ∷ without c s

without-append : (c : ℕ) (xs ys : Text) → without c (xs ++ ys) ≡ without c xs ++ without c ys
without-append c [] ys = refl
without-append c (x ∷ xs) ys = ground (arith, without-append c xs ys)

pub snoc_view : (x : ℕ) (xs : Text) → (ys : Text) × (c : ℕ) × (x ∷ xs ≡ ys ++ c ∷ [])
snoc_view x [] = ([], x, refl)
snoc_view x (y ∷ xs) = let (ys, c, e) = snoc_view y xs in (x ∷ ys, c, ap (λ l. x ∷ l) e)

pub last?-snoc : (ys : Text) (c : ℕ) → last? (ys ++ c ∷ []) ≡ some c
last?-snoc [] c = refl
last?-snoc (x ∷ []) c = refl
last?-snoc (x ∷ y ∷ ys) c = last?-snoc (y ∷ ys) c

pub pop_back-snoc : (ys : Text) (c : ℕ) → pop_back (ys ++ c ∷ []) ≡ ys
pop_back-snoc [] c = refl
pop_back-snoc (x ∷ []) c = refl
pop_back-snoc (x ∷ y ∷ ys) c = ap (λ l. x ∷ l) (pop_back-snoc (y ∷ ys) c)

get_elem?-middle : (xs : Text) (c : ℕ) (ys : Text) → get_elem? (xs ++ c ∷ ys) (length xs) ≡ some c
get_elem?-middle [] c ys = refl
get_elem?-middle (x ∷ xs) c ys = get_elem?-middle xs c ys

erase_at-middle : (xs : Text) (c : ℕ) (ys : Text) → erase_at (xs ++ c ∷ ys) (length xs) ≡ xs ++ ys
erase_at-middle [] c ys = refl
erase_at-middle (x ∷ xs) c ys = ap (λ l. x ∷ l) (erase_at-middle xs c ys)

middle : (xs : Text) (c : ℕ) (ys : Text) → (xs ++ c ∷ []) ++ ys ≡ xs ++ c ∷ ys
middle xs c ys = append_assoc xs (c ∷ []) ys

strip_step_hit :
    (ys : Text) (c : ℕ) (done : Text)
    → (c == cr) ≡ true
    → strip_step (length ys) (ys ++ c ∷ done) ≡ ys ++ done
strip_step_hit ys c done hit =
    rw (strip_step, get_elem?-middle ys c done, hit) (erase_at-middle ys c done)

strip_step_miss :
    (ys : Text) (c : ℕ) (done : Text)
    → (c == cr) ≡ false
    → strip_step (length ys) (ys ++ c ∷ done) ≡ ys ++ c ∷ done
strip_step_miss ys c done miss = rw (strip_step, get_elem?-middle ys c done, miss)

strip_from-without :
    (i : ℕ) (xs done : Text) → length xs ≡ i → strip_from i (xs ++ done) ≡ without cr xs ++ done
unfolding strip_from
strip_from-without zero [] done e = refl
strip_from-without zero (x ∷ xs) done e = absurd (omega arith)
strip_from-without (suc i) [] done e = absurd (omega arith)
strip_from-without (suc i) (x ∷ xs) done e =
    let (ys, c, split) = snoc_view x xs in
    let size : length ys ≡ i =
      omega (arith, ap (λ (l : Text). length l) split, length-append ys (c ∷ [])) in
    subst (λ l. strip_from (suc i) (l ++ done) ≡ without cr l ++ done) (sym split)
      (rw (middle ys c done, without-append cr ys (c ∷ []))
        (elim (Bool-cases (c == cr)) [
          | inl hit ↦
              ap (λ n. strip_from i (strip_step n (ys ++ c ∷ done))) (sym size)
              ∙ ap (strip_from i) (strip_step_hit ys c done hit)
              ∙ strip_from-without i ys done size
              ∙ rw (hit, append-nil)
          | inr miss ↦
              ap (λ n. strip_from i (strip_step n (ys ++ c ∷ done))) (sym size)
              ∙ ap (strip_from i) (strip_step_miss ys c done miss)
              ∙ strip_from-without i ys (c ∷ done) size
              ∙ rw (miss, middle (without cr ys) c done)
        ]))

-- `strip_cr` returns the string without its carriage returns, the other bytes in order.
pub strip_cr-without : (s : Text) → strip_cr s ≡ without cr s
unfolding strip_cr
strip_cr-without s =
    ap (strip_from (length s)) (sym (append-nil s))
    ∙ strip_from-without (length s) s [] refl
    ∙ append-nil (without cr s)

drop-length-append : (r sub : Text) (n : ℕ) → n ≡ length r → drop n (r ++ sub) ≡ sub
drop-length-append [] sub zero e = refl
drop-length-append [] sub (suc n) e = absurd (omega arith)
drop-length-append (x ∷ r) sub zero e = absurd (omega arith)
drop-length-append (x ∷ r) sub (suc n) e = drop-length-append r sub n (omega arith)

take-length-append : (r sub : Text) (n : ℕ) → n ≡ length r → take n (r ++ sub) ≡ r
take-length-append [] sub zero e = refl
take-length-append [] sub (suc n) e = absurd (omega arith)
take-length-append (x ∷ r) sub zero e = absurd (omega arith)
take-length-append (x ∷ r) sub (suc n) e =
    ap (λ l. x ∷ l) (take-length-append r sub n (omega arith))

pop_string_suffix : (r sub : Text) → pop_string (r ++ sub) sub ≡ r
unfolding pop_string
pop_string_suffix r sub =
    let n = length (r ++ sub) - length sub in
    let size : n ≡ length r = omega (arith, length-append r sub) in
    let long : ltb (length (r ++ sub)) (length sub) ≡ false = ground (arith, length-append r sub) in
    rw (long, drop-length-append r sub n size, text_eq_self sub, take-length-append r sub n size)

-- `pop_string` removes `sub` where the string ends with it, and leaves every other string alone.
pub pop_string_cases :
    (s sub : Text)
    → ((r : Text) × (s ≡ r ++ sub) × (pop_string s sub ≡ r))
      ⊎ (((r : Text) → s ≢ r ++ sub) × (pop_string s sub ≡ s))
unfolding pop_string
pop_string_cases s sub =
    let n = length s - length sub in
    elim (Bool-cases (ltb (length s) (length sub))) [
      | inl short ↦ inr (
        λ r e. absurd (ground (arith, ap (λ (l : Text). length l) e, length-append r sub)),
        rw short,
      )
      | inr long ↦ elim (Bool-cases (text_eq (drop n s) sub)) [
        | inl hit ↦ inl (
          take n s,
          sym (take-append-drop n s) ∙ ap (λ l. take n s ++ l) (eq_of_text_eq (drop n s) sub hit),
          rw (long, hit),
        )
        | inr miss ↦ inr (
          λ r e.
              let size : n ≡ length r =
                omega (arith, ap (λ (l : Text). length l) e, length-append r sub) in
              let end = ap (drop n) e ∙ drop-length-append r sub n size in
              cc (ap (λ l. text_eq l sub) end, text_eq_self sub, miss),
          rw (long, miss),
        )
      ]
    ]

pub pop_if_back-snoc :
    (ys : Text) (c d : ℕ) → pop_if_back (ys ++ c ∷ []) d ≡ ok (if c == d then ys else ys ++ c ∷ [])
unfolding pop_if_back
pop_if_back-snoc ys c d = rw (last?-snoc ys c, pop_back-snoc ys c)

pop_if_back-cons : (x : ℕ) (xs : Text) (d : ℕ) → pop_if_back (x ∷ xs) d ≢ fault
pop_if_back-cons x xs d h =
    let (ys, c, split) = snoc_view x xs in
    cc (ap (λ l. pop_if_back l d) split, pop_if_back-snoc ys c d, h)

pop_crlf-snoc : (ys : Text) (c : ℕ) → pop_crlf (ys ++ c ∷ []) ≡ fault → ys ++ c ∷ [] ≡ lf ∷ []
unfolding pop_crlf
pop_crlf-snoc [] c h = elim (Bool-cases (c == lf)) [
  | inl hit ↦ ap (λ b. b ∷ []) ((==_iff c lf).0 hit)
  | inr miss ↦ absurd (pop_if_back-cons c [] cr (rw (pop_if_back-snoc [] c lf, miss) at h))
]
pop_crlf-snoc (y ∷ ys) c h = elim (Bool-cases (c == lf)) [
  | inl hit ↦ absurd (pop_if_back-cons y ys cr (rw (pop_if_back-snoc (y ∷ ys) c lf, hit) at h))
  | inr miss ↦
      absurd (pop_if_back-cons y (ys ++ c ∷ []) cr (rw (pop_if_back-snoc (y ∷ ys) c lf, miss) at h))
]

pop_crlf-fault_only : (s : Text) → pop_crlf s ≡ fault → (s ≡ []) ⊎ (s ≡ lf ∷ [])
pop_crlf-fault_only [] h = inl refl
pop_crlf-fault_only (x ∷ xs) h =
    let (ys, c, split) = snoc_view x xs in
    inr (split ∙ pop_crlf-snoc ys c (ap pop_crlf (sym split) ∙ h))

pop_crlf-faults : (s : Text) → (s ≡ []) ⊎ (s ≡ lf ∷ []) → pop_crlf s ≡ fault
unfolding pop_crlf pop_if_back
pop_crlf-faults s (inl e) = rw e
pop_crlf-faults s (inr e) = rw e

-- `pop_crlf` is undefined exactly on the empty string and on a lone line feed.
pub pop_crlf-fault : (s : Text) → (pop_crlf s ≡ fault) ↔ ((s ≡ []) ⊎ (s ≡ lf ∷ []))
pop_crlf-fault s = (pop_crlf-fault_only s, pop_crlf-faults s)
