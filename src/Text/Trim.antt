-- ===== src/Text/Trim.antt =====
-- `is_whitespace` and `trim`.
use cpp_tools.Base.{
  ℕ, zero, suc, Bool, true, false, [], ◌∷◌, ◌++◌, none, some, ◌≡◌, refl, sym, ap, ◌∙◌, inl, inr,
  arith, Bool-cases, if◌then◌else◌, length, take, drop, get_elem?, append_assoc, take-append-drop,
  Option-cases, eq_of_some,
}
use mathlib.Core.List.{concat-ne-nil}
use mathlib.Core.Path.{subst}
use cpp_tools.Text.Pop.{last?-snoc}
use cpp_tools.Tree.Node.{last?}
use cpp_tools.Text.Chars.{Text, is_space, All}

unfoldable pub is_whitespace : Text → Bool
is_whitespace [] = true
is_whitespace (c ∷ s) = if is_space c then is_whitespace s else false

-- `str.erase(str.begin(), std::find_if(str.begin(), str.end(), not_whitespace))`
unfoldable pub erase_front : Text → Text
erase_front [] = []
erase_front (c ∷ s) = let rest = erase_front s in if is_space c then rest else c ∷ s

-- How many bytes stand before the base of `std::find_if(str.rbegin(), str.rend(), not_whitespace)`,
-- where the search has come down to the position `i`.
unfoldable pub kept : ℕ → Text → ℕ
kept zero s = zero
kept (suc i) s =
    let rest = kept i s in
    elim (get_elem? s i) [ none ↦ rest | some c ↦ if is_space c then rest else suc i ]

unfoldable pub trim : Text → Text
unfolding erase_front kept
trim s = let s' = erase_front s in take (kept (length s') s') s'

abbrev pub Space : ℕ → Type 0
Space c = is_space c ≡ true

is_whitespace-All : (s : Text) → is_whitespace s ≡ true → All Space s
unfolding is_whitespace
is_whitespace-All [] h = tt
is_whitespace-All (c ∷ s) h = ground (arith, is_whitespace-All s)

All-is_whitespace : (s : Text) → All Space s → is_whitespace s ≡ true
unfolding is_whitespace
All-is_whitespace [] h = refl
All-is_whitespace (c ∷ s) h = rw (h.0, All-is_whitespace s h.1)

erase_front_parts : (s : Text) → (before : Text) × (s ≡ before ++ erase_front s) × All Space before
unfolding erase_front
erase_front_parts [] = ([], refl, tt)
erase_front_parts (c ∷ s) = elim (Bool-cases (is_space c)) [
  | inl space ↦
      let (before, e, all) = erase_front_parts s in
      (c ∷ before, rw space (ap (λ l. c ∷ l) e), (space, all))
  | inr other ↦ ([], rw other, tt)
]

erase_front_head : (s : Text) (c : ℕ) (r : Text) → erase_front s ≡ c ∷ r → is_space c ≡ false
unfolding erase_front
erase_front_head [] c r e = cc
erase_front_head (x ∷ s) c r e = ground (arith, erase_front_head s c r)

drop_at : (s : Text) (i c : ℕ) → get_elem? s i ≡ some c → drop i s ≡ c ∷ drop (suc i) s
drop_at [] zero c e = cc
drop_at [] (suc i) c e = cc
drop_at (x ∷ s) zero c e = ground (arith, e)
drop_at (x ∷ s) (suc i) c e = drop_at s i c e

take_at : (s : Text) (i c : ℕ) → get_elem? s i ≡ some c → take (suc i) s ≡ take i s ++ c ∷ []
take_at [] zero c e = cc
take_at [] (suc i) c e = cc
take_at (x ∷ s) zero c e = ground (arith, e)
take_at (x ∷ s) (suc i) c e = ap (λ l. x ∷ l) (take_at s i c e)

drop_past : (s : Text) (i : ℕ) → get_elem? s i ≡ none → drop i s ≡ []
drop_past [] zero e = refl
drop_past [] (suc i) e = refl
drop_past (x ∷ s) zero e = cc
drop_past (x ∷ s) (suc i) e = drop_past s i e

drop-length : (s : Text) → drop (length s) s ≡ []
drop-length [] = refl
drop-length (x ∷ s) = drop-length s

kept_past : (i : ℕ) (s : Text) → get_elem? s i ≡ none → kept (suc i) s ≡ kept i s
unfolding kept
kept_past i s past = rw (kept, past)

kept_space :
    (i : ℕ) (s : Text) (c : ℕ)
    → get_elem? s i ≡ some c
    → is_space c ≡ true
    → kept (suc i) s ≡ kept i s
unfolding kept
kept_space i s c here space = rw (kept, here, space)

kept_other :
    (i : ℕ) (s : Text) (c : ℕ)
    → get_elem? s i ≡ some c
    → is_space c ≡ false
    → kept (suc i) s ≡ suc i
unfolding kept
kept_other i s c here other = rw (kept, here, other)

kept_spaces : (i : ℕ) (s : Text) → All Space (drop i s) → All Space (drop (kept i s) s)
unfolding kept
kept_spaces zero s all = all
kept_spaces (suc i) s all = elim (Option-cases (get_elem? s i)) [
  | inl past ↦
      rw (kept_past i s past) (kept_spaces i s (subst (All Space) (sym (drop_past s i past)) tt))
  | inr (c, here) ↦ elim (Bool-cases (is_space c)) [
    | inl space ↦
        rw (kept_space i s c here space)
          (kept_spaces i s (subst (All Space) (sym (drop_at s i c here)) (space, all)))
    | inr other ↦ rw (kept_other i s c here other) all
  ]
]

kept_last :
    (i : ℕ) (s : Text) (j : ℕ)
    → kept i s ≡ suc j
    → (c : ℕ) × (get_elem? s j ≡ some c) × (is_space c ≡ false)
unfolding kept
kept_last zero s j e = absurd (omega arith)
kept_last (suc i) s j e = elim (Option-cases (get_elem? s i)) [
  | inl past ↦ kept_last i s j (sym (kept_past i s past) ∙ e)
  | inr (c, here) ↦ elim (Bool-cases (is_space c)) [
    | inl space ↦ kept_last i s j (sym (kept_space i s c here space) ∙ e)
    | inr other ↦
        let same : suc i ≡ suc j = sym (kept_other i s c here other) ∙ e in
        let ij : i ≡ j = omega arith in (c, ap (get_elem? s) (sym ij) ∙ here, other)
  ]
]

-- The first byte of a prefix of a text is that of the text.
take_head : (n : ℕ) (s : Text) (c : ℕ) (r : Text) → take n s ≡ c ∷ r → (r' : Text) × (s ≡ c ∷ r')
take_head zero s c r e = cc
take_head (suc n) [] c r e = cc
take_head (suc n) (x ∷ s) c r e = (s, ground arith)

take_last :
    (n : ℕ) (s : Text)
    → ((j : ℕ) → n ≡ suc j → (c : ℕ) × (get_elem? s j ≡ some c) × (is_space c ≡ false))
    → (r : Text) (c : ℕ) → take n s ≡ r ++ c ∷ []
    → is_space c ≡ false
take_last zero s last r c e = absurd (concat-ne-nil c r (sym e))
take_last (suc j) s last r c e =
    let (d, here, other) = last j refl in
    let same : some d ≡ some c =
      sym (last?-snoc (take j s) d) ∙ ap last? (sym (take_at s j d here) ∙ e) ∙ last?-snoc r c in
    rw (← eq_of_some same) other

-- `trim` cuts whitespace off both ends, and what it leaves neither begins nor ends with any.
pub trim_parts :
    (s : Text)
    → (before : Text) × (after : Text) × (s ≡ before ++ trim s ++ after)
      × All Space before
      × All Space after
      × ((c : ℕ) (r : Text) → trim s ≡ c ∷ r → is_space c ≡ false)
      × ((r : Text) (c : ℕ) → trim s ≡ r ++ c ∷ [] → is_space c ≡ false)
unfolding trim
trim_parts s =
    let (before, split, all) = erase_front_parts s in
    let s' = erase_front s in
    let n = kept (length s') s' in
    (
      before,
      drop n s',
      split
          ∙ ap (λ l. before ++ l) (sym (take-append-drop n s'))
          ∙ sym (append_assoc before (take n s') (drop n s')),
      all,
      kept_spaces (length s') s' (subst (All Space) (sym (drop-length s')) tt),
      λ c r e. let (r', e') = take_head n s' c r e in erase_front_head s c r' e',
      λ r c e. take_last n s' (λ j h. kept_last (length s') s' j h) r c e,
    )
