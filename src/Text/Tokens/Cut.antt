-- ===== src/Text/Tokens/Cut.antt =====
-- The tokens of a string are its pieces between the delimiters.
use cpp_tools.Base.{
  ℕ, Bool, true, false, List, [], ◌∷◌, ◌++◌, none, some, ◌==◌, ◌≡◌, refl, ap, inl, inr, ◌⊎◌,
  if◌then◌else◌, Bool-cases, arith, ==_iff,
}
use cpp_tools.Tree.Node.{last?}
use cpp_tools.Text.Chars.{Text}
use cpp_tools.Text.Contains.{count}
use cpp_tools.Text.Tokens.{take_line, is_empty, push_token, ends_with}

abbrev pub put_head : ℕ → List Text → List Text
put_head x [] = (x ∷ []) ∷ []
put_head x (t ∷ ts) = (x ∷ t) ∷ ts

-- The pieces between the delimiters: one more than there are delimiters.
abbrev pub pieces : ℕ → Text → List Text
pieces c [] = [] ∷ []
pieces c (x ∷ s) = let rest = pieces c s in if x == c then [] ∷ rest else put_head x rest

abbrev pub nonempty : List Text → List Text
nonempty [] = []
nonempty (t ∷ ts) = if is_empty t then nonempty ts else t ∷ nonempty ts

abbrev pub select : Bool → List Text → List Text
select discard_empty ts = if discard_empty then nonempty ts else ts

pub pieces-none : (c : ℕ) (s : Text) → count c s ≡ 0 → pieces c s ≡ s ∷ []
pieces-none c [] h = refl
pieces-none c (x ∷ s) h = elim (Bool-cases (x == c)) [
  | inl hit ↦ absurd (ground arith)
  | inr miss ↦ rw (miss, pieces-none c s (ground arith))
]

pub take_line-cases :
    (c : ℕ) (s : Text)
    → ((take_line c s ≡ (s, [])) × (count c s ≡ 0))
      ⊎ ((t : Text) × (r : Text) × (take_line c s ≡ (t, r))
          × (s ≡ t ++ c ∷ r)
          × (pieces c s ≡ t ∷ pieces c r))
take_line-cases c [] = inl (refl, refl)
take_line-cases c (x ∷ s) = elim (Bool-cases (x == c)) [
  | inl hit ↦ inr ([], s, rw hit, ap (λ b. b ∷ s) ((==_iff x c).0 hit), rw hit)
  | inr miss ↦ elim (take_line-cases c s) [
    | inl (e, none_left) ↦ inl (rw (miss, e), rw (miss, none_left))
    | inr (t, r, e, split, cut) ↦
        inr (x ∷ t, r, rw (miss, e), ap (λ l. x ∷ l) split, rw (miss, cut))
  ]
]

last?-append : (t : Text) (c : ℕ) (r : Text) (x : ℕ) → last? (t ++ c ∷ x ∷ r) ≡ last? (x ∷ r)
last?-append [] c r x = refl
last?-append (y ∷ []) c r x = refl
last?-append (y ∷ z ∷ t) c r x = last?-append (z ∷ t) c r x

last?-delimiter : (t : Text) (c : ℕ) → ends_with (t ++ c ∷ []) c ≡ true
last?-delimiter [] c = ground arith
last?-delimiter (x ∷ []) c = ground arith
last?-delimiter (x ∷ y ∷ t) c = last?-delimiter (y ∷ t) c

pub count-ends_with : (c : ℕ) (s : Text) → count c s ≡ 0 → ends_with s c ≡ false
count-ends_with c [] h = refl
count-ends_with c (x ∷ []) h = ground arith
count-ends_with c (x ∷ y ∷ s) h = count-ends_with c (y ∷ s) (ground arith)

-- The piece that `std::getline` does not read: the empty one at the end.
abbrev pub unread : ℕ → Text → List Text
unread c [] = [] ∷ []
unread c (x ∷ s) = if ends_with (x ∷ s) c then [] ∷ [] else []

pub unread-behind : (t : Text) (c : ℕ) (r : Text) → unread c (t ++ c ∷ r) ≡ unread c r
unread-behind [] c [] = ground arith
unread-behind [] c (y ∷ r) = refl
unread-behind (x ∷ t) c [] = rw (last?-delimiter (x ∷ t) c)
unread-behind (x ∷ t) c (y ∷ r) =
    ap (λ o. if elim o [ none ↦ false | some b ↦ b == c ] then [] ∷ [] else [])
      (last?-append (x ∷ t) c r y)

pub push_token-select :
    (d : Bool) (t : Text) (ts : List Text) → push_token d t (select d ts) ≡ select d (t ∷ ts)
push_token-select true [] ts = refl
push_token-select true (x ∷ t) ts = refl
push_token-select false [] ts = refl
push_token-select false (x ∷ t) ts = refl
