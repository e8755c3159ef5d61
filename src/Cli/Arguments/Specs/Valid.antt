-- ===== src/Cli/Arguments/Specs/Valid.antt =====
-- Which specifications `validate_arg_specs` accepts.
use cpp_tools.Base.{
  ℕ, Bool, true, false, not, List, [], ◌∷◌, Option, none, some, ◌==◌, ◌&&◌, ◌||◌, ◌≡◌, ◌⊎◌, inl,
  inr, refl, arith, Bool-cases, if◌then◌else◌,
}
use cpp_tools.Base.Run.{Run, done, throws, undefined, no_fuel}
use cpp_tools.Text.Chars.{Text, text_eq, eq_of_text_eq}
use cpp_tools.Text.Tokens.{is_empty}
use cpp_tools.Cli.Arguments.{Argument, Thrown}
use cpp_tools.Cli.Arguments.Specs.{
  has_text, has_byte, consumes, Met, meet, validate_loop, none_met, validate_arg_specs,
}

abbrev pub all {ℓ} : {A : Type ℓ} → (A → Bool) → List A → Bool
all test [] = true
all test (x ∷ xs) = test x && all test xs

abbrev pub named : Argument → Bool
named a = not (is_empty a.name.long_name && a.name.short_name == 0)

-- Two specifications share no name, and not both take what is left of the command line.
abbrev pub compatible : Argument → Argument → Bool
compatible a b =
    (is_empty b.name.long_name || not (text_eq a.name.long_name b.name.long_name))
    && ((b.name.short_name == 0 || not (a.name.short_name == b.name.short_name))
        && not (consumes a && consumes b))

-- Every specification has a name, and any two are compatible.
abbrev pub valid : List Argument → Bool
valid [] = true
valid (a ∷ specs) = named a && (all (compatible a) specs && valid specs)

abbrev is_none {ℓ} : {A : Type ℓ} → Option A → Bool
is_none none = true
is_none (some a) = false

abbrev fresh_long : Text → Met → Bool
fresh_long s met = is_empty s || not (has_text met.long_names s)

abbrev fresh_short : ℕ → Met → Bool
fresh_short c met = c == 0 || not (has_byte met.short_names c)

abbrev fresh_count : Argument → Met → Bool
fresh_count a met = not (consumes a) || is_none met.first_consuming

abbrev fresh : Met → Argument → Bool
fresh met a =
    named a
    && (fresh_long a.name.long_name met && (fresh_short a.name.short_name met && fresh_count a met))

abbrev extend : Argument → Met → Met
extend a met = record {
  long_names =
      if is_empty a.name.long_name then met.long_names else a.name.long_name ∷ met.long_names;
  short_names =
      if a.name.short_name == 0 then met.short_names else a.name.short_name ∷ met.short_names;
  first_consuming = if consumes a then some a.name else met.first_consuming;
}

meet-fresh : (a : Argument) (met : Met) → fresh met a ≡ true → meet a met ≡ done (extend a met)
meet-fresh a met h = ground arith

abbrev is_thrown {ℓ} : {A : Type ℓ} → Run Thrown A → Bool
is_thrown (throws e) = true
is_thrown _ = false

thrown_there {ℓ} :
    {A : Type ℓ} (r : Run Thrown A) → is_thrown r ≡ true → (e : Thrown) × (r ≡ throws e)
thrown_there (throws e) h = (e, refl)
thrown_there (done a) h = cc
thrown_there undefined h = cc
thrown_there no_fuel h = cc

meet-stale : (a : Argument) (met : Met) → fresh met a ≡ false → is_thrown (meet a met) ≡ true
meet-stale a met h = ground arith

fresh-extend :
    (a b : Argument) (met : Met)
    → fresh met a ≡ true
    → fresh (extend a met) b ≡ (fresh met b && compatible a b)
fresh-extend a b met h = ground (arith, eq_of_text_eq a.name.long_name b.name.long_name)

all-extend :
    (a : Argument) (met : Met) (specs : List Argument)
    → fresh met a ≡ true
    → all (fresh (extend a met)) specs ≡ (all (fresh met) specs && all (compatible a) specs)
all-extend a met [] h = refl
all-extend a met (b ∷ specs) h =
    rw (fresh-extend a b met h, all-extend a met specs h) (ground arith)

-- The specifications that the loop accepts, after those that it has met.
abbrev accepts : Met → List Argument → Bool
accepts met specs = all (fresh met) specs && valid specs

validate_loop-accepts :
    (specs : List Argument) (met : Met)
    → ((accepts met specs ≡ true) × (met' : Met) × (validate_loop specs met ≡ done met'))
      ⊎ ((accepts met specs ≡ false) × (e : Thrown) × (validate_loop specs met ≡ throws e))
unfolding validate_loop
validate_loop-accepts [] met = inl (refl, met, refl)
validate_loop-accepts (a ∷ specs) met = elim (Bool-cases (fresh met a)) [
  | inr stale ↦
      let (e, thrown) = thrown_there (meet a met) (meet-stale a met stale) in
      inr (ground (arith, stale), e, rw thrown)
  | inl new ↦
      let same = all-extend a met specs new in
      elim (validate_loop-accepts specs (extend a met)) [
        | inl (h, met', e) ↦
            inl (ground (arith, new, same, h), met', rw (validate_loop, meet-fresh a met new) e)
        | inr (h, t, e) ↦
            inr (ground (arith, new, same, h), t, rw (validate_loop, meet-fresh a met new) e)
      ]
]

all-none : (specs : List Argument) → valid specs ≡ true → all (fresh none_met) specs ≡ true
all-none [] h = refl
all-none (a ∷ specs) h = ground (arith, all-none specs)

accepts-none : (specs : List Argument) → accepts none_met specs ≡ valid specs
accepts-none specs = ground (arith, all-none specs)

-- `validate_arg_specs` returns where every specification has a name, no two share a long or a short name,
-- and at most one takes what is left of the command line, and throws for all others.
pub validate_arg_specs-valid :
    (specs : List Argument)
    → ((valid specs ≡ true) × (met : Met) × (validate_arg_specs specs ≡ done met))
      ⊎ ((valid specs ≡ false) × (e : Thrown) × (validate_arg_specs specs ≡ throws e))
unfolding validate_arg_specs
validate_arg_specs-valid specs = rw (← accepts-none specs) (validate_loop-accepts specs none_met)
