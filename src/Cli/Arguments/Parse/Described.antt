-- ===== src/Cli/Arguments/Parse/Described.antt =====
-- A command line that follows its specifications is parsed as it was meant; an argument that no
-- specification names is undefined behaviour.
use cpp_tools.Base.{
  ℕ, zero, suc, ◌<◌, Bool, true, false, List, [], ◌∷◌, ◌++◌, Option, none, some, ◌≡◌, ◌⊎◌, inl, inr,
  refl, arith, length, length-append, drop, take, ◌∙◌, ap, ltb, ◌||◌, append-nil, Bool-cases,
}
use mathlib.Core.Path.{subst}
use cpp_tools.Base.Int.{ℤ, pos, negsuc}
use cpp_tools.Base.Run.{done}
use cpp_tools.Text.Chars.{Text}
use cpp_tools.Cli.Arguments.{Argument, ArgumentName, Necessity, optional, required, name_eq}
use cpp_tools.Cli.Arguments.Specs.{
  find_long, find_one, handle_long_arg, handle_short_arg, handle_bad_arg,
}
use cpp_tools.Cli.Arguments.Specs.Valid.{valid, all, validate_arg_specs-valid}
use cpp_tools.Cli.Arguments.Values.{ValueMap, insert}
use cpp_tools.Cli.Arguments.Values.Map.{eq_of_name_eq}
use cpp_tools.Cli.Arguments.Values.Has.{
  holds, is_named, has_name-holds, holds-insert, holds-insert_self,
}
use cpp_tools.Cli.Arguments.Parse.{
  Form, long, short, plain, form, handle_arg, taken, use_spec, described_loop, check_required,
  parse_described,
}

-- The specification that an argument names.
abbrev pub named_by : Text → List Argument → Option Argument
named_by a specs = elim (form a) [
  | long s ↦ find_long s specs
  | short s ↦ find_one s specs
  | plain ↦ none
]

-- An argument as written, its specification, and its values.
abbrev pub Call : Type 0
Call = Text × Argument × List Text

abbrev pub write_before : List Call → List Text → List Text
write_before [] rest = rest
write_before ((a, spec, values) ∷ more) rest = a ∷ (values ++ write_before more rest)

abbrev pub write_calls : List Call → List Text
write_calls calls = write_before calls []

-- Each argument names its specification and has as many values as that asks for; an argument that takes
-- what is left is the last.
abbrev pub Follows : List Argument → List Call → Type 0
Follows specs [] = Unit
Follows specs ((a, spec, values) ∷ more) =
    (named_by a specs ≡ some spec)
    × ((spec.value_count ≡ pos (length values)) ⊎ ((spec.value_count ≡ negsuc 0) × (more ≡ [])))
    × Follows specs more

abbrev pub fill : List Call → ValueMap → ValueMap
fill [] m = m
fill ((a, spec, values) ∷ more) m = fill more (insert spec.name values m)

handle_arg-named :
    (a : Text) (specs : List Argument) (out : Text) (spec : Argument)
    → named_by a specs ≡ some spec
    → handle_arg a specs out ≡ (some spec, out)
unfolding handle_long_arg handle_short_arg
handle_arg-named a specs out spec h = of_form (form a) h
  where
    of_form :
        (f : Form)
        → (elim f [ long s ↦ find_long s specs | short s ↦ find_one s specs | plain ↦ none ])
          ≡ some spec
        → (elim f [
          | long s ↦ handle_long_arg s specs out
          | short s ↦ handle_short_arg s specs out
          | plain ↦ (none, handle_bad_arg a specs out)
        ])
          ≡ (some spec, out)
    of_form (long s) h = rw (handle_long_arg, h)
    of_form (short s) h = rw (handle_short_arg, h)
    of_form plain h = cc

taken-fits :
    (count : ℤ) (values rest : List Text)
    → (count ≡ pos (length values)) ⊎ ((count ≡ negsuc 0) × (rest ≡ []))
    → taken count (length (values ++ rest)) ≡ done (length values)
taken-fits count values rest (inl e) =
    let enough : ltb (length (values ++ rest)) (length values) ≡ false =
      ground (arith, length-append values rest) in
    rw (e, enough)
taken-fits count values rest (inr (e, none_left)) = rw (e, none_left, append-nil)

take-append : (values rest : List Text) → take (length values) (values ++ rest) ≡ values
take-append [] rest = refl
take-append (v ∷ values) rest = ap (λ l. v ∷ l) (take-append values rest)

drop-append : (values rest : List Text) → drop (length values) (values ++ rest) ≡ rest
drop-append [] rest = refl
drop-append (v ∷ values) rest = drop-append values rest

pub last_of :
    (count : ℤ) (n : ℕ) (more : List Call)
    → (count ≡ pos n) ⊎ ((count ≡ negsuc 0) × (more ≡ []))
    → (count ≡ pos n) ⊎ ((count ≡ negsuc 0) × (write_calls more ≡ []))
last_of count n more (inl e) = inl e
last_of count n more (inr (e, last)) = inr (e, ap write_calls last)

Necessity-cases : (n : Necessity) → (n ≡ optional) ⊎ (n ≡ required)
Necessity-cases optional = inl refl
Necessity-cases required = inr refl

pub described_loop-call :
    (k : ℕ) (specs : List Argument) (a : Text) (spec : Argument) (values rest : List Text)
    (m : ValueMap) (out : Text)
    → named_by a specs ≡ some spec
    → (spec.value_count ≡ pos (length values)) ⊎ ((spec.value_count ≡ negsuc 0) × (rest ≡ []))
    → described_loop (suc k) specs (a ∷ (values ++ rest)) m out
      ≡ described_loop k specs rest (insert spec.name values m) out
unfolding described_loop
described_loop-call k specs a spec values rest m out name fits =
    ap (λ found. use_spec found (values ++ rest) m (described_loop k specs))
      (handle_arg-named a specs out spec name)
    ∙ rw (
      taken-fits spec.value_count values rest fits,
      take-append values rest,
      drop-append values rest,
    )

described_loop-calls :
    (k : ℕ) (specs : List Argument) (calls : List Call) (m : ValueMap) (out : Text)
    → Follows specs calls
    → length (write_calls calls) < k
    → described_loop k specs (write_calls calls) m out ≡ done (fill calls m, out)
unfolding described_loop
described_loop-calls zero specs calls m out follows enough = absurd (omega arith)
described_loop-calls (suc k) specs [] m out follows enough = refl
described_loop-calls (suc k) specs ((a, spec, values) ∷ more) m out follows enough =
    let rest = write_calls more in
    let left : length rest < k = omega (arith, length-append values rest) in
    described_loop-call k specs a spec values rest m out follows.0
      (last_of spec.value_count (length values) more follows.1)
    ∙ described_loop-calls k specs more (insert spec.name values m) out follows.2 left

-- A required specification is that of some call.
abbrev pub mentions : List Call → ArgumentName → Bool
mentions [] n = false
mentions ((a, spec, values) ∷ more) n = name_eq spec.name n || mentions more n

abbrev pub covered : List Call → Argument → Bool
covered calls spec = elim spec.necessity [ optional ↦ true | required ↦ mentions calls spec.name ]

holds-fill_old :
    (calls : List Call) (n : ArgumentName) (m : ValueMap)
    → holds n m ≡ true
    → holds n (fill calls m) ≡ true
holds-fill_old [] n m h = h
holds-fill_old ((a, spec, values) ∷ more) n m h =
    holds-fill_old more n (insert spec.name values m) (holds-insert n spec.name values m h)

holds-fill :
    (calls : List Call) (n : ArgumentName) (m : ValueMap)
    → is_named n ≡ true
    → mentions calls n ≡ true
    → holds n (fill calls m) ≡ true
holds-fill [] n m is h = cc
holds-fill ((a, spec, values) ∷ more) n m is h = elim (Bool-cases (name_eq spec.name n)) [
  | inl same ↦
      let names = eq_of_name_eq spec.name n same in
      let there : holds spec.name (insert spec.name values m) ≡ true =
        holds-insert_self spec.name values m (rw names is) in
      holds-fill_old more n (insert spec.name values m)
        (subst (λ k. holds k (insert spec.name values m) ≡ true) names there)
  | inr other ↦ holds-fill more n (insert spec.name values m) is (rw other at h)
]

check_required-fill :
    (specs : List Argument) (calls : List Call)
    → valid specs ≡ true
    → all (covered calls) specs ≡ true
    → check_required specs (fill calls []) ≡ done (fill calls [])
unfolding check_required
check_required-fill [] calls v h = refl
check_required-fill (spec ∷ specs) calls v h =
    let rest = check_required-fill specs calls (ground (arith, v)) (ground (arith, h)) in
    elim (Necessity-cases spec.necessity) [
      | inl free ↦ rw (check_required, free) rest
      | inr bound ↦
          let is : is_named spec.name ≡ true = ground (arith, v) in
          let there : holds spec.name (fill calls []) ≡ true =
            holds-fill calls spec.name [] is (ground (arith, h, bound)) in
          rw (check_required, bound, has_name-holds spec.name (fill calls []) is, there) rest
    ]

-- With valid specifications, a command line on which each argument is named by its long or its short name
-- and has as many values as its specification asks for is parsed into the map of those values, the later
-- ones over the earlier; every required argument has to be there, and an argument that takes what is left
-- has to be the last. The values may be any texts, and no warning is written.
pub parse_described-calls :
    (specs : List Argument) (program : Text) (calls : List Call) (out : Text)
    → valid specs ≡ true
    → Follows specs calls
    → all (covered calls) specs ≡ true
    → parse_described specs (program ∷ write_calls calls) out ≡ done (fill calls [], out)
unfolding parse_described
parse_described-calls specs program calls out v follows all_there =
    elim (validate_arg_specs-valid specs) [
      | inr (invalid, e, thrown) ↦ absurd (ground (arith, v, invalid))
      | inl (h, met, checked) ↦ rw (
        checked,
        described_loop-calls (suc (suc (length (write_calls calls)))) specs calls [] out follows
            (omega arith),
        check_required-fill specs calls v all_there,
      )
    ]
