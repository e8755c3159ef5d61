-- ===== src/Cli/Arguments/Parse/Unknown.antt =====
-- An argument that no specification names.
use cpp_tools.Base.{
  ℕ, zero, suc, ◌<◌, true, List, [], ◌∷◌, Option, none, some, ◌≡◌, inl, inr, refl, arith, length,
  length-append, ◌∙◌,
}
use cpp_tools.Base.Int.{pos}
use cpp_tools.Base.Run.{Run, undefined}
use cpp_tools.Text.Chars.{Text}
use cpp_tools.Cli.Arguments.{Argument, Thrown}
use cpp_tools.Cli.Arguments.Specs.{
  find_long, find_one, handle_long_arg, handle_short_arg, handle_bad_arg,
}
use cpp_tools.Cli.Arguments.Specs.Valid.{valid, validate_arg_specs-valid}
use cpp_tools.Cli.Arguments.Values.{ValueMap, insert}
use cpp_tools.Cli.Arguments.Parse.{
  Form, long, short, plain, form, handle_arg, use_spec, described_loop, parse_described,
}
use cpp_tools.Cli.Arguments.Parse.Described.{named_by, Call, write_before, described_loop-call}

-- The calls name their specifications, and have the values that those ask for, by number.
abbrev pub Counted : List Argument → List Call → Type 0
Counted specs [] = Unit
Counted specs ((a, spec, values) ∷ more) =
    (named_by a specs ≡ some spec) × (spec.value_count ≡ pos (length values)) × Counted specs more

use_spec-none :
    (found : Option Argument × Text) (rest : List Text) (m : ValueMap)
    (again : List Text → ValueMap → Text → Run Thrown (ValueMap × Text))
    → found.0 ≡ none
    → use_spec found rest m again ≡ undefined
use_spec-none (none, out) rest m again h = refl
use_spec-none (some spec, out) rest m again h = cc

handle_arg-unknown :
    (a : Text) (specs : List Argument) (out : Text)
    → named_by a specs ≡ none
    → (handle_arg a specs out).0 ≡ none
unfolding handle_long_arg handle_short_arg
handle_arg-unknown a specs out h = of_form (form a) h
  where
    of_form :
        (f : Form)
        → (elim f [ long s ↦ find_long s specs | short s ↦ find_one s specs | plain ↦ none ]) ≡ none
        → (elim f as (λ x. Option Argument × Text) [
          | long s ↦ handle_long_arg s specs out
          | short s ↦ handle_short_arg s specs out
          | plain ↦ (none, handle_bad_arg a specs out)
        ]).0
          ≡ none
    of_form (long s) h = rw (handle_long_arg, h)
    of_form (short s) h = rw (handle_short_arg, h)
    of_form plain h = refl

described_loop-unknown :
    (k : ℕ) (specs : List Argument) (calls : List Call) (a : Text) (rest : List Text) (m : ValueMap)
    (out : Text)
    → Counted specs calls
    → named_by a specs ≡ none
    → length (write_before calls (a ∷ rest)) < k
    → described_loop k specs (write_before calls (a ∷ rest)) m out ≡ undefined
unfolding described_loop
described_loop-unknown zero specs calls a rest m out counted unknown enough = absurd (omega arith)
described_loop-unknown (suc k) specs [] a rest m out counted unknown enough =
    use_spec-none (handle_arg a specs out) rest m (described_loop k specs)
      (handle_arg-unknown a specs out unknown)
described_loop-unknown (suc k) specs ((b, spec, values) ∷ more) a rest m out counted unknown
      enough =
    let behind = write_before more (a ∷ rest) in
    let left : length behind < k = omega (arith, length-append values behind) in
    described_loop-call k specs b spec values behind m out counted.0 (inl counted.1)
    ∙ described_loop-unknown k specs more a rest (insert spec.name values m) out counted.2 unknown
        left

-- An argument that no specification names, behind calls that have their values by number, is undefined
-- behaviour: after the warning that it will be ignored, the parser reads the specification that it has not
-- found.
pub parse_described-unknown :
    (specs : List Argument) (program : Text) (calls : List Call) (a : Text) (rest : List Text)
    (out : Text)
    → valid specs ≡ true
    → Counted specs calls
    → named_by a specs ≡ none
    → parse_described specs (program ∷ write_before calls (a ∷ rest)) out ≡ undefined
unfolding parse_described
parse_described-unknown specs program calls a rest out v counted unknown =
    elim (validate_arg_specs-valid specs) [
      | inr (invalid, e, thrown) ↦ absurd (ground (arith, v, invalid))
      | inl (h, met, checked) ↦ rw (
        checked,
        described_loop-unknown (suc (suc (length (write_before calls (a ∷ rest))))) specs calls a
            rest [] out counted unknown (omega arith),
      )
    ]
