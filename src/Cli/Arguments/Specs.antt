-- ===== src/Cli/Arguments/Specs.antt =====
-- `validate_arg_specs`, and looking a specification up by the name that stands on the command line.
pub mod Valid
use cpp_tools.Base.{
  ℕ, Bool, true, false, List, [], ◌∷◌, ◌++◌, Option, none, some, ◌==◌, ◌&&◌, ◌||◌, if◌then◌else◌,
}
use cpp_tools.Base.Int.{ℤ, pos, negsuc}
use cpp_tools.Base.Run.{Run, done, throws, ◌>>=◌}
use cpp_tools.Text.Chars.{Text, text_eq, codes}
use cpp_tools.Text.Tokens.{is_empty}
use cpp_tools.Cli.Arguments.{
  Argument, ArgumentName, Thrown, param_with_no_name, multiple_params_with_same_long_name,
  multiple_params_with_same_short_name, multiple_consume_remaining_args,
}

-- `std::set::contains`
abbrev pub has_text : List Text → Text → Bool
has_text [] s = false
has_text (x ∷ xs) s = text_eq x s || has_text xs s

abbrev pub has_byte : List ℕ → ℕ → Bool
has_byte [] c = false
has_byte (x ∷ xs) c = x == c || has_byte xs c

abbrev pub consumes : Argument → Bool
consumes spec = elim spec.value_count [ negsuc n ↦ n == 0 | pos n ↦ false ]

-- The names that the loop has met, and the first specification that takes what is left.
pub record Met : Type 0 where
  pub long_names : List Text
  pub short_names : List ℕ
  pub first_consuming : Option ArgumentName

abbrev pub meet_long : Text → Met → Run Thrown Met
meet_long s met =
    if is_empty s
    then done met
    else if has_text met.long_names s
    then throws (multiple_params_with_same_long_name s)
    else done (record met { long_names = s ∷ met.long_names })

abbrev pub meet_short : ℕ → Met → Run Thrown Met
meet_short c met =
    if c == 0
    then done met
    else if has_byte met.short_names c
    then throws (multiple_params_with_same_short_name c)
    else done (record met { short_names = c ∷ met.short_names })

abbrev pub meet_count : Argument → Met → Run Thrown Met
meet_count spec met =
    if consumes spec
    then (elim met.first_consuming [
      | none ↦ done (record met { first_consuming = some spec.name })
      | some first ↦ throws (multiple_consume_remaining_args first spec.name)
    ])
    else done met

abbrev pub meet : Argument → Met → Run Thrown Met
meet spec met =
    if is_empty spec.name.long_name && spec.name.short_name == 0
    then throws param_with_no_name
    else do
      met1 ← meet_long spec.name.long_name met
      met2 ← meet_short spec.name.short_name met1
      meet_count spec met2

unfoldable pub validate_loop : List Argument → Met → Run Thrown Met
validate_loop [] met = done met
validate_loop (spec ∷ specs) met = do met' ← meet spec met; validate_loop specs met'

abbrev pub none_met : Met
none_met = record { long_names = []; short_names = []; first_consuming = none }

unfoldable pub validate_arg_specs : List Argument → Run Thrown Met
unfolding validate_loop
validate_arg_specs specs = validate_loop specs none_met

-- `std::ranges::find_if` with `long_name_matches` and with `short_name_matches`.
abbrev pub find_long : Text → List Argument → Option Argument
find_long s [] = none
find_long s (spec ∷ specs) =
    let rest = find_long s specs in if text_eq spec.name.long_name s then some spec else rest

abbrev pub find_short : ℕ → List Argument → Option Argument
find_short c [] = none
find_short c (spec ∷ specs) =
    let rest = find_short c specs in if spec.name.short_name == c then some spec else rest

abbrev pub maybe_suggest_long_arg : Text → List Argument → Text → Text
maybe_suggest_long_arg arg specs out = elim (find_long arg specs) [
  | none ↦ out
  | some spec ↦ out ++ (codes " Did you mean to write \"--" ++ (arg ++ codes "\"?"))
]

abbrev pub maybe_suggest_short_arg : ℕ → List Argument → Text → Text
maybe_suggest_short_arg c specs out = elim (find_short c specs) [
  | none ↦ out
  | some spec ↦ out ++ (codes " Did you mean to write \"-" ++ (c ∷ codes "\"?"))
]

-- The suggestion of a short name, where the text has one byte.
abbrev pub suggest_if_one : Text → List Argument → Text → Text
suggest_if_one (c ∷ []) specs out = maybe_suggest_short_arg c specs out
suggest_if_one _ specs out = out

unfoldable pub handle_long_arg : Text → List Argument → Text → Option Argument × Text
handle_long_arg arg specs out = elim (find_long arg specs) [
  | some spec ↦ (some spec, out)
  | none ↦
      let warned =
        out ++ (codes "Warning: unknown argument \"--" ++ (arg ++ codes "\" will be ignored.")) in
      (none, suggest_if_one arg specs warned ++ codes "\n")
]

-- The search that `handle_short_arg` makes for a text of one byte only.
abbrev pub find_one : Text → List Argument → Option Argument
find_one (c ∷ []) specs = find_short c specs
find_one _ specs = none

unfoldable pub handle_short_arg : Text → List Argument → Text → Option Argument × Text
handle_short_arg arg specs out = elim (find_one arg specs) [
  | some spec ↦ (some spec, out)
  | none ↦
      let warned =
        out ++ (codes "Warning: unknown argument \"-" ++ (arg ++ codes "\" will be ignored.")) in
      (none, maybe_suggest_long_arg arg specs warned ++ codes "\n")
]

unfoldable pub handle_bad_arg : Text → List Argument → Text → Text
handle_bad_arg arg specs out =
    let warned =
      out
      ++ (codes "Warning: badly formatted argument \"" ++ (arg ++ codes "\" will be ignored.")) in
    suggest_if_one arg specs (maybe_suggest_long_arg arg specs warned) ++ codes "\n"
