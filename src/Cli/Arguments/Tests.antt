-- ===== src/Cli/Arguments/Tests.antt =====
-- Specifications of a copying program, runs of the parser, and its theorems at them.
use cpp_tools.Base.{true, false, List, [], ◌∷◌, ◌≡◌, ◌⊎◌, inl, inr, refl}
use cpp_tools.Base.Int.{pos, negsuc}
use cpp_tools.Base.Run.{done, throws, undefined}
use cpp_tools.Text.Chars.{codes}
use cpp_tools.Cli.Arguments.{
  Argument, optional, required, Thrown, not_enough_arguments_supplied, required_arg_missing,
}
use cpp_tools.Cli.Arguments.Specs.{Met, validate_arg_specs, handle_long_arg, handle_short_arg}
use cpp_tools.Cli.Arguments.Specs.Valid.{valid, validate_arg_specs-valid}
use cpp_tools.Cli.Arguments.Values.{insert, has_name, at_short, erase_short}
use cpp_tools.Cli.Arguments.Parse.{parse_plain, parse_described}
use cpp_tools.Cli.Arguments.Parse.Plain.{
  Given, long_flag, short_flag, fill_plain, parse_plain-write,
}
use cpp_tools.Cli.Arguments.Parse.Described.{Call, fill, parse_described-calls}
use cpp_tools.Cli.Arguments.Parse.Unknown.{parse_described-unknown}

abbrev verbose : Argument
verbose = record {
  name = record { long_name = codes "verbose"; short_name = b'v' };
  necessity = optional;
  value_count = pos 0;
}

abbrev output : Argument
output = record {
  name = record { long_name = codes "output"; short_name = b'o' };
  necessity = required;
  value_count = pos 1;
}

abbrev files : Argument
files = record {
  name = record { long_name = codes "files"; short_name = 0 };
  necessity = optional;
  value_count = negsuc 0;
}

abbrev specs : List Argument
specs = verbose ∷ output ∷ files ∷ []

abbrev given : List Given
given = (long_flag (codes "name"), codes "a" ∷ codes "b" ∷ []) ∷ (short_flag b'x', []) ∷ []

abbrev calls : List Call
calls =
    (codes "-v", verbose, [])
    ∷ (codes "--output", output, codes "-" ∷ [])
    ∷ (codes "--files", files, codes "a" ∷ codes "-v" ∷ [])
    ∷ []

missing_value :
    parse_described specs (codes "cp" ∷ codes "--output" ∷ []) []
    ≡ throws not_enough_arguments_supplied
unfolding parse_described validate_arg_specs handle_long_arg
missing_value = refl

missing_argument :
    parse_described specs (codes "cp" ∷ codes "-v" ∷ []) [] ≡ throws required_arg_missing
unfolding parse_described validate_arg_specs handle_short_arg insert has_name
missing_argument = refl

warns :
    parse_plain (codes "cp" ∷ codes "a" ∷ []) []
    ≡ done ([], codes "Warning: argument name \"a\" without dashes will be ignored.")
unfolding parse_plain
warns = refl

looks_up : at_short b'x' (fill_plain given []) ≡ done []
unfolding at_short insert
looks_up = refl

erases : erase_short b'x' (fill_plain ((short_flag b'x', []) ∷ []) []) ≡ done []
unfolding erase_short insert
erases = refl

validate_arg_specs-valid_example :
    ((valid specs ≡ true) × (met : Met) × (validate_arg_specs specs ≡ done met))
    ⊎ ((valid specs ≡ false) × (e : Thrown) × (validate_arg_specs specs ≡ throws e))
validate_arg_specs-valid_example = validate_arg_specs-valid specs

parse_plain-write_example :
    parse_plain (codes "cp" ∷ codes "--name" ∷ codes "a" ∷ codes "b" ∷ codes "-x" ∷ []) []
    ≡ done (fill_plain given [], [])
parse_plain-write_example =
    parse_plain-write (codes "cp") given [] ((tt, (refl, (refl, tt))), ((refl, tt), tt))

parse_described-calls_example :
    parse_described specs
      (codes "cp"
        ∷ codes "-v"
        ∷ codes "--output"
        ∷ codes "-"
        ∷ codes "--files"
        ∷ codes "a"
        ∷ codes "-v"
        ∷ [])
      []
    ≡ done (fill calls [], [])
parse_described-calls_example =
    parse_described-calls specs (codes "cp") calls [] refl
      (refl, inl refl, (refl, inl refl, (refl, inr (refl, refl), tt))) refl

parse_described-unknown_example :
    parse_described specs (codes "cp" ∷ codes "-v" ∷ codes "--speed" ∷ codes "3" ∷ []) []
    ≡ undefined
parse_described-unknown_example =
    parse_described-unknown specs (codes "cp") ((codes "-v", verbose, []) ∷ []) (codes "--speed")
      (codes "3" ∷ []) [] refl (refl, refl, tt) refl
