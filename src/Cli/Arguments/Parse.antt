-- ===== src/Cli/Arguments/Parse.antt =====
-- `parse_arguments`, without and with specifications. The program's own name is the first of `argv`.
pub mod Plain
pub mod Described
pub mod Unknown
use cpp_tools.Base.{
  ℕ, zero, suc, Bool, true, false, List, [], ◌∷◌, ◌++◌, Option, none, some, ◌==◌, if◌then◌else◌,
  ltb, length, take, drop,
}
use cpp_tools.Base.Int.{ℤ, pos, negsuc}
use cpp_tools.Base.Run.{Run, done, throws, undefined, no_fuel, ◌>>=◌}
use cpp_tools.Text.Chars.{Text, codes}
use cpp_tools.Cli.Arguments.{
  Argument, ArgumentName, Necessity, optional, required, Thrown, not_enough_arguments_supplied,
  required_arg_missing, out_of_range, length_error,
}
use cpp_tools.Cli.Arguments.Specs.{
  validate_arg_specs, handle_long_arg, handle_short_arg, handle_bad_arg,
}
use cpp_tools.Cli.Arguments.Values.{ValueMap, insert, has_name}

-- What the dashes in front make of an argument; they are taken off.
pub data Form : Type 0 where
  long : Text → Form
  short : Text → Form
  plain : Form

abbrev pub form : Text → Form
form [] = plain
form (x ∷ []) = if x == b'-' then short [] else plain
form (x ∷ y ∷ s) = if x == b'-' then if y == b'-' then long s else short (y ∷ s) else plain

abbrev pub starts_dash : Text → Bool
starts_dash [] = false
starts_dash (x ∷ s) = x == b'-'

-- The values behind a name: up to the next argument with a dash, and what is left.
abbrev pub take_values : List Text → List Text × List Text
take_values [] = ([], [])
take_values (a ∷ rest) =
    let more = take_values rest in if starts_dash a then ([], a ∷ rest) else (a ∷ more.0, more.1)

abbrev pub long_only : Text → ArgumentName
long_only s = record { long_name = s; short_name = 0 }

abbrev pub short_only : ℕ → ArgumentName
short_only c = record { long_name = []; short_name = c }

-- The loop without specifications; `out` is what has been written.
unfoldable pub plain_loop : ℕ → List Text → ValueMap → Text → Run Thrown (ValueMap × Text)
plain_loop zero args m out = no_fuel
plain_loop (suc k) [] m out = done (m, out)
plain_loop (suc k) (a ∷ rest) m out = elim (form a) [
  | long s ↦
      let values = take_values rest in plain_loop k values.1 (insert (long_only s) values.0 m) out
  | short s ↦ elim s [
    | [] ↦ throws out_of_range
    | c ∷ more ↦
        let values = take_values rest in
        plain_loop k values.1 (insert (short_only c) values.0 m) out
  ]
  | plain ↦ plain_loop k rest m (
      out
      ++ (codes "Warning: argument name \"" ++ (a ++ codes "\" without dashes will be ignored.")))
]

unfoldable pub parse_plain : List Text → Text → Run Thrown (ValueMap × Text)
unfolding plain_loop
parse_plain argv out = plain_loop (suc (length argv)) (drop 1 argv) [] out

-- The specification that the argument names.
abbrev pub handle_arg : Text → List Argument → Text → Option Argument × Text
handle_arg a specs out = elim (form a) [
  | long s ↦ handle_long_arg s specs out
  | short s ↦ handle_short_arg s specs out
  | plain ↦ (none, handle_bad_arg a specs out)
]

-- How many values an argument takes of those that are left.
abbrev pub taken : ℤ → ℕ → Run Thrown ℕ
taken (pos n) remaining = if ltb remaining n then throws not_enough_arguments_supplied else done n
taken (negsuc zero) remaining = done remaining
taken (negsuc (suc n)) remaining = throws length_error

-- What the loop does with the specification that it has found, and `again` behind its values. Without
-- one it dereferences `arg_specs.end()`.
abbrev pub use_spec :
    Option Argument × Text
    → List Text
    → ValueMap
    → (List Text → ValueMap → Text → Run Thrown (ValueMap × Text))
    → Run Thrown (ValueMap × Text)
use_spec (none, out) rest m again = undefined
use_spec (some spec, out) rest m again = do
  n ← taken spec.value_count (length rest)
  again (drop n rest) (insert spec.name (take n rest) m) out

-- The loop with specifications.
unfoldable pub described_loop :
    ℕ → List Argument → List Text → ValueMap → Text → Run Thrown (ValueMap × Text)
described_loop zero specs args m out = no_fuel
described_loop (suc k) specs [] m out = done (m, out)
described_loop (suc k) specs (a ∷ rest) m out =
    use_spec (handle_arg a specs out) rest m (described_loop k specs)

unfoldable pub check_required : List Argument → ValueMap → Run Thrown ValueMap
check_required [] m = done m
check_required (spec ∷ specs) m = elim spec.necessity [
  | optional ↦ check_required specs m
  | required ↦ do
    there ← has_name spec.name m
    elim there [ true ↦ check_required specs m | false ↦ throws required_arg_missing ]
]

unfoldable pub parse_described : List Argument → List Text → Text → Run Thrown (ValueMap × Text)
unfolding described_loop check_required
parse_described specs argv out = do
  met ← validate_arg_specs specs
  parsed ← described_loop (suc (length argv)) specs (drop 1 argv) [] out
  m ← check_required specs parsed.0
  done (m, parsed.1)
