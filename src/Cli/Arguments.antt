-- ===== src/Cli/Arguments.antt =====
-- cpptools/cli/argument_parsing.hpp, for `char`: the descriptions of arguments and what is thrown.
pub mod Specs
pub mod Values
pub mod Parse
mod Tests
use cpp_tools.Base.{ℕ, List, Bool, true, false, [], ◌∷◌, ◌==◌, ◌&&◌}
use cpp_tools.Base.Int.{ℤ, pos, negsuc}
use cpp_tools.Text.Chars.{Text, text_eq}

pub data Necessity : Type 0 where
  optional required : Necessity

-- `basic_argument_name`: the empty text is no long name, and zero is no short name.
pub record ArgumentName : Type 0 where
  pub long_name : Text
  pub short_name : ℕ

-- `basic_argument`: a value count of -1 takes what is left of the command line.
pub record Argument : Type 0 where
  pub name : ArgumentName
  pub necessity : Necessity
  pub value_count : ℤ

-- The exceptions of the file, and `std::out_of_range` and `std::length_error` of the library.
pub data Thrown : Type 0 where
  param_with_no_name : Thrown
  multiple_params_with_same_long_name : Text → Thrown
  multiple_params_with_same_short_name : ℕ → Thrown
  multiple_consume_remaining_args : ArgumentName → ArgumentName → Thrown
  not_enough_arguments_supplied : Thrown
  required_arg_missing : Thrown
  null_parameter : Thrown
  no_such_element : Thrown
  out_of_range : Thrown
  length_error : Thrown

-- `operator==` of names.
abbrev pub name_eq : ArgumentName → ArgumentName → Bool
name_eq n m = text_eq n.long_name m.long_name && n.short_name == m.short_name
