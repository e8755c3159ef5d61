-- ===== src/Cli/Input.antt =====
-- cpptools/cli/input.hpp, with the streams of cpptools/cli/streams.hpp: what is left to read, by lines, and
-- what was written, the latest first.
pub mod Prompt
pub mod Reading
pub mod Written
mod Tests
use cpp_tools.Base.{ℕ, zero, suc, Bool, true, false, ◌&&◌, ◌||◌, List, [], ◌∷◌, ◌++◌, if◌then◌else◌}
use cpp_tools.Base.Run.{Run, done, throws, undefined, no_fuel, of_result, ◌>>=◌}
use cpp_tools.Base.Int.{ℤ}
use cpp_tools.Text.Chars.{Text, codes, lf, text_eq}
use cpp_tools.Text.Pop.{pop_cr}
use cpp_tools.Text.Numbers.{is_integer}
use cpp_tools.Text.Decimal.{StoiError, invalid_argument, stoi}

pub record Streams : Type 0 where
  pub lines : List Text
  pub out : List Text
  pub err : List Text

abbrev pub print : Text → Streams → Streams
print text s = record s { out = text ∷ s.out }

-- `std::getline`: at the end of the input it leaves the string empty.
abbrev pub first_line : List Text → Text
first_line [] = []
first_line (line ∷ lines) = line

abbrev pub lines_behind : List Text → List Text
lines_behind [] = []
lines_behind (line ∷ lines) = lines

-- What is read as a value of a type: `detail::parse_as`, and `detail::type_name`.
pub record Kind (A : Type 0) : Type 0 where
  pub parse_as : Text → Run StoiError A
  pub type_name : Text

abbrev pub a_text : Kind Text
a_text = record { parse_as = λ input. done input; type_name = codes "string" }

unfoldable pub parse_int : Text → Run StoiError ℤ
parse_int input = if is_integer input true then stoi input else throws invalid_argument

abbrev pub an_int : Kind ℤ
an_int = record { parse_as = parse_int; type_name = codes "integer" }

unfoldable pub parse_bool : Text → Run StoiError Bool
parse_bool input =
    if text_eq input (codes "y") || (text_eq input (codes "yes") || text_eq input (codes "true"))
    then done true
    else if text_eq input (codes "n")
        || (text_eq input (codes "no") || text_eq input (codes "false"))
    then done false
    else throws invalid_argument

abbrev pub a_bool : Kind Bool
a_bool = record {
  parse_as = parse_bool;
  type_name = codes "boolean (\"y\", \"yes\", \"true\", \"n\", \"no\", \"false\")";
}

module _ {A : Type 0} (kind : Kind A) where
  -- What a line is read as.
  unfoldable pub read_as : Text → Run StoiError A
  unfolding pop_cr
  read_as line = do input ← of_result (pop_cr line); kind.parse_as input

  unfoldable pub read_input : Streams → Run StoiError A × Streams
  unfolding read_as
  read_input s = (read_as (first_line s.lines), record s { lines = lines_behind s.lines })

  abbrev pub please_enter : Text
  please_enter = codes "Please enter a " ++ kind.type_name ++ codes ".\n"

  -- Behind a reading: `std::invalid_argument` is caught, and the loop goes on.
  abbrev pub retry :
      Run StoiError A × Streams → (Streams → Run StoiError A × Streams) → Run StoiError A × Streams
  retry (throws invalid_argument, s) again = again (print please_enter s)
  retry (throws StoiError.out_of_range, s) again = (throws StoiError.out_of_range, s)
  retry (done value, s) again = (done value, s)
  retry (undefined, s) again = (undefined, s)
  retry (no_fuel, s) again = (no_fuel, s)

  -- `prompt`, with a round for each reading.
  unfoldable pub prompt : ℕ → Text → Streams → Run StoiError A × Streams
  unfolding read_input
  prompt zero title s = (no_fuel, s)
  prompt (suc rounds) title s = retry (read_input (print title s)) (λ s'. prompt rounds title s')

  -- Behind a prompt: a value that does not fit is refused, and the loop goes on.
  abbrev pub check :
      (A → Bool)
      → Text
      → Run StoiError A × Streams
      → (Streams → Run StoiError A × Streams)
      → Run StoiError A × Streams
  check fits refusal (done value, s) again =
      if fits value then (done value, s) else again (print refusal s)
  check fits refusal (throws error, s) again = (throws error, s)
  check fits refusal (undefined, s) again = (undefined, s)
  check fits refusal (no_fuel, s) again = (no_fuel, s)

  -- The loop of `prompt_min`, `prompt_max` and `prompt_bounded`, whose prompts have `each` rounds.
  unfoldable pub prompt_fitting :
      ℕ → ℕ → Text → (A → Bool) → Text → Streams → Run StoiError A × Streams
  prompt_fitting each zero title fits refusal s = (no_fuel, s)
  prompt_fitting each (suc rounds) title fits refusal s =
      check fits refusal (prompt each title s)
        (λ s'. prompt_fitting each rounds title fits refusal s')

  module _ (leb : A → A → Bool) (show : A → Text) where
    unfoldable pub prompt_min : ℕ → Text → A → Streams → Run StoiError A × Streams
    prompt_min rounds title low s =
        prompt_fitting rounds rounds title (λ value. leb low value)
          (codes "Please enter a value greater than " ++ show low ++ codes ".\n") s

    unfoldable pub prompt_max : ℕ → Text → A → Streams → Run StoiError A × Streams
    prompt_max rounds title high s =
        prompt_fitting rounds rounds title (λ value. leb value high)
          (codes "Please enter a value less than " ++ show high ++ codes ".\n") s

    unfoldable pub prompt_bounded : ℕ → Text → A → A → Streams → Run StoiError A × Streams
    prompt_bounded rounds title low high s =
        prompt_fitting rounds rounds title (λ value. leb low value && leb value high)
          (codes "Please enter a value between "
            ++ show low
            ++ codes " and "
            ++ show high
            ++ codes ".\n")
          s
