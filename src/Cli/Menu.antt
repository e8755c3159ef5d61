-- ===== src/Cli/Menu.antt =====
-- cpptools/cli/menu.hpp. A command is its tooltip and what it does to the context, the streams, and the
-- variable of `_all_option_strings`, which all the menus of a type share.
pub mod Choose
pub mod Ends
mod Tests
use cpp_tools.Base.{ℕ, zero, suc, ◌+◌, List, [], ◌∷◌, ◌++◌, Option, none, some, length, get_elem?}
use cpp_tools.Base.Run.{Run, done, throws, undefined, no_fuel, ◌>>=◌}
use cpp_tools.Base.Int.{ℤ, pos, negsuc, leb_ℤ}
use cpp_tools.Text.Chars.{Text, codes, lf}
use cpp_tools.Text.Decimal.{StoiError, decimal, to_string}
use cpp_tools.Cli.Sequence.{Code}
use cpp_tools.Cli.Input.{Streams, print, an_int, prompt_bounded}

-- How a call of a command ends: with a code, or with a `std::exception` and its message. A command of a menu
-- throws nothing else.
pub data Outcome : Type 0 where
  returned : Code → Outcome
  threw : Text → Outcome

-- What a menu throws: a parameter's name, an error of `std::stoi`, what the exit command throws.
pub data Thrown : Type 0 where
  null_parameter : Text → Thrown
  not_read : StoiError → Thrown
  exit_threw : Text → Thrown

module _ {ℓ} (Context : Type ℓ) where
  pub record State : Type ℓ where
    pub context : Context
    pub streams : Streams
    pub options : Option Text

  pub record Command : Type ℓ where
    pub tooltip : Text
    pub run : State → Outcome × State

module _ {ℓ} (Context : Type ℓ) where
  pub record Menu : Type ℓ where
    pub commands : List (Command Context)
    pub tooltip : Text
    pub exit_name : Text
    pub exit_command : Option (Command Context)

abbrev pub option_string : ℕ → Text → Text
option_string n tooltip = decimal n ++ codes ". " ++ tooltip ++ codes "\n"

module _ {ℓ} {Context : Type ℓ} where
  -- The loop of the constructor, from the index `i` on; null is `none`.
  abbrev pub not_null : ℕ → List (Option (Command Context)) → Run Thrown (List (Command Context))
  not_null i [] = done []
  not_null i (none ∷ cs) = throws (null_parameter (codes "commands[" ++ decimal i ++ codes "]"))
  not_null i (some c ∷ cs) = do rest ← not_null (suc i) cs; done (c ∷ rest)

  unfoldable pub menu :
      List (Option (Command Context))
      → Text
      → Text
      → Option (Command Context)
      → Run Thrown (Menu Context)
  menu cs tooltip exit_name exit_command = do
    commands ← not_null 0 cs
    done (record {
      commands = commands;
      tooltip = tooltip;
      exit_name = exit_name;
      exit_command = exit_command;
    })

  abbrev pub write : Text → State Context → State Context
  write text s = record s { streams = print text s.streams }

  abbrev pub write_error : Text → State Context → State Context
  write_error text s = record s { streams = record s.streams { err = text ∷ s.streams.err } }

  abbrev pub option_strings : ℕ → List (Command Context) → Text
  option_strings i [] = []
  option_strings i (c ∷ cs) = option_string (suc i) c.tooltip ++ option_strings (suc i) cs

  -- The initializer of the static variable `s`.
  abbrev pub initial_options : Menu Context → Text
  initial_options m = option_strings 0 m.commands ++ option_string 0 m.exit_name

  -- `_all_option_strings`: the first call initializes the variable.
  unfoldable pub all_option_strings : Menu Context → State Context → Text × State Context
  all_option_strings m s = elim s.options [
    | none ↦ (initial_options m, record s { options = some (initial_options m) })
    | some text ↦ (text, s)
  ]

  -- The header and the options.
  unfoldable pub display : Menu Context → State Context → State Context
  unfolding all_option_strings
  display m s =
      let s' = write (m.tooltip ++ codes ":\n") (write (codes "\n") s) in
      let options = all_option_strings m s' in write options.0 options.1

  -- The prompt, with a round for each line and one more.
  unfoldable pub choose : Menu Context → State Context → Run StoiError ℤ × Streams
  choose m s =
      prompt_bounded an_int leb_ℤ to_string (suc (length s.streams.lines))
        (codes "Please make a choice: ") (pos 0) (pos (length m.commands)) s.streams

  -- The exit option: what the exit command throws is not caught.
  abbrev pub exit_with : Outcome × State Context → Run Thrown (Unit {0}) × State Context
  exit_with (returned code, s) = (done tt, s)
  exit_with (threw message, s) = (throws (exit_threw message), s)

  abbrev pub leave :
      Option (Command Context) → State Context → Run Thrown (Unit {0}) × State Context
  leave none s = (done tt, s)
  leave (some c) s = exit_with (c.run s)

  -- Behind a command: what it throws is reported.
  abbrev pub report_exception : Command Context → Outcome × State Context → State Context
  report_exception c (returned code, s) = s
  report_exception c (threw message, s) = write (codes "Aborting.\n") (
      write_error (message ++ codes "\n")
        (write_error (codes "Exception thrown by command \"" ++ c.tooltip ++ codes "\":\n") s))

  abbrev pub call : Command Context → State Context → State Context
  call c s = report_exception c (c.run (write (c.tooltip ++ codes ":\n") (write (codes "\n") s)))

  -- The command that was chosen, and the next round.
  abbrev pub with_command :
      Option (Command Context)
      → State Context
      → (State Context → Run Thrown (Unit {0}) × State Context)
      → Run Thrown (Unit {0}) × State Context
  with_command none s again = (undefined, s)
  with_command (some c) s again = again (call c s)

  -- What follows the choice. An index behind the last command is undefined behaviour.
  abbrev pub follow :
      Menu Context
      → Run StoiError ℤ
      → State Context
      → (State Context → Run Thrown (Unit {0}) × State Context)
      → Run Thrown (Unit {0}) × State Context
  follow m (done (pos zero)) s again = leave m.exit_command s
  follow m (done (pos (suc i))) s again = with_command (get_elem? m.commands i) s again
  follow m (done (negsuc i)) s again = (undefined, s)
  follow m (throws error) s again = (throws (not_read error), s)
  follow m undefined s again = (undefined, s)
  follow m no_fuel s again = (no_fuel, s)

  -- `show`, with a round for each choice.
  unfoldable pub show : ℕ → Menu Context → State Context → Run Thrown (Unit {0}) × State Context
  unfolding display choose
  show zero m s = (no_fuel, s)
  show (suc rounds) m s =
      let s' = display m s in
      let choice = choose m s' in
      follow m choice.0 (record s' { streams = choice.1 }) (λ s'. show rounds m s')
