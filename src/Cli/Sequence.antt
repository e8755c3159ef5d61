-- ===== src/Cli/Sequence.antt =====
-- cpptools/cli/command_sequence.hpp and command.hpp. A command is its tooltip and what it does to the context
-- and the streams: it returns a code, or throws, or is undefined behaviour.
pub mod Cases
use cpp_tools.Base.{List, [], ◌∷◌, ◌++◌, Option, none, some}
use cpp_tools.Base.Run.{Run, done, throws, undefined, no_fuel}
use cpp_tools.Text.Chars.{Text, codes}
use cpp_tools.Cli.Input.{Streams, print}

-- `command_code`
pub data Code : Type 0 where
  success failure : Code

abbrev pub to_string : Code → Text
to_string success = codes "success"
to_string failure = codes "failure"

-- What a command throws: a `std::exception` with its message, or anything else, which is not caught.
pub data Exception : Type 0 where
  std_exception : Text → Exception
  other_exception : Exception

module _ {ℓ} (Context : Type ℓ) where
  pub record State : Type ℓ where
    pub context : Context
    pub streams : Streams

  pub record Command : Type ℓ where
    pub tooltip : Text
    pub run : State → Run Exception Code × State

module _ {ℓ} {Context : Type ℓ} where
  abbrev pub write : Text → State Context → State Context
  write text s = record s { streams = print text s.streams }

  abbrev pub write_error : Text → State Context → State Context
  write_error text s = record s { streams = record s.streams { err = text ∷ s.streams.err } }

module _ {ℓ} {Context : Type ℓ} (tooltip : Text) where
  abbrev pub report_aborted : State Context → State Context
  report_aborted s = write (codes "Command sequence \"" ++ tooltip ++ codes "\" aborted.\n") s

  -- Behind a command that threw, and behind one that returned another code than success.
  abbrev pub report_thrown : Text → State Context → State Context
  report_thrown message s =
      report_aborted
        (write_error (message ++ codes "\n") (write_error (codes "Exception thrown:\n") s))

  abbrev pub report_failed : Command Context → Code → State Context → State Context
  report_failed c code s = report_aborted (
      write
        (codes "Command \""
          ++ c.tooltip
          ++ (codes "\" returned with value " ++ to_string code ++ codes "\n"))
        s)

  -- Behind a call: the next command, or the end of the sequence.
  abbrev pub after :
      Command Context
      → Run Exception Code × State Context
      → (State Context → Run Exception Code × State Context)
      → Run Exception Code × State Context
  after c (done success, s) next = next s
  after c (done failure, s) next = (done failure, report_failed c failure s)
  after c (throws (std_exception message), s) next = (done failure, report_thrown message s)
  after c (throws other_exception, s) next = (throws other_exception, s)
  after c (undefined, s) next = (undefined, s)
  after c (no_fuel, s) next = (no_fuel, s)

  -- `command_sequence::run`. The pointer to a command may be null.
  unfoldable pub run_all :
      List (Option (Command Context)) → State Context → Run Exception Code × State Context
  run_all [] s = (done success, s)
  run_all (none ∷ cs) s = (undefined, s)
  run_all (some c ∷ cs) s = after c (c.run s) (λ s'. run_all cs s')
