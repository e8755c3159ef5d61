-- ===== src/Cli/Shell.antt =====
-- cpptools/cli/shell.hpp. A command is its name, its texts, and what it does with its line to the context
-- and the streams; what it throws is the message.
pub mod Names
pub mod Session
pub mod Entries
pub mod Commands
mod Tests
use cpp_tools.Base.{
  ℕ, zero, suc, ◌+◌, Bool, true, false, not, ◌&&◌, ◌||◌, List, [], ◌∷◌, ◌++◌, Option, none, some,
  length, if◌then◌else◌,
}
use cpp_tools.Base.Run.{Run, done, throws, undefined, no_fuel, of_result, ◌>>=◌}
use cpp_tools.Text.Chars.{Text, codes, text_eq}
use cpp_tools.Text.Decimal.{StoiError}
use cpp_tools.Text.Tokens.{tokenize}
use cpp_tools.Cli.Input.{Streams, print, a_text, prompt}
use cpp_tools.Cli.TextMap.{TextMap, find, insert, erase}

-- `shell_command_code`
pub data ShellCommandCode : Type 0 where
  exit success failure bad_arguments not_found : ShellCommandCode

-- What the shell throws: a parameter and its value, a reading's error, or what a command throws.
pub data Thrown : Type 0 where
  invalid_value : Text → Text → Thrown
  not_read : StoiError → Thrown
  message : Text → Thrown

module _ {ℓ} (Context : Type ℓ) where
  pub record State : Type ℓ where
    pub context : Context
    pub streams : Streams

  pub record Command : Type ℓ where
    pub name : Text
    pub description : Text
    pub help : Text
    pub process_input : Text → State → Run Text ShellCommandCode × State

module _ {ℓ} (Context : Type ℓ) where
  pub record Shell : Type ℓ where
    pub commands : TextMap (Command Context)
    pub exit_command : Option (Command Context)

-- `_is_forbidden_command_name`
abbrev pub is_forbidden_command_name : Text → Bool
is_forbidden_command_name name = text_eq name (codes "exit") || text_eq name (codes "help")

-- The prompt, with a round for each line and one more.
unfoldable pub ask : Streams → Run StoiError Text × Streams
ask s = prompt a_text (suc (length s.lines)) (codes "$ ") s

module _ {ℓ} {V : Type ℓ} where
  abbrev pub is_some : Option V → Bool
  is_some none = false
  is_some (some v) = true

module _ {ℓ} {Context : Type ℓ} where
  -- `has_command`
  abbrev pub has_command : Text → Shell Context → Bool
  has_command name sh = is_some (find name sh.commands)

  -- `_is_valid_command_name`
  abbrev pub is_valid_command_name : Text → Shell Context → Bool
  is_valid_command_name name sh = not (is_forbidden_command_name name) && not (has_command name sh)

  -- The first loop of the constructor. The set holds views of strings that the loop has destroyed, so that
  -- a search in it is undefined as soon as it holds one.
  abbrev pub check_names : Bool → List (Command Context) → Run Thrown (Unit {ℓ})
  check_names holds_views [] = done tt
  check_names holds_views (c ∷ cs) =
      let rest = check_names true cs in
      if is_forbidden_command_name c.name
      then throws (invalid_value (codes "commands[...]") c.name)
      else if holds_views
      then undefined
      else rest

  -- The second one, `insert_or_assign` of each command.
  abbrev pub insert_all :
      List (Command Context) → TextMap (Command Context) → TextMap (Command Context)
  insert_all [] m = m
  insert_all (c ∷ cs) m = insert_all cs (insert c.name c (erase c.name m))

  unfoldable pub shell :
      List (Command Context) → Option (Command Context) → Run Thrown (Shell Context)
  shell cs exit_command = do
    _ ← check_names false cs
    done (record { commands = insert_all cs []; exit_command = exit_command })

  unfoldable pub add_command : Command Context → Shell Context → Run Thrown (Shell Context)
  add_command c sh =
      if is_valid_command_name c.name sh
      then done (record sh { commands = insert c.name c sh.commands })
      else throws (invalid_value (codes "command") c.name)

  abbrev pub found_or_throw :
      {A : Type ℓ} → Option (Command Context) → Text → (Command Context → A) → Run Thrown A
  found_or_throw none name k = throws (invalid_value (codes "name") name)
  found_or_throw (some c) name k = done (k c)

  unfoldable pub remove_command :
      Text → Shell Context → Run Thrown (Command Context × Shell Context)
  remove_command name sh =
      found_or_throw (find name sh.commands) name
        (λ c. (c, record sh { commands = erase name sh.commands }))

  -- The command that was there before comes back.
  unfoldable pub set_exit_command :
      Option (Command Context) → Shell Context → Option (Command Context) × Shell Context
  set_exit_command c sh = (sh.exit_command, record sh { exit_command = c })

  unfoldable pub clear_commands : Shell Context → Shell Context
  clear_commands sh = record sh { commands = [] }

  unfoldable pub get_command : Text → Shell Context → Run Thrown (Command Context)
  get_command name sh = found_or_throw (find name sh.commands) name (λ c. c)

  abbrev pub write : Text → State Context → State Context
  write text s = record s { streams = print text s.streams }

  abbrev pub write_error : Text → State Context → State Context
  write_error text s = record s { streams = record s.streams { err = text ∷ s.streams.err } }

  abbrev pub command_lines : TextMap (Command Context) → Text
  command_lines [] = []
  command_lines ((name, c) ∷ m) =
      (codes "  - " ++ c.name ++ codes ": " ++ c.description ++ codes "\n") ++ command_lines m

  -- `_global_help_string`
  abbrev pub global_help_string : Shell Context → Text
  global_help_string sh =
      codes "Available commands:\n"
      ++ command_lines sh.commands
      ++ codes "Type 'help <command>' to get help about one command.\n"

  -- `_command_help_string`
  abbrev pub command_help_string : Text → Option (Command Context) → Run Thrown Text
  command_help_string name none = throws (invalid_value (codes "command_name") name)
  command_help_string name (some c) = done (codes "'" ++ name ++ codes "' help:\n" ++ c.help)

  abbrev pub write_help :
      Run Thrown Text → State Context → Run Thrown ShellCommandCode × State Context
  write_help (done text) s = (done success, write (text ++ codes "\n") s)
  write_help (throws error) s = (throws error, s)
  write_help undefined s = (undefined, s)
  write_help no_fuel s = (no_fuel, s)

  abbrev pub help :
      List Text → Shell Context → State Context → Run Thrown ShellCommandCode × State Context
  help [] sh s = write_help (done (global_help_string sh)) s
  help (name ∷ names) sh s = write_help (command_help_string name (find name sh.commands)) s

  -- What an exit command throws is not caught here.
  abbrev pub uncaught :
      Run Text ShellCommandCode × State Context → Run Thrown ShellCommandCode × State Context
  uncaught (done code, s) = (done code, s)
  uncaught (throws what, s) = (throws (message what), s)
  uncaught (undefined, s) = (undefined, s)
  uncaught (no_fuel, s) = (no_fuel, s)

  -- `_handle_exit`
  abbrev pub handle_exit :
      Option (Command Context) → Text → State Context → Run Thrown ShellCommandCode × State Context
  handle_exit none input s = (done exit, s)
  handle_exit (some c) input s = uncaught (c.process_input input s)

  -- Behind a command: what it throws is reported.
  abbrev pub caught :
      Command Context
      → Run Text ShellCommandCode × State Context
      → Run Thrown ShellCommandCode × State Context
  caught c (done code, s) = (done code, s)
  caught c (throws what, s) = (
    done failure,
    write (codes "Resuming normally...\n") (
        write (codes "Warning shell state may be corrupted.\n") (
          write_error (what ++ codes "\n")
            (write_error (codes "Exception thrown by command \"" ++ c.name ++ codes "\":\n") s))),
  )
  caught c (undefined, s) = (undefined, s)
  caught c (no_fuel, s) = (no_fuel, s)

  abbrev pub run_found :
      Option (Command Context)
      → Text
      → Text
      → State Context
      → Run Thrown ShellCommandCode × State Context
  run_found none name input s = (done not_found, write (name ++ codes ": command not found.\n") s)
  run_found (some c) name input s = caught c (c.process_input input s)

  abbrev pub dispatch :
      List Text → Text → Shell Context → State Context → Run Thrown ShellCommandCode × State Context
  dispatch [] input sh s = (done not_found, s)
  dispatch (name ∷ names) input sh s =
      if text_eq name (codes "help")
      then help names sh s
      else if text_eq name (codes "exit")
      then handle_exit sh.exit_command input s
      else run_found (find name sh.commands) name input s

  abbrev pub with_tokens :
      Run Thrown (List Text)
      → Text
      → Shell Context
      → State Context
      → Run Thrown ShellCommandCode × State Context
  with_tokens (done tokens) input sh s = dispatch tokens input sh s
  with_tokens (throws error) input sh s = (throws error, s)
  with_tokens undefined input sh s = (undefined, s)
  with_tokens no_fuel input sh s = (no_fuel, s)

  -- `_process_input`
  unfoldable pub process_input :
      Text → Shell Context → State Context → Run Thrown ShellCommandCode × State Context
  process_input input sh s = with_tokens (of_result (tokenize input b' ' true)) input sh s

  abbrev pub process_answer :
      Run StoiError Text × Streams
      → Shell Context
      → Context
      → Run Thrown ShellCommandCode × State Context
  process_answer (done line, t) sh x = process_input line sh (record { context = x; streams = t })
  process_answer (throws error, t) sh x =
      (throws (not_read error), record { context = x; streams = t })
  process_answer (undefined, t) sh x = (undefined, record { context = x; streams = t })
  process_answer (no_fuel, t) sh x = (no_fuel, record { context = x; streams = t })

  -- One round of the loop of `run`.
  unfoldable pub round : Shell Context → State Context → Run Thrown ShellCommandCode × State Context
  unfolding ask
  round sh s = process_answer (ask s.streams) sh s.context

  -- Another round, until the code is that of the exit.
  abbrev pub until_exit :
      Run Thrown ShellCommandCode × State Context
      → (State Context → Run Thrown ShellCommandCode × State Context)
      → Run Thrown ShellCommandCode × State Context
  until_exit (done exit, s) again = (done exit, s)
  until_exit (done success, s) again = again s
  until_exit (done failure, s) again = again s
  until_exit (done bad_arguments, s) again = again s
  until_exit (done not_found, s) again = again s
  until_exit (throws error, s) again = (throws error, s)
  until_exit (undefined, s) again = (undefined, s)
  until_exit (no_fuel, s) again = (no_fuel, s)

  -- `run`, with a round for each line.
  unfoldable pub run :
      ℕ → Shell Context → State Context → Run Thrown ShellCommandCode × State Context
  run zero sh s = (no_fuel, s)
  run (suc rounds) sh s = until_exit (round sh s) (λ s'. run rounds sh s')
