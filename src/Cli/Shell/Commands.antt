-- ===== src/Cli/Shell/Commands.antt =====
-- What a shell does with lines that name its commands.
use cpp_tools.Base.{ℕ, ◌<◌, false, List, [], ◌∷◌, ◌++◌, none, some, ◌≡◌, ◌⊎◌, inl, inr, length}
use cpp_tools.Base.Result.{ok}
use cpp_tools.Base.Run.{done}
use cpp_tools.Text.Chars.{Text, codes, All}
use cpp_tools.Text.Pop.{pop_cr}
use cpp_tools.Text.Tokens.Cut.{pieces, nonempty}
use cpp_tools.Cli.TextMap.{find}
use cpp_tools.Cli.Shell.{exit, State, Command, Shell, is_forbidden_command_name, run}
use cpp_tools.Cli.Shell.Session.{Entry, IsEntry, effects, lines_of, run-entries}
use cpp_tools.Cli.Shell.Entries.{
  Obeys, command-IsEntry, blank-IsEntry, unknown-IsEntry, help-IsEntry, help_command-IsEntry,
}

abbrev pub words : Text → List Text
words input = nonempty (pieces b' ' input)

module _ {ℓ} {Context : Type ℓ} (sh : Shell Context) (e : Entry Context) where
  -- The first word of the line is the name of a command, which has the effect.
  pub record Calls : Type ℓ where
    pub name : Text
    pub args : List Text
    pub command : Command Context
    pub first_word : words e.input ≡ name ∷ args
    pub free : is_forbidden_command_name name ≡ false
    pub found : find name sh.commands ≡ some command
    pub obeys : Obeys command e.input e.effect

  -- The line has no word, or a first word that names no command, or asks for help that there is.
  abbrev pub IsIdleLine : Type ℓ
  IsIdleLine =
      (words e.input ≡ [])
      ⊎ ((name : Text) × (args : List Text) × (words e.input ≡ name ∷ args)
          × (is_forbidden_command_name name ≡ false)
          × (find name sh.commands ≡ none))
      ⊎ (words e.input ≡ codes "help" ∷ [])
      ⊎ ((name : Text) × (args : List Text) × (c : Command Context) × (words e.input
            ≡ codes "help" ∷ name ∷ args)
          × (find name sh.commands ≡ some c))

  -- A line that calls a command, or one that has no effect.
  abbrev pub IsLine : Type ℓ
  IsLine = (pop_cr e.line ≡ ok e.input) × (Calls ⊎ (((x : Context) → e.effect x ≡ x) × IsIdleLine))

  IsLine-IsEntry : IsLine → IsEntry sh e
  IsLine-IsEntry (popped, inl c) =
      command-IsEntry sh e popped c.name c.args c.command c.first_word c.free c.found c.obeys
  IsLine-IsEntry (popped, inr (idle, inl blank)) = blank-IsEntry sh e popped idle blank
  IsLine-IsEntry (popped, inr (idle, inr (inl (name, args, first, free, missing)))) =
      unknown-IsEntry sh e popped idle name args first free missing
  IsLine-IsEntry (popped, inr (idle, inr (inr (inl help)))) = help-IsEntry sh e popped idle help
  IsLine-IsEntry (popped, inr (idle, inr (inr (inr (name, args, c, help, found))))) =
      help_command-IsEntry sh e popped idle name args c help found

module _ {ℓ} {Context : Type ℓ} where
  lines-IsEntry :
      (sh : Shell Context) (es : List (Entry Context)) → All (IsLine sh) es → All (IsEntry sh) es
  lines-IsEntry sh [] lines = tt
  lines-IsEntry sh (e ∷ es) lines = (IsLine-IsEntry sh e lines.0, lines-IsEntry sh es lines.1)

  -- On lines of which each calls a command by its first word, or has no effect (a line without a word, an
  -- unknown name, a request for help that there is), and with a line behind them whose first word is
  -- `exit`, a shell that has no exit command ends with the code of the exit. The context has then the
  -- effects of the commands, in the order of their lines, and the lines behind are unread. The commands
  -- end with another code or with an exception that is a message, and read no input of their own.
  pub run-exit :
      (sh : Shell Context) (s : State Context) (es : List (Entry Context)) (line input : Text)
      (args rest : List Text) (rounds : ℕ)
      → All (IsLine sh) es
      → s.streams.lines ≡ lines_of es ++ line ∷ rest
      → pop_cr line ≡ ok input
      → words input ≡ codes "exit" ∷ args
      → sh.exit_command ≡ none
      → length es < rounds
      → (t : State Context) × (run rounds sh s ≡ (done exit, t))
        × (t.context ≡ effects es s.context)
        × (t.streams.lines ≡ rest)
  run-exit sh s es line input args rest rounds lines =
      run-entries sh s es line input args rest rounds (lines-IsEntry sh es lines)
