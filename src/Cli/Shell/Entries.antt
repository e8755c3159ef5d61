-- ===== src/Cli/Shell/Entries.antt =====
-- The lines behind which a shell goes on: blank ones, requests for help that it can give, names that it
-- does not know, and calls of its commands.
use cpp_tools.Base.{false, List, [], ◌∷◌, ◌++◌, none, some, ◌≡◌, ◌≢◌, refl, sym, ◌∙◌, arith}
use cpp_tools.Base.Result.{ok}
use cpp_tools.Base.Run.{Run, done, throws, undefined, no_fuel}
use cpp_tools.Text.Chars.{Text, codes, text_eq}
use cpp_tools.Text.Pop.{pop_cr}
use cpp_tools.Text.Tokens.Cut.{pieces, nonempty}
use cpp_tools.Cli.TextMap.{find}
use cpp_tools.Cli.Shell.{
  ShellCommandCode, exit, success, failure, not_found, State, Command, Shell,
  is_forbidden_command_name, dispatch, caught, run_found, write,
}
use cpp_tools.Cli.Shell.Session.{Entry, GoesOn, IsEntry, tokens}

not_found-ne-exit : not_found ≢ exit
not_found-ne-exit e = cc

success-ne-exit : success ≢ exit
success-ne-exit e = cc

failure-ne-exit : failure ≢ exit
failure-ne-exit e = cc

-- A command ends with a code that is not the exit's, or with an exception.
abbrev pub IsOrdinary : Run Text ShellCommandCode → Type 0
IsOrdinary (done code) = code ≢ exit
IsOrdinary (throws what) = Unit {0}
IsOrdinary undefined = ⊥
IsOrdinary no_fuel = ⊥

module _ {ℓ} {Context : Type ℓ} where
  -- What a command does with a line: an effect on the context, and nothing more is read.
  pub record Obeys (c : Command Context) (input : Text) (effect : Context → Context) : Type ℓ where
    pub ordinary : (s : State Context) → IsOrdinary (c.process_input input s).0
    pub takes_effect : (s : State Context) → (c.process_input input s).1.context ≡ effect s.context
    pub reads_nothing :
        (s : State Context) → (c.process_input input s).1.streams.lines ≡ s.streams.lines

  caught-GoesOn :
      (c : Command Context) (effect : Context → Context) (s : State Context)
      (call : Run Text ShellCommandCode × State Context)
      → IsOrdinary call.0
      → call.1.context ≡ effect s.context
      → call.1.streams.lines ≡ s.streams.lines
      → GoesOn effect s (caught c call)
  caught-GoesOn c effect s (done code, t) ordinary context lines = record {
    code = code;
    returns = refl;
    no_exit = ordinary;
    takes_effect = context;
    reads_nothing = lines;
  }
  caught-GoesOn c effect s (throws what, t) ordinary context lines = record {
    code = failure;
    returns = refl;
    no_exit = failure-ne-exit;
    takes_effect = context;
    reads_nothing = lines;
  }
  caught-GoesOn c effect s (undefined, t) ordinary context lines = absurd ordinary
  caught-GoesOn c effect s (no_fuel, t) ordinary context lines = absurd ordinary

  module _ (sh : Shell Context) (e : Entry Context) (popped : pop_cr e.line ≡ ok e.input) where
    entry :
        ((s : State Context)
          → GoesOn e.effect s (dispatch (nonempty (pieces b' ' e.input)) e.input sh s))
        → IsEntry sh e
    entry goes = record { popped = popped; goes_on = λ s. rw (tokens e.input sh s) (goes s) }

    -- A line whose first word names a command.
    pub command-IsEntry :
        (name : Text) (args : List Text) (c : Command Context)
        → nonempty (pieces b' ' e.input) ≡ name ∷ args
        → is_forbidden_command_name name ≡ false
        → find name sh.commands ≡ some c
        → Obeys c e.input e.effect
        → IsEntry sh e
    command-IsEntry name args c words free found obeys =
        let no_help : text_eq name (codes "help") ≡ false = ground arith in
        let no_exit : text_eq name (codes "exit") ≡ false = ground arith in
        entry (λ s.
          rw (words, no_help, no_exit, found)
            (caught-GoesOn c e.effect s (c.process_input e.input s) (obeys.ordinary s)
              (obeys.takes_effect s) (obeys.reads_nothing s)))

    module _ (idle : (x : Context) → e.effect x ≡ x) where
      quiet :
          (code : ShellCommandCode) (s t : State Context)
          → code ≢ exit
          → t.context ≡ s.context
          → t.streams.lines ≡ s.streams.lines
          → GoesOn e.effect s (done code, t)
      quiet code s t no_exit context lines = record {
        code = code;
        returns = refl;
        no_exit = no_exit;
        takes_effect = context ∙ sym (idle s.context);
        reads_nothing = lines;
      }

      -- A line of spaces.
      pub blank-IsEntry : nonempty (pieces b' ' e.input) ≡ [] → IsEntry sh e
      blank-IsEntry words = entry (λ s. rw words (quiet not_found s s not_found-ne-exit refl refl))

      -- A line whose first word names no command.
      pub unknown-IsEntry :
          (name : Text) (args : List Text)
          → nonempty (pieces b' ' e.input) ≡ name ∷ args
          → is_forbidden_command_name name ≡ false
          → find name sh.commands ≡ none
          → IsEntry sh e
      unknown-IsEntry name args words free missing =
          let no_help : text_eq name (codes "help") ≡ false = ground arith in
          let no_exit : text_eq name (codes "exit") ≡ false = ground arith in
          entry (λ s.
            rw (words, no_help, no_exit, missing)
              (quiet not_found s (run_found none name e.input s).1 not_found-ne-exit refl refl))

      -- `help` alone.
      pub help-IsEntry : nonempty (pieces b' ' e.input) ≡ codes "help" ∷ [] → IsEntry sh e
      help-IsEntry words = entry (λ s.
          rw words (
            quiet success s (dispatch (codes "help" ∷ []) e.input sh s).1 success-ne-exit refl
              refl))

      -- `help` with the name of a command.
      pub help_command-IsEntry :
          (name : Text) (args : List Text) (c : Command Context)
          → nonempty (pieces b' ' e.input) ≡ codes "help" ∷ name ∷ args
          → find name sh.commands ≡ some c
          → IsEntry sh e
      help_command-IsEntry name args c words found = entry (λ s.
          rw (words, found)
            (quiet success s
              (write ((codes "'" ++ name ++ codes "' help:\n" ++ c.help) ++ codes "\n") s)
              success-ne-exit refl refl))
