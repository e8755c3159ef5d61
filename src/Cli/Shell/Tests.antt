-- ===== src/Cli/Shell/Tests.antt =====
-- A shell with one command, which counts its calls, and the theorems at it.
use cpp_tools.Base.{
  ℕ, ◌+◌, ◌≤◌, true, List, [], ◌∷◌, none, some, ◌≡◌, ◌⊎◌, inl, inr, refl, arith, length,
}
use cpp_tools.Base.Result.{ok}
use cpp_tools.Base.Run.{done, throws, undefined}
use cpp_tools.Text.Chars.{Text, codes}
use cpp_tools.Text.Pop.{pop_cr, pop_if_back}
use cpp_tools.Cli.TextMap.{find, insert, erase}
use cpp_tools.Cli.Shell.{
  success, exit, State, Command, Shell, invalid_value, is_forbidden_command_name, shell,
  add_command, get_command, run,
}
use cpp_tools.Cli.Shell.Names.{
  IsValid, Added, adds, removes, changes, add_command-Added, shell-changes-IsValid,
}
use cpp_tools.Cli.Shell.Session.{Entry, IsEntry, effects, run-help, run-empty}
use cpp_tools.Cli.Shell.Commands.{IsLine, run-exit}
use cpp_tools.Cli.Shell.Entries.{command-IsEntry, help-IsEntry}

abbrev count : Command ℕ
count = record {
  name = codes "count";
  description = codes "counts";
  help = codes "It counts its calls.";
  process_input = λ input s. (done success, record s { context = s.context + 1 });
}

abbrev stop : Command ℕ
stop = record {
  name = codes "stop";
  description = codes "stops";
  help = codes "It stops.";
  process_input = λ input s. (done exit, s);
}

abbrev one : Shell ℕ
one = record { commands = (codes "count", count) ∷ []; exit_command = none }

one-IsValid : IsValid one
one-IsValid = record { sorted = (tt, tt); named = ((refl, refl), tt) }

made : shell (count ∷ []) none ≡ done one
unfolding shell insert erase
made = refl

got : get_command (codes "count") one ≡ done count
unfolding get_command
got = refl

shell-changes-IsValid_example :
    (length (count ∷ []) ≤ 1) × IsValid (changes (adds stop ∷ removes (codes "count") ∷ []) one)
shell-changes-IsValid_example =
    shell-changes-IsValid (count ∷ []) none one (adds stop ∷ removes (codes "count") ∷ []) made

add_command-Added_example :
    ((sh' : Shell ℕ) × (add_command stop one ≡ done sh') × Added stop one sh')
    ⊎ ((add_command stop one ≡ throws (invalid_value (codes "command") stop.name))
        × ((is_forbidden_command_name stop.name ≡ true)
            ⊎ ((c' : Command ℕ) × (find stop.name one.commands ≡ some c'))))
add_command-Added_example = add_command-Added stop one

-- `count` is called with arguments, and then help is asked for.
abbrev counting : Entry ℕ
counting = record { line = codes "count  me\r"; input = codes "count  me"; effect = λ x. x + 1 }

abbrev asking : Entry ℕ
asking = record { line = codes "help"; input = codes "help"; effect = λ x. x }

counting-popped : pop_cr counting.line ≡ ok counting.input
unfolding pop_cr pop_if_back
counting-popped = refl

asking-popped : pop_cr asking.line ≡ ok asking.input
unfolding pop_cr pop_if_back
asking-popped = refl

counting-IsEntry : IsEntry one counting
counting-IsEntry =
    command-IsEntry one counting counting-popped (codes "count") (codes "me" ∷ []) count refl refl
      refl (record { ordinary = λ s e. cc; takes_effect = λ s. refl; reads_nothing = λ s. refl })

asking-IsEntry : IsEntry one asking
asking-IsEntry = help-IsEntry one asking asking-popped (λ x. refl) refl

counting-IsLine : IsLine one counting
counting-IsLine = (
  counting-popped,
  inl (record {
    name = codes "count";
    args = codes "me" ∷ [];
    command = count;
    first_word = refl;
    free = refl;
    found = refl;
    obeys = record { ordinary = λ s e. cc; takes_effect = λ s. refl; reads_nothing = λ s. refl };
  }),
)

asking-IsLine : IsLine one asking
asking-IsLine = (asking-popped, inr (λ x. refl, inr (inr (inl refl))))

abbrev session : List (Entry ℕ)
session = counting ∷ asking ∷ counting ∷ []

abbrev at : ℕ → List Text → State ℕ
at n lines = record { context = n; streams = record { lines = lines; out = []; err = [] } }

abbrev lines : List Text → List Text
lines rest = counting.line ∷ asking.line ∷ counting.line ∷ rest

exit-popped : pop_cr (codes "exit now") ≡ ok (codes "exit now")
unfolding pop_cr pop_if_back
exit-popped = refl

help-popped : pop_cr (codes "help me") ≡ ok (codes "help me")
unfolding pop_cr pop_if_back
help-popped = refl

run-exit_example :
    (t : State ℕ) × (run 9 one (at 5 (lines (codes "exit now" ∷ []))) ≡ (done exit, t))
    × (t.context ≡ effects session 5)
    × (t.streams.lines ≡ [])
run-exit_example =
    run-exit one (at 5 (lines (codes "exit now" ∷ []))) session (codes "exit now")
      (codes "exit now") (codes "now" ∷ []) [] 9
      (counting-IsLine, (asking-IsLine, (counting-IsLine, tt))) refl exit-popped refl refl
      (omega arith)

run-help_example :
    (t : State ℕ) × (run 9 one (at 5 (lines (codes "help me" ∷ [])))
      ≡ (throws (invalid_value (codes "command_name") (codes "me")), t))
    × (t.context ≡ effects session 5)
    × (t.streams.lines ≡ [])
run-help_example =
    run-help one (at 5 (lines (codes "help me" ∷ []))) session (codes "help me") (codes "help me")
      (codes "me") [] [] 9 (counting-IsEntry, (asking-IsEntry, (counting-IsEntry, tt))) refl
      help-popped refl refl (omega arith)

run-empty_example : (run 9 one (at 5 (lines []))).0 ≡ undefined
run-empty_example =
    run-empty one (at 5 (lines [])) session [] 9
      (counting-IsEntry, (asking-IsEntry, (counting-IsEntry, tt))) refl refl (omega arith)
