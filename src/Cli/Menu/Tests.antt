-- ===== src/Cli/Menu/Tests.antt =====
-- A menu of two commands, of which the second throws, and the theorems at it.
use cpp_tools.Base.{
  ℕ, suc, eq_of_some, ◌+◌, ◌*◌, List, [], ◌∷◌, ◌++◌, map, none, some, ◌≡◌, refl, arith, get_elem?,
}
use mathlib.Core.Path.{subst}
use cpp_tools.Base.Run.{done, throws}
use cpp_tools.Base.Int.{pos}
use cpp_tools.Text.Chars.{Text, codes}
use cpp_tools.Text.Decimal.{to_string, decimal}
use cpp_tools.Cli.Sequence.{success}
use cpp_tools.Cli.Menu.{returned, threw, State, Command, Menu, null_parameter, menu, show}
use cpp_tools.Cli.Menu.Choose.{Choice, IsChoice, typed, effects, show-effects}
use cpp_tools.Cli.Menu.Ends.{ReadsNothing, EndsWith, show-ends}

abbrev add_one : Command ℕ
add_one = record {
  tooltip = codes "add one";
  run = λ s. (returned success, record s { context = s.context + 1 });
}

abbrev double : Command ℕ
double = record {
  tooltip = codes "double";
  run = λ s. (threw (codes "done"), record s { context = 2 * s.context });
}

abbrev sums : Menu ℕ
sums = record {
  commands = add_one ∷ double ∷ [];
  tooltip = codes "sums";
  exit_name = codes "leave";
  exit_command = none;
}

abbrev adds_one : Choice ℕ
adds_one = record { index = 0; command = add_one; effect = λ x. x + 1 }

abbrev doubles : Choice ℕ
doubles = record { index = 1; command = double; effect = λ x. 2 * x }

adds_one-IsChoice : IsChoice sums adds_one
adds_one-IsChoice = record { found = refl; takes_effect = λ s. refl; reads_nothing = λ s. refl }

doubles-IsChoice : IsChoice sums doubles
doubles-IsChoice = record { found = refl; takes_effect = λ s. refl; reads_nothing = λ s. refl }

abbrev chosen : List (Choice ℕ)
chosen = doubles ∷ adds_one ∷ []

abbrev at : ℕ → List Text → State ℕ
at n lines = record {
  context = n;
  streams = record { lines = lines; out = []; err = [] };
  options = none;
}

abbrev input : List Text
input = map typed chosen ++ to_string (pos 0) ∷ []

show-effects_example :
    (s' : State ℕ) × (show 9 sums (at 5 input) ≡ (done tt, s'))
    × (s'.context ≡ effects chosen 5)
    × (s'.streams.lines ≡ [])
show-effects_example =
    show-effects sums (at 5 input) chosen [] 9 (omega arith)
      (doubles-IsChoice, (adds_one-IsChoice, tt)) refl (omega arith)

sums-ReadsNothing : (i : ℕ) (c : Command ℕ) → get_elem? sums.commands i ≡ some c → ReadsNothing c
sums-ReadsNothing ℕ.zero c e = subst ReadsNothing (eq_of_some e) (λ s. refl)
sums-ReadsNothing (suc ℕ.zero) c e = subst ReadsNothing (eq_of_some e) (λ s. refl)
sums-ReadsNothing (suc (suc i)) c e = cc

show-ends_example : EndsWith sums input (show 9 sums (at 5 input))
show-ends_example = show-ends sums (at 5 input) 9 sums-ReadsNothing (omega arith)

abbrev empty_menu : Menu ℕ
empty_menu = record {
  commands = [];
  tooltip = codes "none";
  exit_name = codes "back";
  exit_command = none;
}

no_null :
    menu (some add_one ∷ none ∷ []) (codes "m") (codes "e") none
    ≡ throws (null_parameter (codes "commands[1]"))
unfolding menu decimal
no_null = refl
