-- ===== src/Cli/Tests.antt =====
-- A sequence of three commands of which the second fails, and the theorem at it.
use cpp_tools.Base.{ℕ, ◌+◌, List, [], ◌∷◌, Option, none, some, ◌≡◌, ◌⊎◌, refl}
use cpp_tools.Base.Run.{done, throws}
use cpp_tools.Text.Chars.{codes}
use cpp_tools.Cli.Sequence.{success, failure, std_exception, State, Command, run_all}
use cpp_tools.Cli.Sequence.Cases.{Passes, Stops, run_all-cases, with_output}

abbrev at : ℕ → State ℕ
at n = record { context = n; streams = record { lines = []; out = []; err = [] } }

abbrev count_up : Command ℕ
count_up = record {
  tooltip = codes "count";
  run = λ s. (done success, record s { context = s.context + 1 });
}

abbrev give_up : Command ℕ
give_up = record { tooltip = codes "give up"; run = λ s. (done failure, s) }

abbrev break_off : Command ℕ
break_off = record {
  tooltip = codes "break off";
  run = λ s. (throws (std_exception (codes "why")), s);
}

abbrev attempts : List (Option (Command ℕ))
attempts = some count_up ∷ some give_up ∷ some count_up ∷ []

run_all-cases_example :
    Passes attempts (at 4) (run_all (codes "all") attempts (at 4))
    ⊎ Stops (codes "all") attempts (at 4) (run_all (codes "all") attempts (at 4))
run_all-cases_example = run_all-cases (codes "all") attempts (at 4)

gives_up : run_all (codes "all") attempts (at 4) ≡ (
  done failure,
  with_output
      (codes "Command sequence \"all\" aborted.\n"
        ∷ codes "Command \"give up\" returned with value failure\n"
        ∷ [])
      []
      (at 5),
)
unfolding run_all
gives_up = refl

breaks_off : run_all (codes "all") (some break_off ∷ none ∷ []) (at 4) ≡ (
  done failure,
  with_output
      (codes "Command sequence \"all\" aborted.\n" ∷ [])
      (codes "why\n" ∷ codes "Exception thrown:\n" ∷ [])
      (at 4),
)
unfolding run_all
breaks_off = refl
