-- ===== src/Cli/Input/Tests.antt =====
-- A prompt for a number from 1 to 5, and the theorems at it.
use cpp_tools.Base.{true, List, [], ◌∷◌, ◌++◌, ◌≡◌, refl, arith}
use cpp_tools.Base.Run.{done, undefined, throws}
use cpp_tools.Base.Int.{pos, negsuc, leb_ℤ}
use cpp_tools.Text.Chars.{Text, codes}
use cpp_tools.Text.Pop.{pop_if_back}
use cpp_tools.Text.Numbers.{is_integer, all_digits}
use cpp_tools.Text.Decimal.{to_string, decimal, stoi, out_of_range}
use cpp_tools.Cli.Input.{
  an_int, a_bool, read_as, parse_int, parse_bool, prompt, prompt_fitting, prompt_bounded,
  prompt_min, prompt_max, read_input,
}
use cpp_tools.Cli.Input.Prompt.{Answered, within, enter_between, prompt_bounded-Answered}

abbrev typed : List Text
typed = codes "seven" ∷ codes "9" ∷ codes "3\r" ∷ codes "rest" ∷ []

-- Two lines are refused, and the third one is the answer.
prompted :
    (prompt_bounded an_int leb_ℤ to_string 9
      (codes "?")
      (pos 1)
      (pos 5)
      (record { lines = typed; out = []; err = [] })).0
    ≡ done (pos 3)
unfolding prompt_bounded prompt_fitting prompt read_input read_as parse_int is_integer all_digits
    stoi pop_if_back
prompted = refl

too_large :
    (prompt_max an_int leb_ℤ to_string 9
      (codes "?")
      (pos 5)
      (record { lines = codes "99999999999" ∷ []; out = []; err = [] })).0
    ≡ throws out_of_range
unfolding prompt_max prompt_fitting prompt read_input read_as parse_int is_integer all_digits stoi
    pop_if_back
too_large = refl

at_least :
    (prompt_min an_int leb_ℤ to_string 9
      (codes "?")
      (pos 5)
      (record { lines = codes "5" ∷ []; out = []; err = [] })).0
    ≡ done (pos 5)
unfolding prompt_min prompt_fitting prompt read_input read_as parse_int is_integer all_digits stoi
    pop_if_back
at_least = refl

agreed : read_as a_bool (codes "yes") ≡ done true
unfolding read_as parse_bool pop_if_back
agreed = refl

prompt_bounded-Answered_example :
    (bad : List Text) × (tail : List Text) × (typed ≡ bad ++ tail)
    × Answered an_int
        (within an_int leb_ℤ to_string (pos 1) (pos 5))
        (enter_between an_int leb_ℤ to_string (pos 1) (pos 5))
        (codes "?")
        bad
        tail
        []
        []
        (prompt_bounded an_int leb_ℤ to_string 9
          (codes "?")
          (pos 1)
          (pos 5)
          (record { lines = typed; out = []; err = [] }))
    × (read_as an_int [] ≡ undefined)
prompt_bounded-Answered_example =
    prompt_bounded-Answered an_int leb_ℤ to_string (pos 1) (pos 5) (codes "?") typed [] [] 9
      (omega arith)

written : to_string (negsuc 41) ≡ codes "-42"
unfolding to_string decimal
written = refl
