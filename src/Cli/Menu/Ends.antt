-- ===== src/Cli/Menu/Ends.antt =====
-- The three ways in which the loop of a menu ends, and its variable of options, which keeps the first
-- menu's.
use cpp_tools.Base.{
  append_assoc, Bool, ◌⊎◌, sym, ◌∙◌, List, ℕ, zero, suc, ◌<◌, [], ◌∷◌, ◌++◌, some, ◌≡◌, refl, ap,
  inl, inr, arith, length, get_elem?,
}
use cpp_tools.Base.Run.{Run, done, throws, undefined, no_fuel}
use cpp_tools.Base.Int.{ℤ, pos, negsuc, leb_ℤ}
use cpp_tools.Text.Chars.{Text, codes, All}
use cpp_tools.Text.Decimal.{StoiError, invalid_argument, out_of_range, to_string}
use mathlib.Core.Path.{subst}
use cpp_tools.Cli.Input.{Streams, first_line, lines_behind, an_int, read_as}
use cpp_tools.Cli.Input.Prompt.{
  Ends, prompt_bounded-lines, within, Refused, RefusedLine, read_as-nil, prompt_bounded-Answered,
}
use cpp_tools.Cli.Menu.{
  State, Command, Menu, Thrown, not_read, display, choose, call, follow, show, all_option_strings,
  write,
}
use cpp_tools.Cli.Menu.Choose.{Leaves, leave-Leaves, display-lines, report-context}
use cpp_tools.Cli.Input.Reading.{read_as-ends, read_as-undefined}

get_elem?-inside {ℓ} :
    {A : Type ℓ} (xs : List A) (i : ℕ) → i < length xs → (x : A) × (get_elem? xs i ≡ some x)
get_elem?-inside [] i l = absurd (omega arith)
get_elem?-inside (x ∷ xs) zero l = (x, refl)
get_elem?-inside (x ∷ xs) (suc i) l = get_elem?-inside xs i (omega arith)

-- After a line that is read as this the loop of a menu goes on: an error that is asked again, a number that
-- is refused, or a choice of a command.
abbrev pub GoesOn : Run StoiError ℤ → Type 0
GoesOn (done (pos zero)) = ⊥
GoesOn (done (pos (suc i))) = Unit {0}
GoesOn (done (negsuc i)) = Unit {0}
GoesOn (throws error) = error ≡ invalid_argument
GoesOn undefined = ⊥
GoesOn no_fuel = ⊥

abbrev pub GoesOnLine : Text → Type 0
GoesOnLine line = GoesOn (read_as an_int line)

All-append :
    (front back : List Text)
    → All GoesOnLine front
    → All GoesOnLine back
    → All GoesOnLine (front ++ back)
All-append [] back a b = b
All-append (line ∷ front) back a b = (a.0, All-append front back a.1 b)

module _ (n : ℕ) where
  abbrev fits : ℤ → Bool
  fits = within an_int leb_ℤ to_string (pos 0) (pos n)

  Refused-GoesOn : (r : Run StoiError ℤ) → Refused an_int fits r → GoesOn r
  Refused-GoesOn (done (pos zero)) h = absurd (ground (arith, h))
  Refused-GoesOn (done (pos (suc i))) h = tt
  Refused-GoesOn (done (negsuc i)) h = tt
  Refused-GoesOn (throws error) h = h
  Refused-GoesOn undefined h = absurd h
  Refused-GoesOn no_fuel h = absurd h

  All-GoesOn : (bad : List Text) → All (RefusedLine an_int fits) bad → All GoesOnLine bad
  All-GoesOn [] h = tt
  All-GoesOn (line ∷ bad) h = (Refused-GoesOn (read_as an_int line) h.0, All-GoesOn bad h.1)

module _ {ℓ} {Context : Type ℓ} where
  abbrev pub ReadsNothing : Command Context → Type ℓ
  ReadsNothing c = (s : State Context) → (c.run s).1.streams.lines ≡ s.streams.lines

  -- The first line of `tail` ends `show`: where it is read as 0, the menu is left; where it is a number that
  -- is no `int`, `show` throws; where it is empty, or the input is at its end, `show` is undefined.
  abbrev pub EndsAt : Menu Context → List Text → Run Thrown (Unit {0}) × State Context → Type ℓ
  EndsAt m tail r =
      ((t : State Context) × (read_as an_int (first_line tail) ≡ done (pos 0))
        × Leaves m.exit_command t r
        × (t.streams.lines ≡ lines_behind tail))
      ⊎ ((read_as an_int (first_line tail) ≡ throws out_of_range)
          × (r.0 ≡ throws (not_read out_of_range)))
      ⊎ ((first_line tail ≡ []) × (r.0 ≡ undefined))

  abbrev pub EndsWith : Menu Context → List Text → Run Thrown (Unit {0}) × State Context → Type ℓ
  EndsWith m lines r =
      (passed : List Text) × (tail : List Text) × (lines ≡ passed ++ tail)
      × All GoesOnLine passed
      × EndsAt m tail r

  call-ReadsNothing :
      (c : Command Context) (s : State Context)
      → ReadsNothing c
      → (call c s).streams.lines ≡ s.streams.lines
  call-ReadsNothing c s reads =
      let s' : State Context = write (c.tooltip ++ codes ":\n") (write (codes "\n") s) in
      (report-context c (c.run s')).1 ∙ reads s'

  -- Behind a choice, the rest of the lines.
  behind-EndsWith :
      (m : Menu Context) (bad tail : List Text) (i : ℕ) (r : Run Thrown (Unit {0}) × State Context)
      → All GoesOnLine bad
      → read_as an_int (first_line tail) ≡ done (pos (suc i))
      → EndsWith m (lines_behind tail) r
      → EndsWith m (bad ++ tail) r
  behind-EndsWith m bad [] i r refused e (passed, rest, cut, goes, ends) =
      absurd (cc (sym (read_as-nil an_int) ∙ e))
  behind-EndsWith m bad (line ∷ tail) i r refused e (passed, rest, cut, goes, ends) = (
    bad ++ line ∷ passed,
    rest,
    ap (λ l. bad ++ line ∷ l) cut ∙ sym (append_assoc bad (line ∷ passed) rest),
    All-append bad (line ∷ passed) refused (subst GoesOn (sym e) tt, goes),
    ends,
  )

  -- What a choice makes of the menu, once the prompt has read the line at which it ends.
  follow-EndsWith :
      (m : Menu Context) (bad tail : List Text) (r : Run StoiError ℤ) (s : State Context)
      (again : State Context → Run Thrown (Unit {0}) × State Context)
      → All GoesOnLine bad
      → read_as an_int (first_line tail) ≡ r
      → s.streams.lines ≡ lines_behind tail
      → Ends an_int (fits (length m.commands)) r
      → ((i : ℕ) (c : Command Context)
          → r ≡ done (pos (suc i))
          → get_elem? m.commands i ≡ some c
          → EndsWith m (lines_behind tail) (again (call c s)))
      → EndsWith m (bad ++ tail) (follow m r s again)
  follow-EndsWith m bad tail (done (pos zero)) s again refused e left ends h =
      (bad, tail, refl, refused, inl (s, e, leave-Leaves m.exit_command s, left))
  follow-EndsWith m bad tail (done (pos (suc i))) s again refused e left ends h =
      let (c, found) = get_elem?-inside m.commands i (ground (arith, ends)) in
      rw (follow, found)
        (behind-EndsWith m bad tail i (again (call c s)) refused e (h i c refl found))
  follow-EndsWith m bad tail (done (negsuc i)) s again refused e left ends h =
      absurd (ground (arith, ends))
  follow-EndsWith m bad tail (throws invalid_argument) s again refused e left ends h =
      absurd (cc ends)
  follow-EndsWith m bad tail (throws out_of_range) s again refused e left ends h =
      (bad, tail, refl, refused, inr (inl (e, refl)))
  follow-EndsWith m bad tail undefined s again refused e left ends h =
      (bad, tail, refl, refused, inr (inr (read_as-undefined (first_line tail) e, refl)))
  follow-EndsWith m bad tail no_fuel s again refused e left ends h =
      absurd (read_as-ends (first_line tail) e)

  choose-lines :
      (m : Menu Context) (s : State Context) (z : ℤ)
      → (choose m s).0 ≡ done z
      → length (choose m s).1.lines < length s.streams.lines
  unfolding choose
  choose-lines m s z e =
      prompt_bounded-lines an_int leb_ℤ to_string (pos 0) (pos (length m.commands))
        (codes "Please make a choice: ") s.streams (suc (length s.streams.lines)) z (omega arith) e

  -- The lines that the prompt refuses, and the line at which it ends.
  choose-line :
      (m : Menu Context) (s : State Context)
      → (bad : List Text) × (tail : List Text) × (s.streams.lines ≡ bad ++ tail)
        × All GoesOnLine bad
        × (read_as an_int (first_line tail) ≡ (choose m s).0)
        × Ends an_int (fits (length m.commands)) (choose m s).0
        × ((choose m s).1.lines ≡ lines_behind tail)
  unfolding choose
  choose-line m s =
      let (bad, tail, cut, answered, nil) =
        prompt_bounded-Answered an_int leb_ℤ to_string (pos 0) (pos (length m.commands))
          (codes "Please make a choice: ") s.streams.lines s.streams.out s.streams.err
          (suc (length s.streams.lines)) (omega arith) in
      (
        bad,
        tail,
        cut,
        All-GoesOn (length m.commands) bad answered.refused,
        sym answered.answer,
        subst (Ends an_int (fits (length m.commands))) (sym answered.answer) answered.ends,
        ap (λ (t : Streams). t.lines) answered.streams,
      )

  -- With more rounds than there are lines of input, and commands that read no input of their own, `show`
  -- passes over the lines that are no integer, those with a number that is no choice, which are refused,
  -- and those with the number of a command; and it ends at the first other line. If this is read as 0, it
  -- leaves the menu, with the exit command, if there is one, and with the lines behind unread. If it is a
  -- number out of the range of `int`, it throws. Else it is an empty line, or the end of the input, and
  -- `show` is undefined.
  pub show-ends :
      (m : Menu Context) (s : State Context) (rounds : ℕ)
      → ((i : ℕ) (c : Command Context) → get_elem? m.commands i ≡ some c → ReadsNothing c)
      → length s.streams.lines < rounds
      → EndsWith m s.streams.lines (show rounds m s)
  unfolding show
  show-ends m s zero reads h = absurd (omega arith)
  show-ends m s (suc rounds) reads h =
      let s' = display m s in
      let same : s'.streams.lines ≡ s.streams.lines = (display-lines m s).0 in
      let (bad, tail, cut, refused, read, ends, behind) = choose-line m s' in
      let t : State Context = record s' { streams = (choose m s').1 } in
      let result : EndsWith m (bad ++ tail)
          (follow m (choose m s').0 t (λ s''. show rounds m s'')) =
        follow-EndsWith m bad tail (choose m s').0 t (λ s''. show rounds m s'') refused read behind
          ends
          (λ i c e found.
            let left = call-ReadsNothing c t (reads i c found) in
            let fewer = choose-lines m s' (pos (suc i)) e in
            subst (λ l. EndsWith m l (show rounds m (call c t))) (left ∙ behind)
              (show-ends m (call c t) rounds reads
                (omega (arith, ap length left, ap length same)))) in
      subst (λ l. EndsWith m l (follow m (choose m s').0 t (λ s''. show rounds m s'')))
        (sym cut ∙ same) result

  -- The options that a menu displays are those of the menu of its type that was displayed first.
  pub all_option_strings-first :
      (first second : Menu Context) (s s' : State Context)
      → s'.options ≡ (all_option_strings first s).1.options
      → (all_option_strings second s').0 ≡ (all_option_strings first s).0
  unfolding all_option_strings
  all_option_strings-first first second s s' e = ground arith
