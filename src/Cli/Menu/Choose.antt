-- ===== src/Cli/Menu/Choose.antt =====
-- What a menu does with the choices on its input.
use cpp_tools.Base.{
  Option, none, ◌⊎◌, inl, inr, ℕ, zero, suc, ◌≤◌, ◌<◌, List, [], ◌∷◌, ◌++◌, ◌≡◌, refl, ap, arith,
  length, ◌∙◌, map, some, get_elem?, ◌^◌,
}
use cpp_tools.Base.Run.{Run, done, throws}
use cpp_tools.Base.Int.{pos, leb_ℤ}
use cpp_tools.Text.Chars.{Text, codes, All}
use cpp_tools.Text.Decimal.{to_string}
use cpp_tools.Cli.Input.{an_int, read_as, lines_behind, first_line}
use cpp_tools.Cli.Input.Prompt.{prompt_bounded-first}
use cpp_tools.Cli.Input.Written.{read_as-to_string}
use cpp_tools.Cli.Sequence.{Code}
use cpp_tools.Cli.Menu.{
  Thrown, exit_threw, exit_with, Outcome, returned, threw, State, Command, Menu, display, choose,
  leave, call, follow, show, all_option_strings, report_exception, write,
}

some_index {ℓ} :
    {A : Type ℓ} (xs : List A) (i : ℕ) (x : A) → get_elem? xs i ≡ some x → suc i ≤ length xs
some_index [] i x e = cc
some_index (y ∷ xs) zero x e = omega arith
some_index (y ∷ xs) (suc i) x e = omega (arith, some_index xs i x e)

module _ {ℓ} (Context : Type ℓ) where
  -- A choice by its index, with the command there and the effect of that command on the context.
  pub record Choice : Type ℓ where
    pub index : ℕ
    pub command : Command Context
    pub effect : Context → Context

module _ {ℓ} {Context : Type ℓ} where
  -- A display changes what is written, and nothing else that a choice depends on.
  pub display-lines :
      (m : Menu Context) (s : State Context)
      → ((display m s).streams.lines ≡ s.streams.lines) × ((display m s).context ≡ s.context)
  unfolding display all_option_strings
  display-lines m s = ground arith

  -- A line that names a choice is read as that choice.
  choose-first :
      (m : Menu Context) (s : State Context) (i : ℕ)
      → length m.commands < 2 ^ 31
      → i ≤ length m.commands
      → first_line s.streams.lines ≡ to_string (pos i)
      → ((choose m s).0 ≡ done (pos i)) × ((choose m s).1.lines ≡ lines_behind s.streams.lines)
  unfolding choose
  choose-first m s i few small e =
      let is_read : read_as an_int (first_line s.streams.lines) ≡ done (pos i) =
        ap (read_as an_int) e ∙ read_as-to_string (pos i) (omega arith) (omega arith) in
      let result =
        prompt_bounded-first an_int leb_ℤ to_string (pos 0) (pos (length m.commands))
          (codes "Please make a choice: ") s.streams.lines s.streams.out s.streams.err
          (suc (length s.streams.lines)) (omega arith) (rw is_read (ground arith)) in
      (ap (λ c. c.0) result ∙ is_read, ap (λ c. c.1.lines) result)

  -- The command reads no line. It may throw.
  pub record IsChoice (m : Menu Context) (c : Choice Context) : Type ℓ where
    pub found : get_elem? m.commands c.index ≡ some c.command
    pub takes_effect : (s : State Context) → (c.command.run s).1.context ≡ c.effect s.context
    pub reads_nothing : (s : State Context) → (c.command.run s).1.streams.lines ≡ s.streams.lines

  abbrev pub typed : Choice Context → Text
  typed c = to_string (pos (suc c.index))

  abbrev pub effects : List (Choice Context) → Context → Context
  effects [] x = x
  effects (c ∷ cs) x = effects cs (c.effect x)

  pub report-context :
      (c : Command Context) (o : Outcome × State Context)
      → ((report_exception c o).context ≡ o.1.context)
        × ((report_exception c o).streams.lines ≡ o.1.streams.lines)
  report-context c (returned code, s) = (refl, refl)
  report-context c (threw message, s) = (refl, refl)

  call-IsChoice :
      (m : Menu Context) (c : Choice Context) (s : State Context)
      → IsChoice m c
      → ((call c.command s).context ≡ c.effect s.context)
        × ((call c.command s).streams.lines ≡ s.streams.lines)
  call-IsChoice m c s chosen =
      let s' : State Context = write (c.command.tooltip ++ codes ":\n") (write (codes "\n") s) in
      let same = report-context c.command (c.command.run s') in
      (same.0 ∙ chosen.takes_effect s', same.1 ∙ chosen.reads_nothing s')

  -- The choice at the head of the lines, and what is behind it.
  show_step :
      (m : Menu Context) (s : State Context) (i rounds : ℕ) (rest : List Text)
      → length m.commands < 2 ^ 31
      → i ≤ length m.commands
      → s.streams.lines ≡ to_string (pos i) ∷ rest
      → (s' : State Context) × (show (suc rounds) m s
          ≡ follow m (done (pos i)) s' (λ t. show rounds m t))
        × (s'.context ≡ s.context)
        × (s'.streams.lines ≡ rest)
  unfolding show
  show_step m s i rounds rest few small e =
      let shown = display-lines m s in
      let first : first_line (display m s).streams.lines ≡ to_string (pos i) =
        ap first_line (shown.0 ∙ e) in
      let (value, lines) = choose-first m (display m s) i few small first in
      (
        record (display m s) { streams = (choose m (display m s)).1 },
        rw value refl,
        shown.1,
        lines ∙ ap lines_behind (shown.0 ∙ e),
      )

  -- How a menu is left: at once, or with a call of its exit command, whose exception comes out of `show`.
  abbrev pub Leaves :
      Option (Command Context) → State Context → Run Thrown (Unit {0}) × State Context → Type ℓ
  Leaves none s r = r ≡ (done tt, s)
  Leaves (some c) s r =
      (t : State Context) × (((code : Code) × (c.run s ≡ (returned code, t)) × (r ≡ (done tt, t)))
        ⊎ ((message : Text) × (c.run s ≡ (threw message, t))
            × (r ≡ (throws (exit_threw message), t))))

  exit_with-cases :
      (o : Outcome × State Context)
      → (t : State Context) × (((code : Code) × (o ≡ (returned code, t))
            × (exit_with o ≡ (done tt, t)))
          ⊎ ((message : Text) × (o ≡ (threw message, t))
              × (exit_with o ≡ (throws (exit_threw message), t))))
  exit_with-cases (returned code, s) = (s, inl (code, refl, refl))
  exit_with-cases (threw message, s) = (s, inr (message, refl, refl))

  pub leave-Leaves : (c : Option (Command Context)) (s : State Context) → Leaves c s (leave c s)
  leave-Leaves none s = refl
  leave-Leaves (some c) s = exit_with-cases (c.run s)

  -- Where the input names choices by their numbers, and then 0, `show` runs their commands in that order,
  -- also behind one that throws, and then calls the exit command, if there is one, whose exception comes out
  -- of it. The commands read no
  -- input of their own.
  pub show-effects :
      (m : Menu Context) (s : State Context) (choices : List (Choice Context)) (rest : List Text)
      (rounds : ℕ)
      → length m.commands < 2 ^ 31
      → All (IsChoice m) choices
      → s.streams.lines ≡ map typed choices ++ to_string (pos 0) ∷ rest
      → length choices < rounds
      → (s' : State Context) × Leaves m.exit_command s' (show rounds m s)
        × (s'.context ≡ effects choices s.context)
        × (s'.streams.lines ≡ rest)
  show-effects m s choices rest zero few chosen e h = absurd (omega arith)
  show-effects m s [] rest (suc rounds) few chosen e h =
      let (s', step, context, lines) = show_step m s 0 rounds rest few (omega arith) e in
      (s', rw step (leave-Leaves m.exit_command s'), context, lines)
  show-effects m s (c ∷ choices) rest (suc rounds) few chosen e h =
      let (s', step, context, lines) =
        show_step m s (suc c.index) rounds (map typed choices ++ to_string (pos 0) ∷ rest) few
          (some_index m.commands c.index c.command chosen.0.found) e in
      let after = call-IsChoice m c s' chosen.0 in
      let (t, shown, changed, left) =
        show-effects m (call c.command s') choices rest rounds few chosen.1 (after.1 ∙ lines)
          (omega arith) in
      (
        t,
        rw (step, follow, chosen.0.found) shown,
        changed ∙ ap (effects choices) (after.0 ∙ ap c.effect context),
        left,
      )
