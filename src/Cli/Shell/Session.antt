-- ===== src/Cli/Shell/Session.antt =====
-- What a shell does with the lines of its input.
use cpp_tools.Base.{
  ℕ, zero, suc, ◌+◌, ◌-◌, ◌<◌, true, List, [], ◌∷◌, ◌++◌, none, ◌≡◌, ◌≢◌, refl, sym, ap, ◌∙◌, arith,
  length,
}
use cpp_tools.Base.Result.{Result, fault, out_of_fuel, ok}
use cpp_tools.Base.Run.{Run, done, throws, undefined, no_fuel, of_result, ◌>>=◌, eq_of_done}
use cpp_tools.Text.Chars.{Text, codes, All}
use cpp_tools.Text.Pop.{pop_cr, pop_if_back}
use cpp_tools.Text.Tokens.Cut.{pieces, nonempty}
use cpp_tools.Text.Tokens.Read.{tokenize-pieces}
use cpp_tools.Text.Decimal.{StoiError}
use cpp_tools.Cli.Input.{
  Streams, a_text, read_as, read_input, retry, prompt, first_line, lines_behind,
}
use cpp_tools.Cli.TextMap.{find}
use cpp_tools.Cli.Shell.{
  ShellCommandCode, exit, success, failure, bad_arguments, not_found, Thrown, invalid_value, State,
  Shell, ask, process_input, dispatch, round, until_exit, run,
}

-- What the prompt leaves behind a line.
abbrev behind : Streams → Streams
behind t = record t { lines = lines_behind t.lines; out = codes "$ " ∷ t.out }

read_text :
    (popped : Result Text) (t : Streams) (again : Streams → Run StoiError Text × Streams)
    → retry a_text (of_result popped >>= λ input. a_text.parse_as input, t) again
      ≡ (of_result popped >>= λ input. a_text.parse_as input, t)
read_text fault t again = refl
read_text out_of_fuel t again = refl
read_text (ok line) t again = refl

-- The prompt of a shell takes any line, but the empty one.
ask_lem : (t : Streams) → ask t ≡ (read_as a_text (first_line t.lines), behind t)
unfolding ask prompt read_input read_as
ask_lem t =
    read_text (pop_cr (first_line t.lines)) (behind t)
      (λ s'. prompt a_text (length t.lines) (codes "$ ") s')

module _ {ℓ} (Context : Type ℓ) where
  -- A line, what the prompt makes of it, and the effect on the context.
  pub record Entry : Type ℓ where
    pub line : Text
    pub input : Text
    pub effect : Context → Context

module _ {ℓ} {Context : Type ℓ} where
  -- Behind the line the shell goes on, with the effect on the context; nothing more is read.
  pub record GoesOn (effect : Context → Context) (s : State Context)
      (call : Run Thrown ShellCommandCode × State Context) : Type ℓ where
    pub code : ShellCommandCode
    pub returns : call.0 ≡ done code
    pub no_exit : code ≢ exit
    pub takes_effect : call.1.context ≡ effect s.context
    pub reads_nothing : call.1.streams.lines ≡ s.streams.lines

  pub record IsEntry (sh : Shell Context) (e : Entry Context) : Type ℓ where
    pub popped : pop_cr e.line ≡ ok e.input
    pub goes_on : (s : State Context) → GoesOn e.effect s (process_input e.input sh s)

  abbrev pub effects : List (Entry Context) → Context → Context
  effects [] x = x
  effects (e ∷ es) x = effects es (e.effect x)

  abbrev pub lines_of : List (Entry Context) → List Text
  lines_of [] = []
  lines_of (e ∷ es) = e.line ∷ lines_of es

  until_GoesOn :
      (effect : Context → Context) (s : State Context)
      (call : Run Thrown ShellCommandCode × State Context)
      (again : State Context → Run Thrown ShellCommandCode × State Context)
      → GoesOn effect s call
      → until_exit call again ≡ again call.1
  until_GoesOn effect s (done exit, t) again h = absurd (h.no_exit (sym (eq_of_done h.returns)))
  until_GoesOn effect s (done success, t) again h = refl
  until_GoesOn effect s (done failure, t) again h = refl
  until_GoesOn effect s (done bad_arguments, t) again h = refl
  until_GoesOn effect s (done not_found, t) again h = refl
  until_GoesOn effect s (throws error, t) again h = absurd (cc h.returns)
  until_GoesOn effect s (undefined, t) again h = absurd (cc h.returns)
  until_GoesOn effect s (no_fuel, t) again h = absurd (cc h.returns)

  -- One round, on a line that the prompt takes.
  round-line :
      (sh : Shell Context) (s : State Context) (line input : Text) (rest : List Text)
      → s.streams.lines ≡ line ∷ rest
      → pop_cr line ≡ ok input
      → (t : State Context) × (round sh s ≡ process_input input sh t)
        × (t.context ≡ s.context)
        × (t.streams.lines ≡ rest)
  unfolding round read_as
  round-line sh s line input rest cut popped = (
    record { context = s.context; streams = behind s.streams },
    rw (ask_lem s.streams, cut, popped) refl,
    refl,
    ap lines_behind cut,
  )

  -- The shell goes through the lines of the entries, one behind the other.
  run-IsEntry :
      (sh : Shell Context) (s : State Context) (es : List (Entry Context)) (tail : List Text)
      (rounds k : ℕ)
      → rounds ≡ length es + k
      → All (IsEntry sh) es
      → s.streams.lines ≡ lines_of es ++ tail
      → (t : State Context) × (run rounds sh s ≡ run k sh t)
        × (t.context ≡ effects es s.context)
        × (t.streams.lines ≡ tail)
  unfolding run
  run-IsEntry sh s [] tail rounds k n entries cut =
      (s, ap (λ n. run n sh s) (let same : rounds ≡ k = omega arith in same), refl, cut)
  run-IsEntry sh s (e ∷ es) tail zero k n entries cut = absurd (omega arith)
  run-IsEntry sh s (e ∷ es) tail (suc rounds) k n entries cut =
      let (t, step, context, lines) =
        round-line sh s e.line e.input (lines_of es ++ tail) cut entries.0.popped in
      let h = entries.0.goes_on t in
      let (u, more, changed, left) =
        run-IsEntry sh (process_input e.input sh t).1 es tail rounds k (omega arith) entries.1
          (h.reads_nothing ∙ lines) in
      (
        u,
        rw step (until_GoesOn e.effect t (process_input e.input sh t) (λ s'. run rounds sh s') h)
            ∙ more,
        changed ∙ ap (effects es) (h.takes_effect ∙ ap e.effect context),
        left,
      )

  pub tokens :
      (input : Text) (sh : Shell Context) (s : State Context)
      → process_input input sh s ≡ dispatch (nonempty (pieces b' ' input)) input sh s
  unfolding process_input
  tokens input sh s = rw (tokenize-pieces input b' ' true)

  -- Behind the entries, a line whose first word is `exit` ends a shell that has no exit command.
  pub run-entries :
      (sh : Shell Context) (s : State Context) (es : List (Entry Context)) (line input : Text)
      (args rest : List Text) (rounds : ℕ)
      → All (IsEntry sh) es
      → s.streams.lines ≡ lines_of es ++ line ∷ rest
      → pop_cr line ≡ ok input
      → nonempty (pieces b' ' input) ≡ codes "exit" ∷ args
      → sh.exit_command ≡ none
      → length es < rounds
      → (t : State Context) × (run rounds sh s ≡ (done exit, t))
        × (t.context ≡ effects es s.context)
        × (t.streams.lines ≡ rest)
  unfolding run
  run-entries sh s es line input args rest rounds entries cut popped words no_command h =
      let (t, start, context, lines) =
        run-IsEntry sh s es (line ∷ rest) rounds (suc (rounds - length es - 1)) (omega arith)
          entries cut in
      let (u, step, context', lines') = round-line sh t line input rest lines popped in
      let ends : process_input input sh u ≡ (done exit, u) =
        tokens input sh u ∙ rw (words, no_command) refl in
      (u, start ∙ rw (step, ends) refl, context' ∙ context, lines')

  -- Behind the entries, a request for help about a name that no command has ends the shell with an
  -- exception.
  pub run-help :
      (sh : Shell Context) (s : State Context) (es : List (Entry Context)) (line input name : Text)
      (args rest : List Text) (rounds : ℕ)
      → All (IsEntry sh) es
      → s.streams.lines ≡ lines_of es ++ line ∷ rest
      → pop_cr line ≡ ok input
      → nonempty (pieces b' ' input) ≡ codes "help" ∷ name ∷ args
      → find name sh.commands ≡ none
      → length es < rounds
      → (t : State Context) × (run rounds sh s
          ≡ (throws (invalid_value (codes "command_name") name), t))
        × (t.context ≡ effects es s.context)
        × (t.streams.lines ≡ rest)
  unfolding run
  run-help sh s es line input name args rest rounds entries cut popped words missing h =
      let (t, start, context, lines) =
        run-IsEntry sh s es (line ∷ rest) rounds (suc (rounds - length es - 1)) (omega arith)
          entries cut in
      let (u, step, context', lines') = round-line sh t line input rest lines popped in
      let ends : process_input input sh u
          ≡ (throws (invalid_value (codes "command_name") name), u) =
        tokens input sh u ∙ rw (words, missing) refl in
      (u, start ∙ rw (step, ends) refl, context' ∙ context, lines')

  -- Behind the entries, an empty line and the end of the input are undefined behaviour.
  pub run-empty :
      (sh : Shell Context) (s : State Context) (es : List (Entry Context)) (tail : List Text)
      (rounds : ℕ)
      → All (IsEntry sh) es
      → s.streams.lines ≡ lines_of es ++ tail
      → first_line tail ≡ []
      → length es < rounds
      → (run rounds sh s).0 ≡ undefined
  unfolding run round read_as pop_cr pop_if_back
  run-empty sh s es tail rounds entries cut nothing h =
      let (t, start, context, lines) =
        run-IsEntry sh s es tail rounds (suc (rounds - length es - 1)) (omega arith) entries cut in
      rw (start, ask_lem t.streams, lines, nothing) refl
