-- ===== src/Cli/Input/Prompt.antt =====
-- Which line ends a prompt, and with what.
use cpp_tools.Base.{
  ℕ, zero, suc, ◌+◌, ◌≤◌, ◌<◌, Bool, true, false, ◌&&◌, List, [], ◌∷◌, ◌++◌, ◌≡◌, ◌≢◌, ◌⊎◌, refl,
  sym, ap, Bool-cases, inl, inr, arith, length, length-append, ◌∙◌,
}
use cpp_tools.Base.Run.{Run, done, throws, undefined, no_fuel}
use cpp_tools.Text.Chars.{Text, codes, All}
use cpp_tools.Text.Pop.{pop_if_back}
use cpp_tools.Text.Decimal.{StoiError, invalid_argument, out_of_range}
use cpp_tools.Cli.Input.{
  Streams, print, first_line, lines_behind, Kind, read_as, read_input, please_enter, retry, prompt,
  check, prompt_fitting, prompt_bounded,
}

pub read_as-nil : {A : Type 0} (kind : Kind A) → read_as kind [] ≡ undefined
unfolding read_as pop_if_back
read_as-nil kind = refl

module _ {A : Type 0} (kind : Kind A) (fits : A → Bool) where
  -- After a line that is read as this the loop goes on.
  abbrev pub Refused : Run StoiError A → Type 0
  Refused (done value) = fits value ≡ false
  Refused (throws error) = error ≡ invalid_argument
  Refused undefined = ⊥
  Refused no_fuel = ⊥

  -- And with this it ends.
  abbrev pub Ends : Run StoiError A → Type 0
  Ends (done value) = fits value ≡ true
  Ends (throws error) = error ≡ out_of_range
  Ends undefined = Unit {0}
  Ends no_fuel = Unit {0}

  abbrev pub RefusedLine : Text → Type 0
  RefusedLine line = Refused (read_as kind line)

  module _ (refusal title : Text) where
    -- What is written behind a refused line.
    abbrev pub reply : Run StoiError A → Text
    reply (done value) = refusal
    reply (throws error) = please_enter kind
    reply undefined = []
    reply no_fuel = []

    -- What is written while the lines are read and one more is asked for.
    abbrev pub asked : List Text → List Text → List Text
    asked [] out = title ∷ out
    asked (line ∷ lines) out = asked lines (reply (read_as kind line) ∷ title ∷ out)

    -- A prompt inside the loop, whose own loop goes on below it.
    abbrev pub round : ℕ → ℕ → Run StoiError A × Streams → Run StoiError A × Streams
    round each rounds first =
        check kind fits refusal first (λ s'. prompt_fitting kind each rounds title fits refusal s')

    passes_over :
        (r : Run StoiError A) (each m n : ℕ) (s : Streams) {result : Run StoiError A × Streams}
        → Refused r
        → round each n (prompt kind m title (print (reply r) s)) ≡ result
        → prompt_fitting kind each n title fits refusal (print (reply r) s) ≡ result
        → round each n (retry kind (r, s) (λ s'. prompt kind m title s')) ≡ result
    passes_over (done value) each m n s refused inside outside = rw refused outside
    passes_over (throws invalid_argument) each m n s refused inside outside = inside
    passes_over (throws out_of_range) each m n s refused inside outside = cc
    passes_over undefined each m n s refused inside outside = absurd refused
    passes_over no_fuel each m n s refused inside outside = absurd refused

    stops_at :
        (r : Run StoiError A) (each m n : ℕ) (s : Streams)
        → Ends r
        → round each n (retry kind (r, s) (λ s'. prompt kind m title s')) ≡ (r, s)
    stops_at (done value) each m n s ends = rw ends
    stops_at (throws invalid_argument) each m n s ends = cc
    stops_at (throws out_of_range) each m n s ends = refl
    stops_at undefined each m n s ends = refl
    stops_at no_fuel each m n s ends = refl

    -- The loop passes over refused lines, and ends with the line behind them, which is empty at the end
    -- of the input.
    round-Ends :
        (bad tail out err : List Text) (each m n : ℕ)
        → All RefusedLine bad
        → Ends (read_as kind (first_line tail))
        → length bad < each
        → length bad < m
        → length bad ≤ n
        → round each n (prompt kind m title (record { lines = bad ++ tail; out = out; err = err }))
          ≡ (
            read_as kind (first_line tail),
            record { lines = lines_behind tail; out = asked bad out; err = err },
          )
    unfolding prompt read_input prompt_fitting
    round-Ends bad tail out err each zero n refused ends h h' h'' = absurd (omega arith)
    round-Ends [] tail out err each (suc m) n refused ends h h' h'' =
        stops_at (read_as kind (first_line tail)) each m n
          (record { lines = lines_behind tail; out = title ∷ out; err = err }) ends
    round-Ends (b ∷ bad) tail out err each (suc m) zero refused ends h h' h'' = absurd (omega arith)
    round-Ends (b ∷ bad) tail out err each (suc m) (suc n) refused ends h h' h'' =
        let out' : List Text = reply (read_as kind b) ∷ title ∷ out in
        passes_over (read_as kind b) each m (suc n)
          (record { lines = bad ++ tail; out = title ∷ out; err = err }) refused.0
          (round-Ends bad tail out' err each m (suc n) refused.1 ends (omega arith) (omega arith)
            (omega arith))
          (round-Ends bad tail out' err each each n refused.1 ends (omega arith) (omega arith)
            (omega arith))

    -- With the lines `bad ++ tail`, of which those of `bad` are refused, and the one behind them is not.
    pub record Answered (bad tail out err : List Text) (call : Run StoiError A × Streams)
        : Type 0 where
      pub refused : All RefusedLine bad
      pub ends : Ends (read_as kind (first_line tail))
      pub answer : call.0 ≡ read_as kind (first_line tail)
      pub streams : call.1 ≡ record { lines = lines_behind tail; out = asked bad out; err = err }

  Ends-or-Refused : (r : Run StoiError A) → Ends r ⊎ Refused r
  Ends-or-Refused (done value) = Bool-cases (fits value)
  Ends-or-Refused (throws invalid_argument) = inr refl
  Ends-or-Refused (throws out_of_range) = inl refl
  Ends-or-Refused undefined = inl tt
  Ends-or-Refused no_fuel = inl tt

  -- The lines before the one that ends the loop.
  split_lines :
      (lines : List Text)
      → (bad : List Text) × (tail : List Text) × (lines ≡ bad ++ tail)
        × All RefusedLine bad
        × Ends (read_as kind (first_line tail))
  split_lines [] = ([], [], refl, tt, rw (read_as-nil kind) tt)
  split_lines (line ∷ lines) =
      let (bad, tail, e, refused, ends) = split_lines lines in
      elim (Ends-or-Refused (read_as kind line)) [
        | inl stop ↦ ([], line ∷ lines, refl, tt, stop)
        | inr go ↦ (line ∷ bad, tail, ap (λ l. line ∷ l) e, (go, refused), ends)
      ]

  module _ (refusal title : Text) where
    answer_lines :
        (bad tail lines out err : List Text) (rounds : ℕ)
        → lines ≡ bad ++ tail
        → All RefusedLine bad
        → Ends (read_as kind (first_line tail))
        → length lines < rounds
        → prompt_fitting kind rounds rounds title fits refusal
            (record { lines = lines; out = out; err = err })
          ≡ (
            read_as kind (first_line tail),
            record { lines = lines_behind tail; out = asked refusal title bad out; err = err },
          )
    unfolding prompt_fitting
    answer_lines bad tail lines out err zero e refused ends h = absurd (omega arith)
    answer_lines bad tail lines out err (suc n) e refused ends h =
        let counted : length lines ≡ length bad + length tail =
          ap length e ∙ length-append bad tail in
        rw e (
          round-Ends refusal title bad tail out err (suc n) (suc n) n refused ends (omega arith)
            (omega arith) (omega arith))

    pub prompt_fitting-Answered :
        (lines out err : List Text) (rounds : ℕ)
        → length lines < rounds
        → (bad : List Text) × (tail : List Text) × (lines ≡ bad ++ tail)
          × Answered refusal title bad tail out err (
              prompt_fitting kind rounds rounds title fits refusal
                (record { lines = lines; out = out; err = err }))
    prompt_fitting-Answered lines out err rounds h =
        let (bad, tail, e, refused, ends) = split_lines lines in
        let result = answer_lines bad tail lines out err rounds e refused ends h in
        (
          bad,
          tail,
          e,
          record {
            refused = refused;
            ends = ends;
            answer = ap (λ call. call.0) result;
            streams = ap (λ call. call.1) result;
          },
        )

line_read :
    {A : Type 0} (kind : Kind A) (tail : List Text) (value : A)
    → read_as kind (first_line tail) ≡ done value
    → length (lines_behind tail) < length tail
line_read kind [] value e = cc (read_as-nil kind)
line_read kind (line ∷ tail) value e = omega arith

module _ {A : Type 0} (kind : Kind A) (leb : A → A → Bool) (show : A → Text) (low high : A) where
  abbrev pub within : A → Bool
  within value = leb low value && leb value high

  abbrev pub enter_between : Text
  enter_between =
      codes "Please enter a value between " ++ show low ++ codes " and " ++ show high ++ codes ".\n"

  -- With more rounds than there are lines, `prompt_bounded` passes over the lines that are refused: those
  -- that are no value, which it answers with the type's name, and those whose value is out of bounds, which
  -- it answers with the bounds. The first other line ends it: with its value, within the bounds, or with
  -- the error of `std::stoi`, out of range, which it does not catch. An empty line and the end of the
  -- input are undefined behaviour.
  pub prompt_bounded-Answered :
      (title : Text) (lines out err : List Text) (rounds : ℕ)
      → length lines < rounds
      → (bad : List Text) × (tail : List Text) × (lines ≡ bad ++ tail)
        × Answered kind within enter_between title bad tail out err (
            prompt_bounded kind leb show rounds title low high
              (record { lines = lines; out = out; err = err }))
        × (read_as kind [] ≡ undefined)
  unfolding prompt_bounded
  prompt_bounded-Answered title lines out err rounds h =
      let (bad, tail, e, answered) =
        prompt_fitting-Answered kind within enter_between title lines out err rounds h in
      (bad, tail, e, answered, read_as-nil kind)

  -- A first line that is not refused ends the loop at once.
  pub prompt_bounded-first :
      (title : Text) (lines out err : List Text) (rounds : ℕ)
      → length lines < rounds
      → Ends kind within (read_as kind (first_line lines))
      → prompt_bounded kind leb show rounds title low high
          (record { lines = lines; out = out; err = err })
        ≡ (
          read_as kind (first_line lines),
          record { lines = lines_behind lines; out = title ∷ out; err = err },
        )
  unfolding prompt_bounded
  prompt_bounded-first title lines out err rounds h ends =
      answer_lines kind within enter_between title [] lines lines out err rounds refl tt ends h

  -- A prompt that returns a value has read a line.
  pub prompt_bounded-lines :
      (title : Text) (s : Streams) (rounds : ℕ) (value : A)
      → length s.lines < rounds
      → (prompt_bounded kind leb show rounds title low high s).0 ≡ done value
      → length (prompt_bounded kind leb show rounds title low high s).1.lines < length s.lines
  prompt_bounded-lines title s rounds value h e =
      let (bad, tail, cut, answered, nil) =
        prompt_bounded-Answered title s.lines s.out s.err rounds h in
      let behind : length (prompt_bounded kind leb show rounds title low high s).1.lines
          ≡ length (lines_behind tail) =
        ap (λ (t : Streams). length t.lines) answered.streams in
      let counted : length s.lines ≡ length bad + length tail =
        ap length cut ∙ length-append bad tail in
      let fewer = line_read kind tail value (sym answered.answer ∙ e) in omega arith

  -- A prompt does not run out of rounds, where reading a value does not.
  pub prompt_bounded-ends :
      (title : Text) (s : Streams) (rounds : ℕ)
      → ((line : Text) → read_as kind line ≢ no_fuel)
      → length s.lines < rounds
      → (prompt_bounded kind leb show rounds title low high s).0 ≢ no_fuel
  prompt_bounded-ends title s rounds reads h e =
      let (bad, tail, cut, answered, nil) =
        prompt_bounded-Answered title s.lines s.out s.err rounds h in
      reads (first_line tail) (sym answered.answer ∙ e)
