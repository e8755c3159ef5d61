-- ===== src/Cli/Sequence/Cases.antt =====
-- How a command sequence ends.
use cpp_tools.Base.{List, [], ◌∷◌, ◌++◌, map, Option, none, some, ◌≡◌, ◌⊎◌, inl, inr, refl, ap}
use cpp_tools.Base.Run.{Run, done, throws, undefined, no_fuel}
use cpp_tools.Text.Chars.{Text, codes}
use cpp_tools.Cli.Sequence.{
  success, failure, Code, Exception, std_exception, other_exception, State, Command, after, run_all,
}

module _ {ℓ} {Context : Type ℓ} where
  -- The state with what has been written since, the latest first.
  abbrev pub with_output : List Text → List Text → State Context → State Context
  with_output out err s = record {
    context = s.context;
    streams = record {
      lines = s.streams.lines;
      out = out ++ s.streams.out;
      err = err ++ s.streams.err;
    };
  }

  -- The commands succeed one behind the other, from the first state to the second.
  abbrev pub Succeed : List (Command Context) → State Context → State Context → Type ℓ
  Succeed [] s s' = s ≡ s'
  Succeed (c ∷ cs) s s' = (m : State Context) × (c.run s ≡ (done success, m)) × Succeed cs m s'

  -- What a call that does not succeed makes of the sequence.
  abbrev pub Ended :
      Text
      → Command Context
      → Run Exception Code × State Context
      → Run Exception Code × State Context
      → Type ℓ
  Ended tooltip c call r =
      let aborted = codes "Command sequence \"" ++ tooltip ++ codes "\" aborted.\n" in
      let failed = codes "Command \"" ++ c.tooltip ++ codes "\" returned with value failure\n" in
      (s : State Context) × (((call ≡ (done failure, s))
          × (r ≡ (done failure, with_output (aborted ∷ failed ∷ []) [] s)))
        ⊎ ((message : Text) × (call ≡ (throws (std_exception message), s))
            × (r ≡ (
              done failure,
              with_output (aborted ∷ [])
                  ((message ++ codes "\n") ∷ codes "Exception thrown:\n" ∷ []) s,
            )))
        ⊎ ((call ≡ (throws other_exception, s)) × (r ≡ (throws other_exception, s)))
        ⊎ ((call ≡ (undefined, s)) × (r ≡ (undefined, s)))
        ⊎ ((call ≡ (no_fuel, s)) × (r ≡ (no_fuel, s))))

  -- The same of a pointer to a command, called in a state.
  abbrev pub Stopped :
      Text → Option (Command Context) → State Context → Run Exception Code × State Context → Type ℓ
  Stopped tooltip none s r = r ≡ (undefined, s)
  Stopped tooltip (some c) s r = Ended tooltip c (c.run s) r

  after_cases :
      (tooltip : Text) (c : Command Context) (call : Run Exception Code × State Context)
      (next : State Context → Run Exception Code × State Context)
      → ((s : State Context) × (call ≡ (done success, s)) × (after tooltip c call next ≡ next s))
        ⊎ Ended tooltip c call (after tooltip c call next)
  after_cases tooltip c (done success, s) next = inl (s, refl, refl)
  after_cases tooltip c (done failure, s) next = inr (s, inl (refl, refl))
  after_cases tooltip c (throws (std_exception message), s) next =
      inr (s, inr (inl (message, refl, refl)))
  after_cases tooltip c (throws other_exception, s) next = inr (s, inr (inr (inl (refl, refl))))
  after_cases tooltip c (undefined, s) next = inr (s, inr (inr (inr (inl (refl, refl)))))
  after_cases tooltip c (no_fuel, s) next = inr (s, inr (inr (inr (inr (refl, refl)))))

  -- The first command that does not succeed, or is null, and what is left there.
  pub record Stops (tooltip : Text) (cs : List (Option (Command Context))) (s : State Context)
      (r : Run Exception Code × State Context) : Type ℓ where
    pub before : List (Command Context)
    pub at : Option (Command Context)
    pub behind : List (Option (Command Context))
    pub split : cs ≡ map some before ++ at ∷ behind
    pub mid : State Context
    pub succeeded : Succeed before s mid
    pub stopped : Stopped tooltip at mid r

  abbrev pub Passes :
      List (Option (Command Context)) → State Context → Run Exception Code × State Context → Type ℓ
  Passes cs s r =
      (all : List (Command Context)) × (s' : State Context) × (cs ≡ map some all)
      × Succeed all s s'
      × (r ≡ (done success, s'))

  -- Behind a command that succeeds.
  one_more :
      (tooltip : Text) (c : Command Context) (cs : List (Option (Command Context)))
      (s m : State Context) (r : Run Exception Code × State Context)
      → c.run s ≡ (done success, m)
      → Passes cs m r ⊎ Stops tooltip cs m r
      → Passes (some c ∷ cs) s r ⊎ Stops tooltip (some c ∷ cs) s r
  one_more tooltip c cs s m r call (inl (all, s', e, succeed, ends)) =
      inl (c ∷ all, s', ap (λ l. some c ∷ l) e, (m, call, succeed), ends)
  one_more tooltip c cs s m r call (inr stops) = inr (record {
    before = c ∷ stops.before;
    at = stops.at;
    behind = stops.behind;
    split = ap (λ l. some c ∷ l) stops.split;
    mid = stops.mid;
    succeeded = (m, call, stops.succeeded);
    stopped = stops.stopped;
  })

  -- A command sequence either returns success, where none of its commands is null and each succeeds in the
  -- state that the one before it left; or it ends at the first of which this is not true, and runs none
  -- behind it. There, a command that returns a failure makes the sequence fail with two lines on the
  -- output, which name the command and the sequence; a command that throws a `std::exception` makes it
  -- fail with the message on the error stream and one line on the output; any other exception, and
  -- undefined behaviour, which a null command is, come out of the sequence.
  pub run_all-cases :
      (tooltip : Text) (cs : List (Option (Command Context))) (s : State Context)
      → Passes cs s (run_all tooltip cs s) ⊎ Stops tooltip cs s (run_all tooltip cs s)
  unfolding run_all
  run_all-cases tooltip [] s = inl ([], s, refl, refl, refl)
  run_all-cases tooltip (none ∷ cs) s = inr (record {
    before = [];
    at = none;
    behind = cs;
    split = refl;
    mid = s;
    succeeded = refl;
    stopped = refl;
  })
  run_all-cases tooltip (some c ∷ cs) s =
      elim (after_cases tooltip c (c.run s) (λ s'. run_all tooltip cs s')) [
        | inl (m, call, goes_on) ↦
            one_more tooltip c cs s m (run_all tooltip (some c ∷ cs) s) call
              (rw goes_on (run_all-cases tooltip cs m))
        | inr ended ↦ inr (record {
          before = [];
          at = some c;
          behind = cs;
          split = refl;
          mid = s;
          succeeded = refl;
          stopped = ended;
        })
      ]
