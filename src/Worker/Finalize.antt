-- ===== src/Worker/Finalize.antt =====
-- `finalize` ends the worker, whatever other threads call meanwhile.
use cpp_tools.Base.{
  ◌≢◌, ◌⊎◌, inl, inr, ℕ, suc, ◌+◌, ◌-◌, ◌≤◌, Bool, true, false, List, [], ◌∷◌, ◌≡◌, refl, arith, ap,
  ◌∙◌,
}
use cpp_tools.Worker.{
  Call, task, Place, starting, testing, set_paused, reset_running, pausing, waiting, reset_paused,
  deciding, set_running, resuming, working, finalizing, set_finalized, ended, Worker, work,
}
use cpp_tools.Worker.Step.{
  Action, works, finalizes, pauses, runs, act, follow, steps_of, Reaches, next,
}
use cpp_tools.Worker.Protocol.{flags-place, finalized_at}

-- How many steps the thread of a finalized worker has still to take, at most.
abbrev remaining : Place → Bool → ℕ
remaining ended stop = 0
remaining set_finalized stop = 1
remaining finalizing stop = 2
remaining deciding true = 3
remaining reset_paused true = 4
remaining testing stop = 4
remaining starting stop = 5
remaining working stop = 5
remaining resuming stop = 6
remaining set_running stop = 7
remaining deciding false = 8
remaining reset_paused false = 9
remaining waiting stop = 5
remaining pausing stop = 6
remaining reset_running stop = 7
remaining set_paused stop = 8

left : Worker → ℕ
left w = remaining w.place w.stop_execution

work-left : (w : Worker) → w.exit ≡ true → left (work w) ≤ left w - 1
unfolding left work
work-left w e = ground arith

work-exit : (w : Worker) → w.exit ≡ true → (work w).exit ≡ true
unfolding work
work-exit w e = ground arith

act-exit : (a : Action) (w : Worker) → w.exit ≡ true → (act a w).exit ≡ true
act-exit works w e = work-exit w e
act-exit finalizes w e = ground arith
act-exit pauses w e = ground arith
act-exit runs w e = ground arith

-- A call of another thread moves the worker's thread nowhere.
act-same :
    (a : Action) (w : Worker)
    → a ≢ works
    → ((act a w).place ≡ w.place)
      × ((act a w).stop_execution ≡ w.stop_execution)
      × ((act a w).calls ≡ w.calls)
act-same works w other = absurd (other refl)
act-same finalizes w other = (ground arith, ground arith, ground arith)
act-same pauses w other = (ground arith, ground arith, ground arith)
act-same runs w other = (ground arith, ground arith, ground arith)

is_works : (a : Action) → (a ≡ works) ⊎ (a ≢ works)
is_works works = inl refl
is_works finalizes = inr (λ e. cc)
is_works pauses = inr (λ e. cc)
is_works runs = inr (λ e. cc)

steps-cons : (a : Action) (rest : List Action) → a ≢ works → steps_of (a ∷ rest) ≡ steps_of rest
steps-cons works rest other = absurd (other refl)
steps-cons finalizes rest other = refl
steps-cons pauses rest other = refl
steps-cons runs rest other = refl

follow-left :
    (rest : List Action) (w : Worker)
    → w.exit ≡ true
    → left (follow rest w) ≤ left w - steps_of rest
unfolding left
follow-left [] w e = omega arith
follow-left (a ∷ rest) w e = elim (is_works a) [
  | inl same ↦ rw same (omega (arith, follow-left rest (work w) (work-exit w e), work-left w e))
  | inr other ↦
      let (place, stop, calls) = act-same a w other in
      let still : left (act a w) ≡ left w = rw (place, stop) in
      omega (arith, follow-left rest (act a w) (act-exit a w e), still, steps-cons a rest other)
]

Reaches-follow : (rest : List Action) (w : Worker) → Reaches w → Reaches (follow rest w)
Reaches-follow [] w r = r
Reaches-follow (a ∷ rest) w r = Reaches-follow rest (act a w) (next w a r)

left-ended : (w : Worker) → left w ≡ 0 → w.place ≡ ended
unfolding left
left-ended w e = ground arith

left-bound : (w : Worker) → left w ≤ 9
unfolding left
left-bound w = ground arith

-- Once `_exit` is set, nine steps of the worker's thread end it and set `_finalized`, whichever calls
-- of other threads come before, between and behind them.
pub finalize-ends :
    (w : Worker) (schedule : List Action)
    → Reaches w
    → w.exit ≡ true
    → 9 ≤ steps_of schedule
    → ((follow schedule w).place ≡ ended) × ((follow schedule w).is_finalized ≡ true)
finalize-ends w schedule r e enough =
    let w' = follow schedule w in
    let here : w'.place ≡ ended =
      left-ended w' (omega (arith, follow-left schedule w e, left-bound w)) in
    let (flag, _, _) = flags-place w' (Reaches-follow schedule w r) in
    (here, flag ∙ ap finalized_at here)

-- How often the task has been run.
abbrev pub tasks : List Call → ℕ
tasks [] = 0
tasks (c ∷ cs) = let n = tasks cs in elim c [ task ↦ suc n | _ ↦ n ]

-- How often it can still be run in a worker that is to exit.
abbrev due : Place → Bool → ℕ
due reset_paused false = 1
due deciding false = 1
due set_running stop = 1
due resuming stop = 1
due working stop = 1
due _ _ = 0

work-due :
    (w : Worker)
    → w.exit ≡ true
    → tasks (work w).calls + due (work w).place (work w).stop_execution
      ≤ tasks w.calls + due w.place w.stop_execution
unfolding work
work-due w e = ground arith

follow-due :
    (rest : List Action) (w : Worker)
    → w.exit ≡ true
    → tasks (follow rest w).calls ≤ tasks w.calls + due w.place w.stop_execution
follow-due [] w e = omega arith
follow-due (a ∷ rest) w e = elim (is_works a) [
  | inl same ↦ rw same (omega (arith, follow-due rest (work w) (work-exit w e), work-due w e))
  | inr other ↦
      let (place, stop, calls) = act-same a w other in
      let still : tasks (act a w).calls + due (act a w).place (act a w).stop_execution
          ≡ tasks w.calls + due w.place w.stop_execution =
        rw (place, stop, calls) in
      omega (arith, follow-due rest (act a w) (act-exit a w e), still)
]

-- Once `_exit` is set, the task is run at most once more, under any interleaving.
pub finalize-tasks :
    (w : Worker) (schedule : List Action)
    → w.exit ≡ true
    → tasks (follow schedule w).calls ≤ suc (tasks w.calls)
finalize-tasks w schedule e = ground (arith, follow-due schedule w e)
