-- ===== src/Worker/Protocol.antt =====
-- The flags that other threads read, and the order of the calls.
use cpp_tools.Base.{
  Bool, true, false, List, [], ◌∷◌, Option, none, some, ◌≡◌, refl, arith, if◌then◌else◌,
}
use cpp_tools.Worker.{
  Call, on_start, on_finalize, on_resume, on_pause, task, Place, starting, testing, set_paused,
  reset_running, pausing, waiting, reset_paused, deciding, set_running, resuming, working,
  finalizing, set_finalized, ended, Worker, work, finalize, pause, run, locked,
}
use cpp_tools.Worker.Step.{Action, works, finalizes, pauses, runs, act, Reaches, at_start, next}

abbrev pub paused_at : Place → Bool
paused_at reset_running = true
paused_at pausing = true
paused_at waiting = true
paused_at reset_paused = true
paused_at _ = false

abbrev pub finalized_at : Place → Bool
finalized_at ended = true
finalized_at _ = false

-- Whether `on_resume` has been called, and `on_pause` not since.
abbrev pub resumed : List Call → Bool
resumed [] = false
resumed (on_resume ∷ cs) = true
resumed (on_pause ∷ cs) = false
resumed (on_start ∷ cs) = resumed cs
resumed (on_finalize ∷ cs) = resumed cs
resumed (task ∷ cs) = resumed cs

-- `running()`, which changes just before the call of `on_pause` or `on_resume`.
abbrev pub running_at : Place → List Call → Bool
running_at pausing calls = false
running_at resuming calls = true
running_at _ calls = resumed calls

-- What the calls so far have come to.
pub data Stage : Type 0 where
  unstarted started active halted over : Stage

abbrev pub called : Call → Stage → Option Stage
called on_start unstarted = some started
called on_resume started = some active
called on_resume halted = some active
called task active = some active
called on_pause started = some halted
called on_pause active = some halted
called on_finalize started = some over
called on_finalize active = some over
called on_finalize halted = some over
called _ _ = none

-- `none` where a call came out of order: `on_start` comes first and once, `on_pause` and `on_resume`
-- take turns, tasks run only between `on_resume` and `on_pause`, and nothing comes behind `on_finalize`.
abbrev pub stage : List Call → Option Stage
stage [] = some unstarted
stage (c ∷ cs) = elim (stage cs) [ none ↦ none | some s ↦ called c s ]

-- The stages that a place allows.
abbrev allows : Place → Bool → Stage → Bool
allows starting false unstarted = true
allows testing true active = true
allows testing false started = true
allows set_paused true active = true
allows set_paused false started = true
allows reset_running true active = true
allows reset_running false started = true
allows pausing true active = true
allows pausing false started = true
allows waiting was halted = true
allows reset_paused was halted = true
allows deciding true active = true
allows deciding false started = true
allows deciding false halted = true
allows set_running false started = true
allows set_running false halted = true
allows resuming false started = true
allows resuming false halted = true
allows working true active = true
allows finalizing was started = true
allows finalizing was active = true
allows finalizing was halted = true
allows set_finalized was over = true
allows ended was over = true
allows _ _ _ = false

record Ordered (w : Worker) : Type 0 where
  paused_flag : w.is_paused ≡ paused_at w.place
  finalized_flag : w.is_finalized ≡ finalized_at w.place
  running_flag : w.is_running ≡ running_at w.place w.calls
  now : Stage
  stage_now : stage w.calls ≡ some now
  allowed : allows w.place w.was_running_before now ≡ true

-- The stage behind the step that stands at a place.
abbrev stage_behind : Place → Stage → Stage
stage_behind starting s = started
stage_behind pausing s = halted
stage_behind resuming s = active
stage_behind finalizing s = over
stage_behind _ s = s

step_calls :
    (w : Worker) (s : Stage)
    → stage w.calls ≡ some s
    → allows w.place w.was_running_before s ≡ true
    → stage (work w).calls ≡ some (stage_behind w.place s)
unfolding work
step_calls w s now ok = ground arith

step_allows :
    (w : Worker) (s : Stage)
    → allows w.place w.was_running_before s ≡ true
    → allows (work w).place (work w).was_running_before (stage_behind w.place s) ≡ true
unfolding work
step_allows w s ok = ground arith

step_paused :
    (w : Worker) → w.is_paused ≡ paused_at w.place → (work w).is_paused ≡ paused_at (work w).place
unfolding work
step_paused w e = ground arith

step_finalized :
    (w : Worker)
    → w.is_finalized ≡ finalized_at w.place
    → (work w).is_finalized ≡ finalized_at (work w).place
unfolding work
step_finalized w e = ground arith

step_running :
    (w : Worker)
    → w.is_running ≡ running_at w.place w.calls
    → (work w).is_running ≡ running_at (work w).place (work w).calls
unfolding work
step_running w e = ground arith

work-Ordered : (w : Worker) → Ordered w → Ordered (work w)
work-Ordered w o = record {
  paused_flag = step_paused w o.paused_flag;
  finalized_flag = step_finalized w o.finalized_flag;
  running_flag = step_running w o.running_flag;
  now = stage_behind w.place o.now;
  stage_now = step_calls w o.now o.stage_now o.allowed;
  allowed = step_allows w o.now o.allowed;
}

control-Ordered :
    (w : Worker) (e x : Bool) → Ordered w → Ordered (record w { exit = e; execute = x })
control-Ordered w e x o = record {
  paused_flag = o.paused_flag;
  finalized_flag = o.finalized_flag;
  running_flag = o.running_flag;
  now = o.now;
  stage_now = o.stage_now;
  allowed = o.allowed;
}

-- A call that may have to be tried again.
unless_locked :
    (w w' : Worker) → Ordered w → Ordered w' → Ordered (if locked w.place then w else w')
unless_locked w w' o o' = pick (locked w.place)
  where
    pick : (b : Bool) → Ordered (if b then w else w')
    pick true = o
    pick false = o'

act-Ordered : (a : Action) (w : Worker) → Ordered w → Ordered (act a w)
act-Ordered works w o = work-Ordered w o
act-Ordered finalizes w o = unless_locked w (finalize w) o (control-Ordered w true w.execute o)
act-Ordered pauses w o = unless_locked w (pause w) o (control-Ordered w w.exit false o)
act-Ordered runs w o = unless_locked w (run w) o (control-Ordered w w.exit true o)

Reaches-Ordered : {w : Worker} → Reaches w → Ordered w
Reaches-Ordered (at_start start_now) = record {
  paused_flag = refl;
  finalized_flag = refl;
  running_flag = refl;
  now = unstarted;
  stage_now = refl;
  allowed = refl;
}
Reaches-Ordered (next w a r) = act-Ordered a w (Reaches-Ordered r)

-- In every state that a worker reaches, under any interleaving of its thread with calls of `finalize`,
-- `pause` and `run`, its functions have been called in this order: `on_start` first and once, then
-- `on_resume` before the first task, also of a worker that has not paused, then `on_pause` and
-- `on_resume` in turns, the task only between an `on_resume` and the next `on_pause`, and nothing behind
-- `on_finalize`. A worker that does not start at once may call `on_pause` before any `on_resume`.
pub calls-stage : (w : Worker) → Reaches w → (s : Stage) × (stage w.calls ≡ some s)
calls-stage w r = let o = Reaches-Ordered r in (o.now, o.stage_now)

-- In every state that a worker reaches, `finalized()` and `paused()` say where the thread stands: at its
-- end, and between the two assignments of `_paused`. `running()` says whether `on_resume` has been called
-- and `on_pause` not since, but that it changes before those calls and not behind them; so it stays true
-- of a worker that has ended without a pause.
pub flags-place :
    (w : Worker)
    → Reaches w
    → (w.is_finalized ≡ finalized_at w.place)
      × (w.is_paused ≡ paused_at w.place)
      × (w.is_running ≡ running_at w.place w.calls)
flags-place w r = let o = Reaches-Ordered r in (o.finalized_flag, o.paused_flag, o.running_flag)
