-- ===== src/Worker/Tests.antt =====
-- A schedule of a worker, and the theorems at it.
use cpp_tools.Base.{true, List, [], ◌∷◌, some, ◌≡◌, refl, arith}
use cpp_tools.Worker.{Worker, create, work, ended, on_start, on_resume, task}
use cpp_tools.Worker.Step.{Action, works, finalizes, pauses, act, follow, Reaches, at_start, next}
use cpp_tools.Worker.Protocol.{
  Stage, stage, calls-stage, flags-place, paused_at, finalized_at, running_at,
}
use cpp_tools.Worker.Finalize.{finalize-ends}

abbrev six : List Action → List Action
six rest = works ∷ works ∷ works ∷ works ∷ works ∷ works ∷ rest

-- The worker starts, runs its task once, is asked to pause and begins to.
abbrev schedule : List Action
schedule = six (pauses ∷ works ∷ works ∷ [])

abbrev halting : Worker
halting = follow schedule (create true)

halting-Reaches : Reaches halting
halting-Reaches =
    (next _ works (
      next _ works (
        next _ pauses (
          next _ works (
            next _ works
              (next _ works (next _ works (next _ works (next _ works (at_start true))))))))))

halting_calls : halting.calls ≡ task ∷ on_resume ∷ on_start ∷ []
unfolding work
halting_calls = refl

calls-stage_example : (s : Stage) × (stage halting.calls ≡ some s)
calls-stage_example = calls-stage halting halting-Reaches

flags-place_example :
    (halting.is_finalized ≡ finalized_at halting.place)
    × (halting.is_paused ≡ paused_at halting.place)
    × (halting.is_running ≡ running_at halting.place halting.calls)
flags-place_example = flags-place halting halting-Reaches

halting_paused : halting.is_paused ≡ true
unfolding work
halting_paused = refl

halting_running : halting.is_running ≡ true
unfolding work
halting_running = refl

-- A worker finalized before its first step, and a schedule in which it is asked to pause.
abbrev dismissed : Worker
dismissed = act finalizes (create true)

abbrev last_steps : List Action
last_steps = six (pauses ∷ six [])

finalize-ends_example :
    ((follow last_steps dismissed).place ≡ ended)
    × ((follow last_steps dismissed).is_finalized ≡ true)
finalize-ends_example =
    finalize-ends dismissed last_steps (next _ finalizes (at_start true)) refl (omega arith)

-- `_running` stays set when a running worker is finalized.
running_when_ended :
    (let w = follow (six (finalizes ∷ six [])) (create true) in w.is_running) ≡ true
unfolding work
running_when_ended = refl
