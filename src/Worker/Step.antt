-- ===== src/Worker/Step.antt =====
-- The interleavings: what the scheduler may do next, and the states that are reached.
use cpp_tools.Base.{ℕ, suc, Bool, List, [], ◌∷◌, if◌then◌else◌}
use cpp_tools.Worker.{Worker, create, locked, work, finalize, pause, run}

-- The worker's thread gets a step, or a call of another thread is tried.
pub data Action : Type 0 where
  works : Action
  finalizes : Action
  pauses : Action
  runs : Action

-- A call that finds the mutex held has to be tried again.
abbrev pub act : Action → Worker → Worker
act works w = work w
act finalizes w = if locked w.place then w else finalize w
act pauses w = if locked w.place then w else pause w
act runs w = if locked w.place then w else run w

abbrev pub follow : List Action → Worker → Worker
follow [] w = w
follow (a ∷ rest) w = follow rest (act a w)

-- The states that a worker can reach.
pub data Reaches : Worker → Type 0 where
  at_start : (start_now : Bool) → Reaches (create start_now)
  next : (w : Worker) (a : Action) → Reaches w → Reaches (act a w)

-- How many steps the worker's thread gets.
abbrev pub steps_of : List Action → ℕ
steps_of [] = 0
steps_of (works ∷ rest) = suc (steps_of rest)
steps_of (finalizes ∷ rest) = steps_of rest
steps_of (pauses ∷ rest) = steps_of rest
steps_of (runs ∷ rest) = steps_of rest
