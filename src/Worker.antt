-- ===== src/Worker.antt =====
-- cpptools/thread/worker.cpp: the worker's thread and the calls that control it, as interleaved steps.
-- A step is what happens between two points at which another thread can see or change something.
pub mod Step
pub mod Protocol
pub mod Finalize
mod Tests
use cpp_tools.Base.{Bool, true, false, ◌||◌, List, [], ◌∷◌, if◌then◌else◌}

-- The calls of the functions that the worker was given.
pub data Call : Type 0 where
  on_start on_finalize on_resume on_pause task : Call

-- Where `_work` stands: before which of its statements.
pub data Place : Type 0 where
  starting : Place
  testing : Place
  set_paused : Place
  reset_running : Place
  pausing : Place
  waiting : Place
  reset_paused : Place
  deciding : Place
  set_running : Place
  resuming : Place
  working : Place
  finalizing : Place
  set_finalized : Place
  ended : Place

-- `calls` has the latest call first. `stop_execution` and `was_running_before` are locals of `_work`.
pub record Worker : Type 0 where
  pub place : Place
  pub exit : Bool
  pub execute : Bool
  pub is_finalized : Bool
  pub is_paused : Bool
  pub is_running : Bool
  pub stop_execution : Bool
  pub was_running_before : Bool
  pub calls : List Call

-- The constructor.
abbrev pub create : Bool → Worker
create start_now = record {
  place = starting;
  exit = false;
  execute = start_now;
  is_finalized = false;
  is_paused = false;
  is_running = false;
  stop_execution = false;
  was_running_before = false;
  calls = [];
}

-- Whether `_work` holds `_mutex_execute`, for which the controlling calls wait.
abbrev pub locked : Place → Bool
locked set_paused = true
locked reset_running = true
locked pausing = true
locked _ = false

-- Behind the tests of `_exit` and `_execute` at the top of the loop.
abbrev pub tested : Worker → Worker
tested w =
    if w.exit
    then record w { place = deciding; stop_execution = w.exit }
    else if w.execute
    then record w { place = deciding }
    else record w { place = set_paused }

-- Behind the wait, which lasts while its predicate is false.
abbrev pub waited : Worker → Worker
waited w =
    if w.execute || w.exit then record w { place = reset_paused; stop_execution = w.exit } else w

abbrev pub decided : Worker → Worker
decided w =
    if w.stop_execution
    then record w { place = finalizing }
    else if w.was_running_before
    then record w { place = working }
    else record w { place = set_running }

-- One step of `_work`.
unfoldable pub work : Worker → Worker
work w = elim w.place [
  | starting ↦ record w { place = testing; calls = on_start ∷ w.calls }
  | testing ↦ tested w
  | set_paused ↦ record w { place = reset_running; is_paused = true }
  | reset_running ↦ record w { place = pausing; is_running = false }
  | pausing ↦ record w { place = waiting; calls = on_pause ∷ w.calls }
  | waiting ↦ waited w
  | reset_paused ↦ record w { place = deciding; is_paused = false; was_running_before = false }
  | deciding ↦ decided w
  | set_running ↦ record w { place = resuming; is_running = true }
  | resuming ↦ record w { place = working; was_running_before = true; calls = on_resume ∷ w.calls }
  | working ↦ record w { place = testing; calls = task ∷ w.calls }
  | finalizing ↦ record w { place = set_finalized; calls = on_finalize ∷ w.calls }
  | set_finalized ↦ record w { place = ended; is_finalized = true }
  | ended ↦ w
]

abbrev pub finalize : Worker → Worker
finalize w = record w { exit = true }

abbrev pub pause : Worker → Worker
pause w = record w { execute = false }

abbrev pub run : Worker → Worker
run w = record w { execute = true }
