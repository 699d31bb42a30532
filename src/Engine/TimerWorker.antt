-- ===== src/Engine/TimerWorker.antt =====
-- The worker thread of the timers, framework/core/src/engine/timer_queue.cc: `TimerQueue::Impl` and
-- the operations that others call. Each holds the lock, so they follow one another, and a round of
-- the worker's loop takes effect at its lock. The wait and the callbacks of a thread are outside.
pub mod Waiting
mod Tests
use plain.Prelude.{
  ℕ, Bool, true, false, not, ◌&&◌, ◌||◌, Option, none, some, List, [], ◌∷◌, ◌++◌, length, ◌≡◌, ◌==◌,
  if◌then◌else◌,
}
use plain.Engine.TimerQueue.{
  Timer, TimerRequest, add, remove, TimerSet, no_timers, World, process_timers,
}

-- `TimerQueue::Impl`, with the locals of `work_loop`. `joinable` is that of the thread, `running`
-- whether it is in its loop.
pub record TimerWorker : Type 0 where
  pub atomic_abort : Bool
  pub abort : Bool
  pub idle : Bool
  pub joinable : Bool
  pub running : Bool
  pub requests : List TimerRequest
  pub internal_state : TimerSet
  pub next_deadline : ℕ

unfoldable pub new_worker : TimerWorker
new_worker = record {
  atomic_abort = false;
  abort = false;
  idle = true;
  joinable = false;
  running = false;
  requests = [];
  internal_state = no_timers;
  next_deadline = 0;
}

-- A new thread has a state of its own.
unfoldable pub ensure_worker_thread : TimerWorker → TimerWorker
ensure_worker_thread w =
    if not w.idle
    then w
    else record w { idle = false; joinable = true; running = true; internal_state = no_timers }

unfoldable pub add_internal_timer : Timer → TimerWorker → TimerWorker
add_internal_timer t w = record w { requests = w.requests ++ (add t ∷ []) }

-- `none` when it throws.
unfoldable pub add_timer : Timer → TimerWorker → Option TimerWorker
add_timer t w = if w.abort then none else some (add_internal_timer t (ensure_worker_thread w))

unfoldable pub remove_internal_timer : ℕ → TimerWorker → TimerWorker
remove_internal_timer id w = record w { requests = w.requests ++ (remove id ∷ []) }

-- `shutdown` up to where it waits for the thread.
unfoldable pub shutdown : TimerWorker → TimerWorker
shutdown w =
    let aborted = record w { atomic_abort = true; abort = true } in
    if w.atomic_abort
    then w
    else if not w.joinable
    then aborted
    else record aborted { requests = [] }

-- The end of `shutdown`: the thread has ended and is joined.
unfoldable pub join : TimerWorker → TimerWorker
join w = record w { joinable = false }

-- A round of `work_loop` when its wait is over, with the tasks posted. `none` if `process_timers`
-- takes more rounds.
unfoldable pub work_loop : ℕ → World → ℕ → TimerWorker → Option (List ℕ × TimerWorker)
work_loop rounds world now w =
    if (length w.internal_state.timers == 0) && ((length w.requests == 0) && not w.abort)
    then some ([], record w { idle = true; running = false })
    else if w.abort
    then some ([], record w { running = false })
    else elim (process_timers rounds world now w.requests w.internal_state) [
      | none ↦ none
      | some (deadline, ids, s) ↦
          some (ids, record w { requests = []; internal_state = s; next_deadline = deadline })
    ]

-- What can happen.
pub data Step : TimerWorker → TimerWorker → Type 0 where
  adds : (t : Timer) (w w' : TimerWorker) → add_timer t w ≡ some w' → Step w w'
  removes : (id : ℕ) (w : TimerWorker) → Step w (remove_internal_timer id w)
  works :
      (rounds now : ℕ) (world : World) (ids : List ℕ) (w w' : TimerWorker)
      → w.running ≡ true
      → work_loop rounds world now w ≡ some (ids, w')
      → Step w w'
  shuts : (w : TimerWorker) → Step w (shutdown w)
  joins : (w : TimerWorker) → w.abort ≡ true → w.running ≡ false → Step w (join w)

pub data Steps : TimerWorker → TimerWorker → Type 0 where
  at_start : (w : TimerWorker) → Steps w w
  and_then : (w w' w'' : TimerWorker) → Steps w w' → Step w' w'' → Steps w w''
