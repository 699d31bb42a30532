-- ===== src/Concurrency/Pool/Worker.antt =====
-- A worker of the pool, `ThreadPoolWorker`. A task is a number. What happens under the worker's
-- lock is one step, so are an access of the semaphore and of an atomic flag; a step whose place or
-- condition is not there changes nothing.
use plain.Prelude.{
  ℕ, ◌+◌, ◌-◌, Bool, true, false, not, ◌&&◌, ◌||◌, Option, none, some, List, [], ◌∷◌, ◌++◌, length,
  drop, ltb, ◌==◌, if◌then◌else◌,
}

-- Where the worker's thread is: in `drain_queue` before the lock, before `mark_worker_idle`, at the
-- semaphore, past it, before the lock again, past the deadline, in `drain_queue_impl`, behind its
-- loop. `no_thread` is no thread, or one that has set `idle_` and is leaving.
pub data Place : Type 0 where
  no_thread at_top marking waiting acquired found timed_out draining aborted : Place

-- How far `shutdown` has come.
pub data Stage : Type 0 where
  untouched flagged locked announced released joined cleared : Stage

-- `releases` counts the callers that are between the lock and the semaphore; `finished` has the
-- tasks that were run, the latest first.
pub record Worker : Type 0 where
  pub private_queue : List ℕ
  pub public_queue : List ℕ
  pub atomic_abort : Bool
  pub abort : Bool
  pub idle : Bool
  pub task_found_or_abort : Bool
  pub semaphore : ℕ
  pub place : Place
  pub releases : ℕ
  pub stage : Stage
  pub finished : List ℕ

unfoldable pub new_worker : Worker
new_worker = record {
  private_queue = [];
  public_queue = [];
  atomic_abort = false;
  abort = false;
  idle = true;
  task_found_or_abort = false;
  semaphore = 0;
  place = no_thread;
  releases = 0;
  stage = untouched;
  finished = [];
}

abbrev pub is_empty : List ℕ → Bool
is_empty [] = true
is_empty (x ∷ xs) = false

abbrev pub stop : Worker → Worker
stop w = record w { idle = true; place = no_thread }

-- `drain_queue` behind the wait, up to the unlock.
unfoldable pub take_tasks : Worker → Worker
take_tasks w =
    let v = record w { task_found_or_abort = false } in
    if v.abort then stop v else record v {
      private_queue = v.public_queue;
      public_queue = v.private_queue;
      place = draining;
    }

-- The first lines of `wait_for_task`, under the lock of `drain_queue`.
unfoldable pub enter : Worker → Worker
unfolding take_tasks
enter w =
    if not (is_empty w.public_queue) || w.abort then take_tasks w else record w { place = marking }

-- `try_acquire_until` that succeeds.
unfoldable pub acquire : Worker → Worker
acquire w =
    if w.semaphore == 0 then w else record w { semaphore = w.semaphore - 1; place = acquired }

unfoldable pub look : Worker → Worker
look w = record w { place = if w.task_found_or_abort then found else waiting }

-- From the lock in the loop of `wait_for_task`.
unfoldable pub relock : Worker → Worker
unfolding take_tasks
relock w =
    if is_empty w.public_queue && not w.abort
    then record w { place = waiting }
    else if w.abort
    then stop w
    else take_tasks w

-- `private_queue_.back()` and the others.
abbrev pub last_task : ℕ → List ℕ → ℕ
last_task x [] = x
last_task x (y ∷ ys) = last_task y ys

abbrev pub but_last : ℕ → List ℕ → List ℕ
but_last x [] = []
but_last x (y ∷ ys) = x ∷ but_last y ys

-- A turn of `drain_queue_impl` behind `balance_work`.
unfoldable pub run_task : List ℕ → Worker → Worker
run_task [] w = record w { place = at_top }
run_task (x ∷ xs) w =
    if w.atomic_abort
    then record w { place = aborted }
    else record w { private_queue = but_last x xs; finished = last_task x xs ∷ w.finished }

unfoldable pub enqueue_local : List ℕ → Worker → Option Worker
enqueue_local tasks w =
    if w.atomic_abort then none else some (record w { private_queue = w.private_queue ++ tasks })

-- `ensure_worker_active` up to the unlock; a caller that goes on to the semaphore is counted.
unfoldable pub ensure_worker_active : Bool → Worker → Worker
ensure_worker_active first_enqueuer w =
    if w.idle
    then record w { idle = false; place = at_top }
    else if first_enqueuer
    then record w { releases = w.releases + 1 }
    else w

-- The four overloads of `enqueue_foreign`; `none` when it throws.
unfoldable pub enqueue_foreign : List ℕ → Worker → Option Worker
unfolding ensure_worker_active
enqueue_foreign tasks w =
    let v = record w { task_found_or_abort = true; public_queue = w.public_queue ++ tasks } in
    if w.abort then none else some (ensure_worker_active (is_empty w.public_queue) v)

-- `semaphore_.release()` of a caller of `ensure_worker_active`.
unfoldable pub release : Worker → Worker
release w =
    if w.releases == 0
    then w
    else record w { releases = w.releases - 1; semaphore = w.semaphore + 1 }

abbrev pub is_gone : Place → Bool
is_gone no_thread = true
is_gone at_top = false
is_gone marking = false
is_gone waiting = false
is_gone acquired = false
is_gone found = false
is_gone timed_out = false
is_gone draining = false
is_gone aborted = false

-- The next step of `shutdown`; the join waits for the thread to be gone.
unfoldable pub shut : Stage → Worker → Worker
shut untouched w = record w { stage = flagged; atomic_abort = true }
shut flagged w = record w { stage = locked; abort = true }
shut locked w = record w { stage = announced; task_found_or_abort = true }
shut announced w = record w { stage = released; semaphore = w.semaphore + 1 }
shut released w = if is_gone w.place then record w { stage = joined } else w
shut joined w = record w { stage = cleared; public_queue = []; private_queue = [] }
shut cleared w = w

unfoldable pub appears_empty : Worker → Bool
appears_empty w = is_empty w.private_queue && not w.task_found_or_abort

-- A step of the worker's thread: on, or past the deadline.
unfoldable pub go_on : Place → Worker → Worker
unfolding enter acquire look relock run_task
go_on no_thread w = w
go_on at_top w = enter w
go_on marking w = record w { place = waiting }
go_on waiting w = acquire w
go_on acquired w = look w
go_on found w = relock w
go_on timed_out w = stop w
go_on draining w = run_task w.private_queue w
go_on aborted w = stop w

unfoldable pub miss_deadline : Place → Worker → Worker
miss_deadline waiting w = record w { place = timed_out }
miss_deadline other w = w

-- What a running task does: it enqueues on its own worker, or its worker gives its first tasks away.
unfoldable pub add_local : Place → List ℕ → Worker → Worker
unfolding enqueue_local
add_local draining tasks w = elim (enqueue_local tasks w) [ none ↦ w | some v ↦ v ]
add_local other tasks w = w

pub data Event : Type 0 where
  goes_on misses_deadline releases_one shuts : Event
  adds_local adds_foreign : List ℕ → Event
  donates : ℕ → Event

unfoldable pub donate_first : Place → ℕ → Worker → Worker
donate_first draining n w =
    if ltb n (length w.private_queue)
    then record w { private_queue = drop n w.private_queue }
    else w
donate_first other n w = w

unfoldable pub step : Event → Worker → Worker
unfolding go_on miss_deadline release shut add_local enqueue_foreign donate_first
step goes_on w = go_on w.place w
step misses_deadline w = miss_deadline w.place w
step releases_one w = release w
step shuts w = shut w.stage w
step (adds_local tasks) w = add_local w.place tasks w
step (adds_foreign tasks) w = elim (enqueue_foreign tasks w) [ none ↦ w | some v ↦ v ]
step (donates n) w = donate_first w.place n w

unfoldable pub run : List Event → Worker → Worker
unfolding step
run [] w = w
run (e ∷ es) w = run es (step e w)
