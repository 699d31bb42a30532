-- ===== src/Concurrency/Pool/Protocol.antt =====
-- What holds of a worker at all times, and that a task in its queue is found.
use plain.Prelude.{
  ℕ, ◌+◌, ◌≤◌, ◌≡◌, ◌≢◌, refl, inl, inr, Bool, true, false, ◌&&◌, none, some, List, [], ◌∷◌, ◌++◌,
  leb, Bool-cases, arith,
}
use plain.Concurrency.Pool.Worker.{
  Place, no_thread, at_top, marking, waiting, acquired, found, timed_out, draining, aborted, Stage,
  untouched, flagged, locked, announced, released, joined, cleared, Worker, new_worker, is_empty,
  is_gone, enqueue_foreign, Event, goes_on, misses_deadline, releases_one, shuts, adds_local,
  adds_foreign, donates, enter, acquire, look, relock, run_task, enqueue_local,
  ensure_worker_active, take_tasks, step, run, go_on, miss_deadline, release, shut, add_local,
  donate_first,
}
use mathlib.Core.Bool.{false≢true}

-- The thread will wait at the semaphore, waits there, or has just given up.
abbrev pub awaits : Place → Bool
awaits marking = true
awaits waiting = true
awaits timed_out = true
awaits no_thread = false
awaits at_top = false
awaits acquired = false
awaits found = false
awaits draining = false
awaits aborted = false

-- The thread owns tasks.
abbrev pub owns : Place → Bool
owns draining = true
owns marking = false
owns waiting = false
owns timed_out = false
owns no_thread = false
owns at_top = false
owns acquired = false
owns found = false
owns aborted = false

-- Before a shutdown: tasks are announced, and a thread that waits has a release to come.
pub record IsCalm (w : Worker) : Type 0 where
  pub calm_abort : w.abort ≡ false
  pub calm_place : w.place ≢ aborted
  pub calm_stage : w.stage ≡ untouched
  pub private_only : owns w.place ≡ false → is_empty w.private_queue ≡ true
  pub announces : is_empty w.public_queue ≡ false → w.task_found_or_abort ≡ true
  pub wakes : awaits w.place ≡ true → is_empty w.public_queue ≡ false → 1 ≤ w.semaphore + w.releases

-- How far a shutdown is, as a number.
abbrev pub rank : Stage → ℕ
rank untouched = 0
rank flagged = 1
rank locked = 2
rank announced = 3
rank released = 4
rank joined = 5
rank cleared = 6

pub record IsWorker (w : Worker) : Type 0 where
  pub idle_place : w.idle ≡ is_gone w.place
  pub atomic_stage : w.atomic_abort ≡ leb 1 (rank w.stage)
  pub abort_stage : w.abort ≡ leb 2 (rank w.stage)
  pub told : 3 ≤ rank w.stage → is_gone w.place ≡ false → w.task_found_or_abort ≡ true
  pub freed : 4 ≤ rank w.stage → awaits w.place ≡ true → 1 ≤ w.semaphore
  pub left : 5 ≤ rank w.stage → w.place ≡ no_thread
  pub emptied : 6 ≤ rank w.stage → (w.private_queue ≡ []) × (w.public_queue ≡ [])
  pub calm : w.atomic_abort ≡ false → IsCalm w

new_worker-IsWorker : IsWorker new_worker
unfolding new_worker
new_worker-IsWorker = ground arith

enter-IsWorker : (w : Worker) → w.place ≡ at_top → IsWorker w → IsWorker (enter w)
unfolding enter take_tasks
enter-IsWorker w q v = ground (arith, q, v)

acquire-IsWorker : (w : Worker) → w.place ≡ waiting → IsWorker w → IsWorker (acquire w)
unfolding acquire
acquire-IsWorker w q v = ground (arith, q, v)

look-IsWorker : (w : Worker) → w.place ≡ acquired → IsWorker w → IsWorker (look w)
unfolding look
look-IsWorker w q v = ground (arith, q, v)

relock-IsWorker : (w : Worker) → w.place ≡ found → IsWorker w → IsWorker (relock w)
unfolding relock take_tasks
relock-IsWorker w q v = ground (arith, q, v)

run_task-IsWorker :
    (xs : List ℕ) (w : Worker)
    → w.private_queue ≡ xs
    → w.place ≡ draining
    → IsWorker w
    → IsWorker (run_task xs w)
unfolding run_task
run_task-IsWorker [] w e q v = ground (arith, e, q, v)
run_task-IsWorker (x ∷ xs) w e q v = ground (arith, e, q, v)

miss_deadline-IsWorker :
    (p : Place) (w : Worker) → w.place ≡ p → IsWorker w → IsWorker (miss_deadline p w)
unfolding miss_deadline
miss_deadline-IsWorker waiting w q v = ground (arith, q, v)
miss_deadline-IsWorker _ w q v = v

release-IsWorker : (w : Worker) → IsWorker w → IsWorker (release w)
unfolding release
release-IsWorker w v = ground (arith, v)

pub is_gone-eq : (p : Place) → is_gone p ≡ true → p ≡ no_thread
is_gone-eq no_thread h = refl
is_gone-eq _ h = absurd (false≢true h)

shut-IsWorker : (g : Stage) (w : Worker) → w.stage ≡ g → IsWorker w → IsWorker (shut g w)
unfolding shut
shut-IsWorker untouched w q v = ground (arith, q, v)
shut-IsWorker flagged w q v = ground (arith, q, v)
shut-IsWorker locked w q v = ground (arith, q, v)
shut-IsWorker announced w q v = ground (arith, q, v)
shut-IsWorker released w q v = elim (Bool-cases (is_gone w.place)) [
  | inl gone ↦ let e = is_gone-eq w.place gone in ground (arith, q, v, e)
  | inr stays ↦ rw stays v
]
shut-IsWorker joined w q v = ground (arith, q, v)
shut-IsWorker cleared w q v = v

add_local-IsWorker :
    (p : Place) (tasks : List ℕ) (w : Worker)
    → w.place ≡ p
    → IsWorker w
    → IsWorker (add_local p tasks w)
unfolding add_local enqueue_local
add_local-IsWorker draining tasks w q v = ground (arith, q, v)
add_local-IsWorker _ tasks w q v = v

is_empty-append : (xs ys : List ℕ) → is_empty (xs ++ ys) ≡ (is_empty xs && is_empty ys)
is_empty-append [] ys = refl
is_empty-append (x ∷ xs) ys = refl

enqueue_foreign-IsWorker :
    (tasks : List ℕ) (w : Worker)
    → IsWorker w
    → IsWorker (elim (enqueue_foreign tasks w) [ none ↦ w | some v ↦ v ])
unfolding enqueue_foreign ensure_worker_active
enqueue_foreign-IsWorker tasks w v = ground (arith, v, is_empty-append w.public_queue tasks)

donate_first-IsWorker :
    (p : Place) (n : ℕ) (w : Worker) → w.place ≡ p → IsWorker w → IsWorker (donate_first p n w)
unfolding donate_first
donate_first-IsWorker draining n w q v = ground (arith, q, v)
donate_first-IsWorker _ n w q v = v

go_on-IsWorker : (p : Place) (w : Worker) → w.place ≡ p → IsWorker w → IsWorker (go_on p w)
unfolding go_on
go_on-IsWorker no_thread w q v = v
go_on-IsWorker at_top w q v = enter-IsWorker w q v
go_on-IsWorker marking w q v = ground (arith, q, v)
go_on-IsWorker waiting w q v = acquire-IsWorker w q v
go_on-IsWorker acquired w q v = look-IsWorker w q v
go_on-IsWorker found w q v = relock-IsWorker w q v
go_on-IsWorker timed_out w q v = ground (arith, q, v)
go_on-IsWorker draining w q v = run_task-IsWorker w.private_queue w refl q v
go_on-IsWorker aborted w q v = ground (arith, q, v)

pub step-IsWorker : (e : Event) (w : Worker) → IsWorker w → IsWorker (step e w)
unfolding step
step-IsWorker goes_on w v = go_on-IsWorker w.place w refl v
step-IsWorker misses_deadline w v = miss_deadline-IsWorker w.place w refl v
step-IsWorker releases_one w v = release-IsWorker w v
step-IsWorker shuts w v = shut-IsWorker w.stage w refl v
step-IsWorker (adds_local tasks) w v = add_local-IsWorker w.place tasks w refl v
step-IsWorker (adds_foreign tasks) w v = enqueue_foreign-IsWorker tasks w v
step-IsWorker (donates n) w v = donate_first-IsWorker w.place n w refl v

pub run-IsWorker : (es : List Event) (w : Worker) → IsWorker w → IsWorker (run es w)
unfolding run
run-IsWorker [] w v = v
run-IsWorker (e ∷ es) w v = run-IsWorker es (step e w) (step-IsWorker e w v)

pub reached-IsWorker : (es : List Event) → IsWorker (run es new_worker)
reached-IsWorker es = run-IsWorker es new_worker new_worker-IsWorker
