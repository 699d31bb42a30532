-- ===== src/Concurrency/Pool/Ledger.antt =====
-- No task of a worker is lost or run twice.
use plain.Prelude.{
  ℕ, suc, ◌+◌, ◌≡◌, ◌∙◌, refl, ap, List, [], ◌∷◌, ◌++◌, length, take, drop, take-append-drop, ltb,
  ◌==◌, if◌then◌else◌, arith,
}
use plain.Concurrency.Pool.Worker.{
  Place, at_top, waiting, found, draining, Stage, released, joined, Worker, new_worker, last_task,
  but_last, enqueue_local, enqueue_foreign, ensure_worker_active, Event, goes_on, misses_deadline,
  releases_one, shuts, adds_local, adds_foreign, donates, enter, acquire, look, relock, run_task,
  take_tasks, step, run, go_on, miss_deadline, release, shut, add_local, donate_first,
}

abbrev pub count : ℕ → List ℕ → ℕ
count t [] = 0
count t (x ∷ xs) = let rest = count t xs in if t == x then suc rest else rest

-- How often a task is there: run, or in one of the queues.
abbrev pub tally : ℕ → Worker → ℕ
tally t w = count t w.finished + count t w.private_queue + count t w.public_queue

abbrev pub local_comes : ℕ → Place → List ℕ → Worker → ℕ
local_comes t draining tasks w = if w.atomic_abort then 0 else count t tasks
local_comes t place tasks w = 0

-- How often a task is taken on by an event.
abbrev pub comes : ℕ → Event → Worker → ℕ
comes t (adds_foreign tasks) w = if w.abort then 0 else count t tasks
comes t (adds_local tasks) w = local_comes t w.place tasks w
comes t (donates n) w = 0
comes t goes_on w = 0
comes t misses_deadline w = 0
comes t releases_one w = 0
comes t shuts w = 0

abbrev pub given : ℕ → Place → ℕ → Worker → ℕ
given t draining n w =
    if ltb n (length w.private_queue) then count t (take n w.private_queue) else 0
given t place n w = 0

abbrev pub dropped : ℕ → Stage → Worker → ℕ
dropped t joined w = count t w.private_queue + count t w.public_queue
dropped t stage w = 0

-- How often a task leaves with an event: to another worker, or dropped at the end of a shutdown.
abbrev pub goes : ℕ → Event → Worker → ℕ
goes t (donates n) w = given t w.place n w
goes t shuts w = dropped t w.stage w
goes t (adds_foreign tasks) w = 0
goes t (adds_local tasks) w = 0
goes t goes_on w = 0
goes t misses_deadline w = 0
goes t releases_one w = 0

-- The sums of both over a run.
unfoldable pub all_come : ℕ → List Event → Worker → ℕ
all_come t [] w = 0
all_come t (e ∷ es) w = comes t e w + all_come t es (step e w)

unfoldable pub all_go : ℕ → List Event → Worker → ℕ
all_go t [] w = 0
all_go t (e ∷ es) w = goes t e w + all_go t es (step e w)

count-append : (t : ℕ) (xs ys : List ℕ) → count t (xs ++ ys) ≡ count t xs + count t ys
count-append t [] ys = omega arith
count-append t (x ∷ xs) ys = ground (arith, count-append t xs ys)

count-but_last :
    (t x : ℕ) (xs : List ℕ)
    → count t (last_task x xs ∷ []) + count t (but_last x xs) ≡ count t (x ∷ xs)
count-but_last t x [] = ground arith
count-but_last t x (y ∷ ys) = ground (arith, count-but_last t y ys)

module _ (t : ℕ) where
  run_task-tally :
      (xs : List ℕ) (w : Worker) → w.private_queue ≡ xs → tally t (run_task xs w) ≡ tally t w
  unfolding run_task
  run_task-tally [] w e = refl
  run_task-tally (x ∷ xs) w e = ground (arith, e, count-but_last t x xs)

  go_on-tally : (p : Place) (w : Worker) → w.place ≡ p → tally t (go_on p w) ≡ tally t w
  unfolding go_on enter acquire look relock take_tasks
  go_on-tally at_top w q = ground arith
  go_on-tally waiting w q = ground arith
  go_on-tally found w q = ground arith
  go_on-tally draining w q = run_task-tally w.private_queue w refl
  go_on-tally _ w q = refl

  miss_deadline-tally : (p : Place) (w : Worker) → tally t (miss_deadline p w) ≡ tally t w
  unfolding miss_deadline
  miss_deadline-tally waiting w = refl
  miss_deadline-tally _ w = refl

  release-tally : (w : Worker) → tally t (release w) ≡ tally t w
  unfolding release
  release-tally w = ground arith

  shut-tally : (g : Stage) (w : Worker) → tally t (shut g w) + dropped t g w ≡ tally t w
  unfolding shut
  shut-tally joined w = omega arith
  shut-tally released w = ground arith
  shut-tally _ w = omega arith

  add_local-tally :
      (p : Place) (tasks : List ℕ) (w : Worker)
      → tally t (add_local p tasks w) ≡ tally t w + local_comes t p tasks w
  unfolding add_local enqueue_local
  add_local-tally draining tasks w = ground (arith, count-append t w.private_queue tasks)
  add_local-tally _ tasks w = omega arith

  enqueue_foreign-tally :
      (tasks : List ℕ) (w : Worker)
      → tally t (step (adds_foreign tasks) w) ≡ tally t w + comes t (adds_foreign tasks) w
  unfolding step enqueue_foreign ensure_worker_active
  enqueue_foreign-tally tasks w = ground (arith, count-append t w.public_queue tasks)

  donate_first-tally :
      (p : Place) (n : ℕ) (w : Worker) → tally t (donate_first p n w) + given t p n w ≡ tally t w
  unfolding donate_first
  donate_first-tally draining n w =
      let parts = count-append t (take n w.private_queue) (drop n w.private_queue) in
      let whole = ap (count t) (take-append-drop n w.private_queue) in ground (arith, parts, whole)
  donate_first-tally _ n w = omega arith

  step-tally : (e : Event) (w : Worker) → tally t (step e w) + goes t e w ≡ tally t w + comes t e w
  unfolding step
  step-tally goes_on w = omega (arith, go_on-tally w.place w refl)
  step-tally misses_deadline w = omega (arith, miss_deadline-tally w.place w)
  step-tally releases_one w = omega (arith, release-tally w)
  step-tally shuts w = omega (arith, shut-tally w.stage w)
  step-tally (adds_local tasks) w = omega (arith, add_local-tally w.place tasks w)
  step-tally (adds_foreign tasks) w = omega (arith, enqueue_foreign-tally tasks w)
  step-tally (donates n) w = omega (arith, donate_first-tally w.place n w)

  run-tally :
      (es : List Event) (w : Worker)
      → tally t (run es w) + all_go t es w ≡ tally t w + all_come t es w
  unfolding run all_come all_go
  run-tally [] w = refl
  run-tally (e ∷ es) w = omega (arith, step-tally e w, run-tally es (step e w))

-- In every order of steps of a worker, each task is there as often as it was taken on less the times
-- that it was given to another worker or dropped by a shutdown: it was run, or it stands in a queue.
-- What is refused when the worker is shut down is not taken on.
pub every_task_is_kept :
    (t : ℕ) (es : List Event)
    → tally t (run es new_worker) + all_go t es new_worker ≡ all_come t es new_worker
unfolding new_worker
every_task_is_kept t es = run-tally t es new_worker ∙ omega arith
