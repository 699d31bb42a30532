-- ===== src/Concurrency/Pool/Late.antt =====
-- A thread that has just given up, and what a busy one does to its semaphore.
use plain.Prelude.{
  ℕ, zero, suc, ◌+◌, ◌≡◌, ◌∙◌, refl, ap, true, false, List, [], ◌∷◌, ◌++◌, All, arith,
}
use plain.Concurrency.Pool.Worker.{
  no_thread, timed_out, draining, untouched, Worker, new_worker, enqueue_foreign, Event, goes_on,
  misses_deadline, releases_one, shuts, adds_local, adds_foreign, donates, enter, run_task,
  ensure_worker_active, take_tasks, step, run, go_on, release,
}
use plain.Concurrency.Pool.Protocol.{IsWorker, reached-IsWorker}
use mathlib.Core.Bool.{false≢true}
use plain.Concurrency.Pool.Wake.{is_own}

release_keeps :
    (w : Worker)
    → ((release w).place ≡ w.place)
      × ((release w).public_queue ≡ w.public_queue)
      × ((release w).finished ≡ w.finished)
unfolding release
release_keeps w = ground arith

stays_gone :
    (more : List Event) (w : Worker)
    → All (λ e. is_own e ≡ true) more
    → w.place ≡ no_thread
    → ((run more w).public_queue ≡ w.public_queue) × ((run more w).finished ≡ w.finished)
unfolding run step go_on release
stays_gone [] w own q = (refl, refl)
stays_gone (goes_on ∷ more) w own q =
    let e : step goes_on w ≡ w = ap (λ p. go_on p w) q in
    let (p, f) = stays_gone more w own.1 q in
    (ap (λ t. (run more t).public_queue) e ∙ p, ap (λ t. (run more t).finished) e ∙ f)
stays_gone (releases_one ∷ more) w own q =
    let kept = release_keeps w in
    let (p, f) = stays_gone more (release w) own.1 (kept.0 ∙ q) in (p ∙ kept.1, f ∙ kept.2)
stays_gone (misses_deadline ∷ more) w own q = absurd (false≢true own.0)
stays_gone (shuts ∷ more) w own q = absurd (false≢true own.0)
stays_gone (adds_local tasks ∷ more) w own q = absurd (false≢true own.0)
stays_gone (adds_foreign tasks ∷ more) w own q = absurd (false≢true own.0)
stays_gone (donates n ∷ more) w own q = absurd (false≢true own.0)

left_behind :
    (w : Worker) (tasks : List ℕ)
    → w.place ≡ timed_out
    → IsWorker w
    → w.atomic_abort ≡ false
    → ((run (adds_foreign tasks ∷ goes_on ∷ []) w).place ≡ no_thread)
      × ((run (adds_foreign tasks ∷ goes_on ∷ []) w).public_queue ≡ w.public_queue ++ tasks)
      × ((run (adds_foreign tasks ∷ goes_on ∷ []) w).finished ≡ w.finished)
unfolding run step go_on enqueue_foreign ensure_worker_active
left_behind w tasks q v atomic = ground (arith, q, v, atomic)

-- Tasks that are enqueued on a worker whose thread is past its deadline and not yet under the lock
-- are left alone: the thread leaves, and no step of the worker's own runs them.
pub late_tasks_are_stranded :
    (es : List Event) (tasks : List ℕ) (more : List Event)
    → (run es new_worker).place ≡ timed_out
    → (run es new_worker).atomic_abort ≡ false
    → All (λ e. is_own e ≡ true) more
    → ((run more (run (adds_foreign tasks ∷ goes_on ∷ []) (run es new_worker))).public_queue
        ≡ (run es new_worker).public_queue ++ tasks)
      × ((run more (run (adds_foreign tasks ∷ goes_on ∷ []) (run es new_worker))).finished
          ≡ (run es new_worker).finished)
late_tasks_are_stranded es tasks more q atomic own =
    let w = run es new_worker in
    let left = left_behind w tasks q (reached-IsWorker es) atomic in
    let (p, f) = stays_gone more (run (adds_foreign tasks ∷ goes_on ∷ []) w) own left.0 in
    (p ∙ left.1, f ∙ left.2)

-- A thread in the middle of a task, with `n` permits that nobody waits for.
abbrev busy : ℕ → List ℕ → Worker
busy n done = record {
  private_queue = 0 ∷ [];
  public_queue = [];
  atomic_abort = false;
  abort = false;
  idle = false;
  task_found_or_abort = false;
  semaphore = n;
  place = draining;
  releases = 0;
  stage = untouched;
  finished = done;
}

-- A task comes and is announced; the thread ends its own and takes it at the lock.
abbrev round : List Event
round = adds_foreign (0 ∷ []) ∷ releases_one ∷ goes_on ∷ goes_on ∷ goes_on ∷ []

abbrev rounds : ℕ → List Event
rounds zero = []
rounds (suc n) = round ++ rounds n

run-append : (es fs : List Event) (w : Worker) → run (es ++ fs) w ≡ run fs (run es w)
unfolding run
run-append [] fs w = refl
run-append (e ∷ es) fs w = run-append es fs (step e w)

round_busy : (n : ℕ) (done : List ℕ) → run round (busy n done) ≡ busy (n + 1) (0 ∷ done)
unfolding run step go_on enqueue_foreign ensure_worker_active release enter run_task take_tasks
round_busy n done = ground arith

start_busy : run (adds_foreign (0 ∷ []) ∷ goes_on ∷ []) new_worker ≡ busy 0 []
unfolding run step go_on enqueue_foreign ensure_worker_active enter take_tasks new_worker
start_busy = refl

rounds_busy : (k n : ℕ) (done : List ℕ) → (run (rounds k) (busy n done)).semaphore ≡ n + k
unfolding run
rounds_busy zero n done = omega arith
rounds_busy (suc k) n done =
    ap (λ t. t.semaphore)
      (run-append round (rounds k) (busy n done) ∙ ap (run (rounds k)) (round_busy n done))
    ∙ rounds_busy k (n + 1) (0 ∷ done)
    ∙ omega arith

-- A task for a worker that is busy leaves a permit that is never waited for: the semaphore, which is
-- declared binary, can come to any count.
pub semaphore_is_not_binary : (n : ℕ) → (es : List Event) × ((run es new_worker).semaphore ≡ n)
unfolding run
semaphore_is_not_binary n = (
  adds_foreign (0 ∷ []) ∷ goes_on ∷ rounds n,
  ap (λ t. (run (rounds n) t).semaphore) start_busy ∙ rounds_busy n 0 [] ∙ omega arith,
)
