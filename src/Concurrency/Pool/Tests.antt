-- ===== src/Concurrency/Pool/Tests.antt =====
-- A pool of two or three workers, and one worker on its own.
use plain.Prelude.{
  ◌+◌, ℕ, zero, suc, ◌≤◌, ◌<◌, ◌≡◌, ◌≢◌, refl, sym, ap, ◌∙◌, ◌⊎◌, inl, true, false, none, some,
  List, [], ◌∷◌, ◌++◌, length, min, arith,
}
use plain.Prelude.Sets.{has, IsDistinct}
use plain.Concurrency.Pool.Idle.{
  active, idle, IdleWorkerSet, npos, flag_of, find_idle_worker, find_idle_workers,
}
use plain.Concurrency.Pool.Counted.{IsCounted}
use plain.Concurrency.Pool.Found.{Took, find_idle_worker_finds}
use plain.Concurrency.Pool.FoundAll.{Takes, find_idle_workers-Takes}
use plain.Concurrency.Pool.Worker.{
  no_thread, at_top, timed_out, draining, untouched, Worker, new_worker, is_empty, is_gone, Event,
  goes_on, misses_deadline, shuts, adds_foreign, take_tasks, step, run, go_on, miss_deadline, shut,
  enqueue_foreign, ensure_worker_active, enter, run_task,
}
use plain.Concurrency.Pool.Protocol.{awaits, rank}
use plain.Concurrency.Pool.Wake.{Taken, no_wakeup_is_lost}
use plain.Concurrency.Pool.Late.{late_tasks_are_stranded, semaphore_is_not_binary}
use plain.Concurrency.Pool.Leave.{turns, shutdown_is_joined, shut_worker_rests}
use plain.Concurrency.Pool.Share.{ThreadPool, count_up, balance_work, enqueue, enqueue_span}
use plain.Concurrency.Pool.Handed.{private_of, aborted_of, gained_all, IsHanded}
use plain.Concurrency.Pool.Donated.{AreFair}
use plain.Concurrency.Pool.Balance.{IsBalancing, wanted, balance_work_is_fair}
use plain.Concurrency.Pool.Enqueue.{enqueued_span_is_shared, task_reaches_worker}
use plain.Concurrency.Pool.Ledger.{tally, all_go, all_come, every_task_is_kept}
use mathlib.Core.Bool.{false≢true}

abbrev some_idle : IdleWorkerSet
some_idle = record { approx_size = 2; idle_flags = active ∷ idle ∷ idle ∷ []; size = 3 }

some_idle-IsCounted : IsCounted some_idle
some_idle-IsCounted = record { counted = refl; sized = refl; small = omega arith }

find_idle_worker_finds_example :
    Took some_idle 0 (find_idle_worker 7 some_idle 0)
    × ((find_idle_worker 7 some_idle 0).1 ≡ npos
        → (k : ℕ) → k < 3
        → k ≢ 0
        → flag_of some_idle k ≡ active)
find_idle_worker_finds_example =
    find_idle_worker_finds 7 some_idle 0 some_idle-IsCounted (omega arith) (inl (omega arith))

find_idle_workers-Takes_example :
    (found : List ℕ) × ((find_idle_workers some_idle 0 [] 5).1 ≡ [] ++ found)
    × Takes some_idle 0 5 ((find_idle_workers some_idle 0 [] 5).0, found)
find_idle_workers-Takes_example =
    find_idle_workers-Takes some_idle 0 [] 5 some_idle-IsCounted (omega arith)

abbrev busy_worker : Worker
busy_worker = record {
  private_queue = 1 ∷ 2 ∷ 3 ∷ 4 ∷ 5 ∷ [];
  public_queue = [];
  atomic_abort = false;
  abort = false;
  idle = false;
  task_found_or_abort = false;
  semaphore = 0;
  place = draining;
  releases = 0;
  stage = untouched;
  finished = [];
}

abbrev resting : Worker
resting = record busy_worker { private_queue = []; idle = true; place = no_thread }

abbrev three : ThreadPool
three = record {
  workers = busy_worker ∷ resting ∷ resting ∷ [];
  idle_workers = some_idle;
  round_robin_cursor = 0;
  abort = false;
}

three_live : (j : ℕ) → aborted_of three j ≡ false
three_live zero = refl
three_live (suc zero) = refl
three_live (suc (suc zero)) = refl
three_live (suc (suc (suc j))) = refl

balance_work_is_fair_example :
    (chosen : List ℕ) × (q : ThreadPool) × (balance_work three 0 ≡ (q, false))
    × IsDistinct chosen
    × ((k : ℕ) → has k chosen ≡ true → (k ≢ 0) × (flag_of some_idle k ≡ idle))
    × IsBalancing three 0 chosen q
    × ((length chosen ≡ min 2 (wanted three 0))
        ⊎ ((k : ℕ) → k < 3 → k ≢ 0 → has k chosen ≡ false → flag_of some_idle k ≡ active))
balance_work_is_fair_example =
    balance_work_is_fair three 0 some_idle-IsCounted refl (omega arith) three_live

enqueued_span_is_shared_example :
    (q : ThreadPool) × (enqueue_span 7 none (6 ∷ 7 ∷ 8 ∷ 9 ∷ []) three ≡ (q, false))
    × (gained_all three q (count_up 3 0) ≡ 6 ∷ 7 ∷ 8 ∷ 9 ∷ [])
    × AreFair three q 1 (count_up 3 0)
    × ((j : ℕ) → private_of q j ≡ private_of three j)
enqueued_span_is_shared_example =
    enqueued_span_is_shared 7 (6 ∷ 7 ∷ 8 ∷ 9 ∷ []) three (omega arith) (omega arith) three_live

task_reaches_worker_example :
    (k : ℕ) × (q : ThreadPool) × (enqueue 7 none 6 three ≡ some q)
    × (k < 3)
    × IsHanded three k (6 ∷ []) q
    × ((flag_of some_idle k ≡ idle) ⊎ ((j : ℕ) → j < 3 → flag_of some_idle j ≡ active))
task_reaches_worker_example =
    task_reaches_worker 7 6 three some_idle-IsCounted refl (omega arith) three_live

-- Two tasks come, and the worker's thread starts.
abbrev started : Worker
started = record resting {
  public_queue = 4 ∷ 5 ∷ [];
  idle = false;
  task_found_or_abort = true;
  place = at_top;
}

abbrev two_tasks : List Event
two_tasks = adds_foreign (4 ∷ 5 ∷ []) ∷ []

two_tasks-started : run two_tasks new_worker ≡ started
unfolding run step enqueue_foreign ensure_worker_active new_worker
two_tasks-started = refl

no_wakeup_is_lost_example :
    Taken
      (run two_tasks new_worker).public_queue
      ((run two_tasks new_worker).private_queue ++ (run two_tasks new_worker).finished)
      (run two_tasks new_worker)
no_wakeup_is_lost_example =
    no_wakeup_is_lost two_tasks
      (λ e. false≢true (ap is_gone (sym (ap (λ t. t.place) two_tasks-started) ∙ e)))
      (λ e. false≢true (ap awaits (sym (ap (λ t. t.place) two_tasks-started) ∙ e)))
      (ap (λ t. t.atomic_abort) two_tasks-started)
      (ap (λ t. is_empty t.public_queue) two_tasks-started)

-- The thread runs a task, waits and is past its deadline.
abbrev late : List Event
late =
    adds_foreign (1 ∷ []) ∷ goes_on ∷ goes_on ∷ goes_on ∷ goes_on ∷ goes_on ∷ misses_deadline ∷ []

late_place :
    ((run late new_worker).place ≡ timed_out) × ((run late new_worker).atomic_abort ≡ false)
unfolding run step enqueue_foreign ensure_worker_active new_worker go_on enter take_tasks run_task
    miss_deadline
late_place = (refl, refl)

late_tasks_are_stranded_example :
    ((run
        (goes_on ∷ [])
        (run (adds_foreign (2 ∷ []) ∷ goes_on ∷ []) (run late new_worker))).public_queue
      ≡ (run late new_worker).public_queue ++ 2 ∷ [])
    × ((run
          (goes_on ∷ [])
          (run (adds_foreign (2 ∷ []) ∷ goes_on ∷ []) (run late new_worker))).finished
        ≡ (run late new_worker).finished)
late_tasks_are_stranded_example =
    late_tasks_are_stranded late (2 ∷ []) (goes_on ∷ []) late_place.0 late_place.1 (refl, tt)

semaphore_is_not_binary_example : (es : List Event) × ((run es new_worker).semaphore ≡ 2)
semaphore_is_not_binary_example = semaphore_is_not_binary 2

-- A worker with a task is shut down up to the join.
abbrev shutting : List Event
shutting = adds_foreign (1 ∷ []) ∷ goes_on ∷ shuts ∷ shuts ∷ shuts ∷ shuts ∷ []

shutting-rank : 4 ≤ rank (run shutting new_worker).stage
unfolding run step enqueue_foreign ensure_worker_active new_worker go_on enter take_tasks shut
shutting-rank = omega arith

shutdown_is_joined_example : (n : ℕ) × ((turns n (run shutting new_worker)).place ≡ no_thread)
shutdown_is_joined_example = shutdown_is_joined shutting shutting-rank

abbrev shut_down : List Event
shut_down = shuts ∷ shuts ∷ shuts ∷ shuts ∷ shuts ∷ shuts ∷ []

shut_down-rank : 6 ≤ rank (run shut_down new_worker).stage
unfolding run step new_worker shut
shut_down-rank = omega arith

shut_worker_rests_example :
    ((run two_tasks (run shut_down new_worker)).finished ≡ (run shut_down new_worker).finished)
    × ((run two_tasks (run shut_down new_worker)).private_queue ≡ [])
    × ((run two_tasks (run shut_down new_worker)).public_queue ≡ [])
shut_worker_rests_example = shut_worker_rests shut_down two_tasks shut_down-rank

every_task_is_kept_example :
    tally 1 (run late new_worker) + all_go 1 late new_worker ≡ all_come 1 late new_worker
every_task_is_kept_example = every_task_is_kept 1 late
