-- ===== src/Concurrency/Pool/Share.antt =====
-- The pool of workers, `ThreadPool`, and how it shares tasks among them. A call of a worker is
-- made whole here; how the steps of threads interleave is in Worker.
use plain.Prelude.{
  ℕ, zero, suc, ◌+◌, ◌-◌, ◌*◌, ◌/◌, ◌%◌, ◌^◌, min, Bool, true, false, Option, none, some, List, [],
  ◌∷◌, length, get_elem?, set, take, drop, replicate, ltb, ◌==◌, if◌then◌else◌,
}
use plain.Concurrency.Pool.Idle.{
  IdleWorkerSet, npos, new_set, set_idle, find_idle_worker, find_idle_workers,
}
use plain.Concurrency.Pool.Worker.{
  Worker, new_worker, enqueue_local, enqueue_foreign, release, appears_empty,
}

pub record ThreadPool : Type 0 where
  pub workers : List Worker
  pub idle_workers : IdleWorkerSet
  pub round_robin_cursor : ℕ
  pub abort : Bool

-- The first `n` numbers, the indices of a loop.
abbrev pub count_up : ℕ → ℕ → List ℕ
count_up zero i = []
count_up (suc n) i = i ∷ count_up n (suc i)

abbrev pub set_all_idle : List ℕ → IdleWorkerSet → IdleWorkerSet
set_all_idle [] s = s
set_all_idle (i ∷ is) s = set_all_idle is (set_idle s i)

unfoldable pub new_pool : ℕ → ThreadPool
new_pool size = record {
  workers = replicate size new_worker;
  idle_workers = set_all_idle (count_up size 0) (new_set size);
  round_robin_cursor = 0;
  abort = false;
}

abbrev pub with_worker : ThreadPool → ℕ → Worker → ThreadPool
with_worker p k w = record p { workers = set p.workers k w }

-- `workers_[k].enqueue_foreign`, with the semaphore's release; `none` when it throws.
unfoldable pub enqueue_at : ThreadPool → ℕ → List ℕ → Option ThreadPool
enqueue_at p k tasks = elim (get_elem? p.workers k) [
  | none ↦ none
  | some w ↦ elim (enqueue_foreign tasks w) [
    | none ↦ none
    | some v ↦ some (with_worker p k (release v))
  ]
]

abbrev pub local_at : ThreadPool → ℕ → List ℕ → Option ThreadPool
local_at p k tasks = elim (get_elem? p.workers k) [
  | none ↦ none
  | some w ↦ elim (enqueue_local tasks w) [ none ↦ none | some v ↦ some (with_worker p k v) ]
]

-- A loop that gives the workers of a list consecutive parts of `tasks`, the first `extra` of them
-- one task more. What it has given in all, and `true` when a call threw.
unfoldable pub donate : List ℕ → ℕ → ℕ → ℕ → ℕ → List ℕ → ThreadPool → ThreadPool × ℕ × Bool
donate [] donation_count extra begin end tasks p = (p, begin, false)
donate (k ∷ ks) donation_count extra begin end tasks p =
    let end' = if extra == 0 then end else end + 1 in
    elim (enqueue_at p k (take (end' - begin) (drop begin tasks))) [
      | none ↦ (p, begin, true)
      | some q ↦ donate ks donation_count (extra - 1) end' (end' + donation_count) tasks q
    ]

-- `private_queue_.erase` of the first tasks.
abbrev pub erase_first : ThreadPool → ℕ → ℕ → ThreadPool
erase_first p i n = elim (get_elem? p.workers i) [
  | none ↦ p
  | some w ↦ with_worker p i (record w { private_queue = drop n w.private_queue })
]

-- `balance_work` of worker `i` from where it has found the workers `chosen`. A call that throws
-- leaves the loop before the tasks are erased.
unfoldable pub share_among : List ℕ → ℕ → List ℕ → ThreadPool → ThreadPool × Bool
unfolding donate
share_among chosen i tasks p =
    let task_count = length tasks in
    let total_worker_count = length chosen + 1 in
    let donation_count = task_count / total_worker_count in
    let extra = task_count - donation_count * total_worker_count in
    let r = donate chosen donation_count extra 0 donation_count tasks p in
    if length chosen == 0
    then (p, false)
    else if r.2
    then (r.0, true)
    else (erase_first r.0 i r.1, false)

unfoldable pub balance_worker : ℕ → Worker → ThreadPool → ThreadPool × Bool
unfolding share_among find_idle_workers
balance_worker i w p =
    let task_count = length w.private_queue in
    let max_idle_worker_count = min (length p.workers - 1) (task_count - 1) in
    let r = find_idle_workers p.idle_workers i [] max_idle_worker_count in
    let q : ThreadPool = record p { idle_workers = r.0 } in
    if ltb task_count 2
    then (p, false)
    else if max_idle_worker_count == 0
    then (p, false)
    else share_among r.1 i w.private_queue q

unfoldable pub balance_work : ThreadPool → ℕ → ThreadPool × Bool
unfolding balance_worker
balance_work p i = elim (get_elem? p.workers i) [
  | none ↦ (p, false)
  | some w ↦ balance_worker i w p
]

-- Who calls: a thread of the pool, by its index, or another one. The private queue of a thread of
-- the pool is its own.
abbrev pub local_queue : ThreadPool → Option ℕ → Bool
local_queue p none = false
local_queue p (some i) = elim (get_elem? p.workers i) [ none ↦ false | some w ↦ appears_empty w ]

abbrev pub index_of : Option ℕ → ℕ
index_of none = npos
index_of (some i) = i

-- `enqueue` of one task from where no idle worker was found.
unfoldable pub enqueue_any : Option ℕ → ℕ → ThreadPool → Option ThreadPool
unfolding enqueue_at
enqueue_any (some i) task p = local_at p i (task ∷ [])
enqueue_any none task p =
    let next_worker = p.round_robin_cursor % length p.workers in
    enqueue_at (record p { round_robin_cursor = (p.round_robin_cursor + 1) % 2 ^ 64 }) next_worker
      (task ∷ [])

unfoldable pub enqueue : ℕ → Option ℕ → ℕ → ThreadPool → Option ThreadPool
unfolding enqueue_any
enqueue hashed_id caller task p =
    let r = find_idle_worker hashed_id p.idle_workers (index_of caller) in
    let q : ThreadPool = record p { idle_workers = r.0 } in
    if local_queue p caller
    then local_at p (elim caller [ none ↦ 0 | some i ↦ i ]) (task ∷ [])
    else if r.1 == npos
    then enqueue_any caller task q
    else enqueue_at q r.1 (task ∷ [])

-- One task after the other; a call that throws ends the loop.
unfoldable pub enqueue_each : ℕ → List ℕ → ThreadPool → ThreadPool × Bool
unfolding enqueue
enqueue_each hashed_id [] p = (p, false)
enqueue_each hashed_id (task ∷ tasks) p = elim (enqueue hashed_id none task p) [
  | none ↦ (p, true)
  | some q ↦ enqueue_each hashed_id tasks q
]

-- `enqueue` of several tasks by a thread that is not of the pool.
unfoldable pub share_span : ℕ → List ℕ → ThreadPool → ThreadPool × Bool
unfolding enqueue_each donate
share_span hashed_id tasks p =
    let task_count = length tasks in
    let total_worker_count = length p.workers in
    let donation_count = task_count / total_worker_count in
    let extra = task_count - donation_count * total_worker_count in
    let r = donate (count_up total_worker_count 0) donation_count extra 0 donation_count tasks p in
    if ltb task_count total_worker_count then enqueue_each hashed_id tasks p else (r.0, r.2)

-- `enqueue` of several tasks.
unfoldable pub enqueue_span : ℕ → Option ℕ → List ℕ → ThreadPool → ThreadPool × Bool
unfolding share_span
enqueue_span hashed_id none tasks p = share_span hashed_id tasks p
enqueue_span hashed_id (some i) tasks p = elim (local_at p i tasks) [
  | none ↦ (p, true)
  | some q ↦ (q, false)
]
