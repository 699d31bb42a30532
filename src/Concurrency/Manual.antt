-- ===== src/Concurrency/Manual.antt =====
-- The manual executor, framework/core/src/concurrency/executor/manual.cc: a queue of tasks that
-- somebody runs by calling its loop. A task is a number; what it does, and what other threads do
-- meanwhile, is an argument, as the operations they make on the executor. An operation takes effect
-- at its lock.
pub mod Order
pub mod Shutdown
mod Tests
use plain.Prelude.{
  ℕ, zero, suc, ◌+◌, Bool, true, false, not, ◌&&◌, ◌||◌, Option, none, some, List, [], ◌∷◌, ◌++◌,
  length, leb, ◌==◌, if◌then◌else◌,
}

pub record Manual : Type 0 where
  pub abort : Bool
  pub atomic_abort : Bool
  pub tasks : List ℕ

unfoldable pub new_manual : Manual
new_manual = record { abort = false; atomic_abort = false; tasks = [] }

-- `enqueue` of a span, and of one task as the span of it. `none` when it throws.
unfoldable pub enqueue : List ℕ → Manual → Option Manual
enqueue tasks m = if m.abort then none else some (record m { tasks = m.tasks ++ tasks })

unfoldable pub shutdown : Manual → Manual
shutdown m =
    if m.atomic_abort then m else record m { atomic_abort = true; abort = true; tasks = [] }

abbrev pub shutdown_requested : Manual → Bool
shutdown_requested m = m.atomic_abort

unfoldable pub size : Manual → ℕ
size m = length m.tasks

unfoldable pub empty : Manual → Bool
empty m = size m == 0

-- How many tasks `clear` drops; `none` when it throws.
unfoldable pub clear : Manual → Option (ℕ × Manual)
clear m = if m.abort then none else some (length m.tasks, record m { tasks = [] })

-- What a task and other threads call. An exception goes to the caller and leaves the executor alone.
pub data Call : Type 0 where
  enqueues : List ℕ → Call
  clears shuts : Call

unfoldable pub make : Call → Manual → Manual
make (enqueues tasks) m = elim (enqueue tasks m) [ none ↦ m | some m' ↦ m' ]
make clears m = elim (clear m) [ none ↦ m | some (n, m') ↦ m' ]
make shuts m = shutdown m

unfoldable pub make_all : List Call → Manual → Manual
make_all [] m = m
make_all (call ∷ calls) m = make_all calls (make call m)

-- The loop of `loop_impl`, with the tasks that it runs. `calls` of a round are those made from when
-- the task leaves the queue until the next round takes the lock.
unfoldable pub loop_tasks : (ℕ → List Call) → ℕ → ℕ → Manual → List ℕ × Manual
loop_tasks calls round zero m = ([], m)
loop_tasks calls round (suc count) m = elim m.abort [
  | true ↦ ([], m)
  | false ↦ elim m.tasks [
    | [] ↦ ([], m)
    | task ∷ tasks ↦
        let (ran, last) =
          loop_tasks calls (round + 1) count
            (make_all (calls round) (record m { tasks = tasks })) in
        (task ∷ ran, last)
  ]
]

-- The number of tasks that were run, `none` when it throws.
unfoldable pub loop_impl : (ℕ → List Call) → ℕ → Manual → Option ℕ × List ℕ × Manual
loop_impl calls max_count m =
    let (ran, last) = loop_tasks calls 0 max_count m in
    if max_count == 0
    then (some 0, [], m)
    else (if shutdown_requested last then none else some (length ran), ran, last)

unfoldable pub loop_once : (ℕ → List Call) → Manual → Option Bool × List ℕ × Manual
loop_once calls m =
    let (r, ran, last) = loop_impl calls 1 m in
    (elim r [ none ↦ none | some n ↦ some (not (n == 0)) ], ran, last)

-- The loop of `loop_until_impl`: whether the deadline is ahead in a round, and the calls made while
-- the round waits.
unfoldable pub until_tasks :
    (ℕ → Bool) → (ℕ → List Call) → (ℕ → List Call) → ℕ → ℕ → Manual → List ℕ × Manual
until_tasks in_time waiting calls round zero m = ([], m)
until_tasks in_time waiting calls round (suc count) m =
    let m' = make_all (waiting round) m in
    elim (in_time round) [
      | false ↦ ([], m)
      | true ↦ elim m'.abort [
        | true ↦ ([], m')
        | false ↦ elim m'.tasks [
          | [] ↦ ([], m')
          | task ∷ tasks ↦
              let (ran, last) =
                until_tasks in_time waiting calls (round + 1) count
                  (make_all (calls round) (record m' { tasks = tasks })) in
              (task ∷ ran, last)
        ]
      ]
    ]

unfoldable pub loop_until_impl :
    (ℕ → Bool) → (ℕ → List Call) → (ℕ → List Call) → ℕ → Manual → Option ℕ × List ℕ × Manual
loop_until_impl in_time waiting calls max_count m =
    let (ran, last) = until_tasks in_time waiting calls 0 max_count m in
    if max_count == 0
    then (some 0, [], m)
    else (if shutdown_requested last then none else some (length ran), ran, last)
