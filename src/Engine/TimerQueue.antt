-- ===== src/Engine/TimerQueue.antt =====
-- The timers of framework/core/src/engine/timer_queue.cc and timer.cc: the queue of timers by
-- deadline and the worker that processes it. A time is in the nanoseconds of the clock, as a number
-- that does not overflow. A timer is known by a number, its address.
pub mod Order
pub mod Firing
mod Tests
use plain.Prelude.{
  ℕ, zero, suc, ◌+◌, ◌*◌, Bool, true, false, not, ◌&&◌, ◌||◌, Option, none, some, List, [], ◌∷◌,
  ◌++◌, length, leb, ltb, ◌==◌, if◌then◌else◌,
}
use plain.Prelude.Sets.{has, emplace_id, erase_id}

-- `TimerStateBasic`, what only the worker writes of it, and what is fixed.
pub record Timer : Type 0 where
  pub id : ℕ
  pub deadline : ℕ
  pub oneshot : Bool

-- What the worker reads in a round of its loop and others write: the clock, whether a timer is
-- cancelled, its frequency in milliseconds, and whether its executor is shutting down.
pub record World : Type 0 where
  pub clock : ℕ → ℕ
  pub cancelled : ℕ → ℕ → Bool
  pub frequency : ℕ → ℕ → ℕ
  pub executor_off : ℕ → ℕ → Bool

abbrev pub milliseconds : ℕ → ℕ
milliseconds n = 1000000 * n

unfoldable pub hours : ℕ → ℕ
hours n = milliseconds (3600000 * n)

-- The multiset by deadline, and the ids in the map of its iterators.
pub record TimerSet : Type 0 where
  pub timers : List Timer
  pub mapper : List ℕ

abbrev pub no_timers : TimerSet
no_timers = record { timers = []; mapper = [] }

-- `insert` of a multiset: behind those that are equal.
unfoldable pub insert_timer : Timer → List Timer → List Timer
insert_timer t [] = t ∷ []
insert_timer t (u ∷ timers) =
    let later = insert_timer t timers in
    if ltb t.deadline u.deadline then t ∷ (u ∷ timers) else u ∷ later

unfoldable pub erase_timer : ℕ → List Timer → List Timer
erase_timer id [] = []
erase_timer id (t ∷ timers) =
    let later = erase_timer id timers in if id == t.id then timers else t ∷ later

pub data TimerRequest : Type 0 where
  add : Timer → TimerRequest
  remove : ℕ → TimerRequest

unfoldable pub add_timer_internal : Timer → TimerSet → TimerSet
add_timer_internal t s = record {
  timers = insert_timer t s.timers;
  mapper = emplace_id t.id s.mapper;
}

unfoldable pub remove_timer_internal : ℕ → TimerSet → TimerSet
remove_timer_internal id s =
    if has id s.mapper
    then record { timers = erase_timer id s.timers; mapper = erase_id id s.mapper }
    else s

unfoldable pub process_request_queue : List TimerRequest → TimerSet → TimerSet
process_request_queue [] s = s
process_request_queue (add t ∷ requests) s = process_request_queue requests (add_timer_internal t s)
process_request_queue (remove id ∷ requests) s =
    process_request_queue requests (remove_timer_internal id s)

unfoldable pub expired : ℕ → Timer → Bool
expired now t = leb t.deadline now

-- `fire` in a round: the timer with its new deadline, and whether its task is posted.
unfoldable pub fire : World → ℕ → Timer → Bool × Timer
fire w round t = (
  not (w.executor_off round t.id),
  record t { deadline = w.clock round + milliseconds (w.frequency round t.id) },
)

-- A round for a timer that has expired, with the others: whether its task is posted, and what
-- the set is then.
unfoldable pub timer_round : World → ℕ → Timer → List Timer → List ℕ → Bool × TimerSet
timer_round w round t timers mapper =
    let cancelled = w.cancelled round t.id in
    let (posted, t') = if cancelled then (false, t) else fire w round t in
    (
      posted,
      if t.oneshot || cancelled
          then record { timers = timers; mapper = erase_id t.id mapper }
          else record { timers = insert_timer t' timers; mapper = emplace_id t.id mapper },
    )

-- The loop of `process_timers`, with the ids of the tasks posted; `none` if it takes more rounds.
unfoldable pub timer_loop : ℕ → World → ℕ → ℕ → TimerSet → Option (List ℕ × TimerSet)
timer_loop zero w now round s = none
timer_loop (suc rounds) w now round s = elim s.timers [
  | [] ↦ some ([], s)
  | t ∷ timers ↦ elim (expired now t) [
    | false ↦ some ([], s)
    | true ↦
        let (posted, s') = timer_round w round t timers s.mapper in
        elim (timer_loop rounds w now (round + 1) s') [
          | none ↦ none
          | some (ids, last) ↦ some (if posted then t.id ∷ ids else ids, last)
        ]
  ]
]

-- The time until which `process_timers` lets the worker wait.
unfoldable pub next_deadline : ℕ → TimerSet → ℕ
next_deadline now s = elim s.timers [ [] ↦ now + hours 24 | t ∷ timers ↦ t.deadline ]

unfoldable pub process_timers :
    ℕ → World → ℕ → List TimerRequest → TimerSet → Option (ℕ × List ℕ × TimerSet)
process_timers rounds w now requests s =
    elim (timer_loop rounds w now 0 (process_request_queue requests s)) [
      | none ↦ none
      | some (ids, last) ↦ some (next_deadline now last, ids, last)
    ]
