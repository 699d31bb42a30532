-- ===== src/Engine/TimerQueue/Tests.antt =====
-- Timers on small sets.
use plain.Prelude.{ℕ, ◌+◌, ◌*◌, ◌≤◌, ◌<◌, ◌≡◌, refl, false, some, List, [], ◌∷◌, All, ◌==◌, arith}
use plain.Engine.TimerQueue.{
  Timer, World, TimerSet, no_timers, TimerRequest, add, remove, process_request_queue,
  add_timer_internal, remove_timer_internal, insert_timer, process_timers, next_deadline,
}
use plain.Engine.TimerQueue.Order.{IsTimerSet, AreFresh}
use plain.Engine.TimerQueue.Firing.{AreWaiting, due, tasks, process_timers_ends}

-- A clock that goes on by 10 in a round, a frequency of a millisecond, and one timer cancelled.
abbrev world : World
world = record {
  clock = λ round. 1000 + 10 * round;
  cancelled = λ round id. id == 2;
  frequency = λ round id. 1;
  executor_off = λ round id. false;
}

abbrev timer_at : ℕ → ℕ → Timer
timer_at id deadline = record { id = id; deadline = deadline; oneshot = false }

abbrev requests : List TimerRequest
requests =
    add (timer_at 1 500)
    ∷ add (timer_at 2 400)
    ∷ add (timer_at 3 2000)
    ∷ add (timer_at 4 500)
    ∷ remove 9
    ∷ []

requests-AreFresh : AreFresh requests no_timers
unfolding add_timer_internal
requests-AreFresh = (refl, (refl, (refl, (refl, tt))))

no_timers-IsTimerSet : IsTimerSet no_timers
no_timers-IsTimerSet = record {
  sorted = tt;
  distinct = tt;
  mapped = λ k. refl;
  distinct_mapper = tt;
  sizes = refl;
}

process_timers_ends_example :
    (last : TimerSet) × (process_timers 5 world 1000 requests no_timers
      ≡ some (
        next_deadline 1000 last,
        tasks world 0 (due 1000 (process_request_queue requests no_timers).timers),
        last,
      ))
    × IsTimerSet last
    × AreWaiting 1000 last.timers
    × (1000 < next_deadline 1000 last)
    × All (λ t. next_deadline 1000 last ≤ t.deadline) last.timers
unfolding process_request_queue add_timer_internal remove_timer_internal insert_timer due
process_timers_ends_example =
    process_timers_ends world 1000 5 requests no_timers (λ round id. omega arith)
      no_timers-IsTimerSet requests-AreFresh (omega arith)

-- The first and the fourth timer fire, in that order.
tasks_test : tasks world 0 (due 1000 (process_request_queue requests no_timers).timers) ≡ 1 ∷ 4 ∷ []
unfolding process_request_queue add_timer_internal remove_timer_internal insert_timer due tasks
tasks_test = refl
