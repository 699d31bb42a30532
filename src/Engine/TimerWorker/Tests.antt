-- ===== src/Engine/TimerWorker/Tests.antt =====
-- A worker that is given a timer.
use plain.Prelude.{◌≡◌, refl, inr, true, false, some}
use plain.Engine.TimerQueue.{Timer}
use plain.Engine.TimerWorker.{
  TimerWorker, new_worker, ensure_worker_thread, add_internal_timer, add_timer,
  remove_internal_timer, Steps, at_start, and_then, adds, removes,
}
use plain.Engine.TimerWorker.Waiting.{timers_have_a_worker}

abbrev timer : Timer
timer = record { id = 4; deadline = 90; oneshot = true }

abbrev with_timer : TimerWorker
with_timer = remove_internal_timer 3 (add_internal_timer timer (ensure_worker_thread new_worker))

added :
    add_timer timer new_worker ≡ some (add_internal_timer timer (ensure_worker_thread new_worker))
unfolding add_timer new_worker
added = refl

timer_given : Steps new_worker with_timer
timer_given =
    let w = add_internal_timer timer (ensure_worker_thread new_worker) in
    and_then new_worker w with_timer
      (and_then new_worker new_worker w (at_start new_worker) (adds timer new_worker w added))
      (removes 3 w)

timers_have_a_worker_example : (with_timer.running ≡ true) × (with_timer.idle ≡ false)
unfolding new_worker ensure_worker_thread add_internal_timer remove_internal_timer
timers_have_a_worker_example = timers_have_a_worker with_timer timer_given refl (inr refl)
