-- ===== src/Concurrency/Result.antt =====
-- The state that a producer and a consumer of a result share,
-- framework/core/src/concurrency/result/detail/state.cc and its header: `StateBasic` and the completion
-- of `State`. Each side is where it stands between two atomic operations on the status, and such an
-- operation is one step. Waking a thread and running a coroutine again are outside.
pub mod Protocol
pub mod Reached
pub mod WhenAny
mod Tests
use plain.Prelude.{ℕ, zero, suc, ◌+◌, Bool, true, false, ◌≡◌, if◌then◌else◌}

-- `ProcessStatus`
pub data Status : Type 0 where
  idle consumer_set consumer_waiting consumer_done producer_done : Status

abbrev pub is_idle : Status → Bool
is_idle idle = true
is_idle consumer_set = false
is_idle consumer_waiting = false
is_idle consumer_done = false
is_idle producer_done = false

abbrev pub is_set : Status → Bool
is_set consumer_set = true
is_set idle = false
is_set consumer_waiting = false
is_set consumer_done = false
is_set producer_done = false

abbrev pub is_waiting : Status → Bool
is_waiting consumer_waiting = true
is_waiting idle = false
is_waiting consumer_set = false
is_waiting consumer_done = false
is_waiting producer_done = false

abbrev pub is_done : Status → Bool
is_done producer_done = true
is_done idle = false
is_done consumer_set = false
is_done consumer_waiting = false
is_done consumer_done = false

-- Where the consumer is: between operations, before it exchanges the status in `wait` or `wait_for`,
-- in the wait, asleep there, behind one that timed out, before the exchange in `await`, behind it, before the
-- exchange in `try_rewind_consumer`, and behind `complete_consumer`.
pub data Consumer : Type 0 where
  ready about_to_wait blocked asleep timed_out about_to_set suspended about_to_rewind gone :
      Consumer

-- Where the producer is: before `complete_producer`, behind its exchange with the status it found,
-- and at its end.
pub data Producer : Type 0 where
  working finished : Producer
  finishing : Status → Producer

-- `resumed` counts the calls of `resume_consumer`, `notified` those of `atomic_notify_all`, `deleted`
-- those of `delete_self`. `asserted` is false once an assertion failed.
pub record State : Type 0 where
  pub status : Status
  pub consumer : Consumer
  pub producer : Producer
  pub resumed : ℕ
  pub notified : ℕ
  pub deleted : ℕ
  pub asserted : Bool

unfoldable pub new_state : State
new_state = record {
  status = idle;
  consumer = ready;
  producer = working;
  resumed = 0;
  notified = 0;
  deleted = 0;
  asserted = true;
}

-- The consumer goes on where the source asserts that the producer is done.
unfoldable pub assert_done : State → State
assert_done s = record s {
  consumer = ready;
  asserted = if is_done s.status then s.asserted else false;
}

-- `wait` and `wait_for`, up to the exchange, and the exchange.
unfoldable pub wait_begin : State → State
wait_begin s = record s { consumer = if is_done s.status then ready else about_to_wait }

unfoldable pub wait_exchange : State → State
wait_exchange s =
    if is_idle s.status
    then record s { status = consumer_waiting; consumer = blocked }
    else assert_done s

-- The end of `wait_for` when the wait timed out.
unfoldable pub wait_for_end : State → State
wait_for_end s =
    if is_waiting s.status then record s { status = idle; consumer = ready } else assert_done s

-- `await`, up to the exchange, and the exchange. The handle of the coroutine is outside.
unfoldable pub set_begin : State → State
set_begin s = record s { consumer = if is_done s.status then ready else about_to_set }

unfoldable pub set_exchange : State → State
set_exchange s =
    if is_idle s.status
    then record s { status = consumer_set; consumer = suspended }
    else assert_done s

-- `when_any`, up to the exchange, and the exchange: it returns the status that it loaded first.
unfoldable pub when_any_begin : State → Status × State
when_any_begin s = (s.status, set_begin s)

unfoldable pub when_any_exchange : Status → State → Status × State
when_any_exchange loaded s = (loaded, set_exchange s)

-- `try_rewind_consumer`
unfoldable pub rewind_begin : State → State
rewind_begin s = record s { consumer = if is_set s.status then about_to_rewind else ready }

unfoldable pub rewind_exchange : State → State
rewind_exchange s =
    if is_set s.status then record s { status = idle; consumer = ready } else assert_done s

unfoldable pub complete_consumer : State → State
complete_consumer s =
    let gone_on = record s { status = consumer_done; consumer = gone } in
    elim s.status [
      | producer_done ↦ record gone_on { deleted = s.deleted + 1 }
      | idle ↦ gone_on
      | consumer_set ↦ record gone_on { asserted = false }
      | consumer_waiting ↦ record gone_on { asserted = false }
      | consumer_done ↦ record gone_on { asserted = false }
    ]

-- The exchange of `complete_producer`, and what it does then.
unfoldable pub complete_exchange : State → State
complete_exchange s = record s { status = producer_done; producer = finishing s.status }

-- What `atomic_notify_all` does: a thread that sleeps in the wait is up again and looks at the status.
abbrev pub woken : Consumer → Consumer
woken asleep = blocked
woken ready = ready
woken about_to_wait = about_to_wait
woken blocked = blocked
woken timed_out = timed_out
woken about_to_set = about_to_set
woken suspended = suspended
woken about_to_rewind = about_to_rewind
woken gone = gone

unfoldable pub complete_producer : Status → State → State
complete_producer consumer_set s = record s { producer = finished; resumed = s.resumed + 1 }
complete_producer idle s = record s { producer = finished }
complete_producer consumer_waiting s = record s {
  producer = finished;
  notified = s.notified + 1;
  consumer = woken s.consumer;
}
complete_producer consumer_done s = record s { producer = finished; deleted = s.deleted + 1 }
complete_producer producer_done s = record s { producer = finished; asserted = false }

-- The steps of both sides, in any order. A wait looks at the status: it ends when that is another,
-- and else the thread falls asleep, in one step with the look, as a futex does. It sleeps until it is
-- notified or its time is out. A consumer that is set goes on when it is resumed, or to rewind.
pub data Step : State → State → Type 0 where
  waits : (s : State) → s.consumer ≡ ready → Step s (wait_begin s)
  blocks : (s : State) → s.consumer ≡ about_to_wait → Step s (wait_exchange s)
  wakes : (s : State) → s.consumer ≡ blocked → is_waiting s.status ≡ false → Step s (assert_done s)
  falls_asleep :
      (s : State)
      → s.consumer ≡ blocked
      → is_waiting s.status ≡ true
      → Step s (record s { consumer = asleep })
  sleeps_out : (s : State) → s.consumer ≡ asleep → Step s (record s { consumer = timed_out })
  times_out : (s : State) → s.consumer ≡ blocked → Step s (record s { consumer = timed_out })
  stops_waiting : (s : State) → s.consumer ≡ timed_out → Step s (wait_for_end s)
  awaits : (s : State) → s.consumer ≡ ready → Step s (set_begin s)
  suspends : (s : State) → s.consumer ≡ about_to_set → Step s (set_exchange s)
  goes_on :
      (s : State) → s.consumer ≡ suspended → s.resumed ≡ 1 → Step s (record s { consumer = ready })
  rewinds : (s : State) → s.consumer ≡ suspended → Step s (rewind_begin s)
  unsets : (s : State) → s.consumer ≡ about_to_rewind → Step s (rewind_exchange s)
  leaves : (s : State) → s.consumer ≡ ready → Step s (complete_consumer s)
  completes : (s : State) → s.producer ≡ working → Step s (complete_exchange s)
  ends :
      (s : State) (found : Status)
      → s.producer ≡ finishing found
      → Step s (complete_producer found s)

pub data Steps : State → State → Type 0 where
  at_start : (s : State) → Steps s s
  and_then : (s s' s'' : State) → Steps s s' → Step s' s'' → Steps s s''
