-- ===== src/Concurrency/Result/Tests.antt =====
-- A consumer that awaits a result before it is there, and one that leaves early.
use plain.Prelude.{◌≡◌, refl, true, false}
use plain.Concurrency.Result.{
  consumer_set, consumer_waiting, idle, producer_done, finishing, State, new_state, assert_done,
  wait_begin, wait_exchange, set_begin, set_exchange, finished, complete_consumer,
  complete_exchange, complete_producer, Steps, at_start, and_then, awaits, suspends, leaves,
  completes, ends, waits, blocks, falls_asleep, asleep,
}
use plain.Concurrency.Result.WhenAny.{overtaken, when_any_loses_result}
use plain.Concurrency.Result.Reached.{
  Deleted, Resumed, is_asleep, deleted_by_last, result_reaches_consumer,
}

-- The consumer waits and sleeps, and the producer completes and notifies it.
abbrev waiting : State
waiting = record (wait_exchange (wait_begin new_state)) { consumer = asleep }

abbrev notified : State
notified = complete_producer consumer_waiting (complete_exchange waiting)

sleep_first : Steps new_state notified
unfolding new_state wait_begin wait_exchange complete_exchange
sleep_first =
    let one = wait_begin new_state in
    let two = wait_exchange one in
    let four = complete_exchange waiting in
    let first = and_then new_state new_state one (at_start new_state) (waits new_state refl) in
    let second = and_then new_state one two first (blocks one refl) in
    let third = and_then new_state two waiting second (falls_asleep two refl refl) in
    let fourth = and_then new_state waiting four third (completes waiting refl) in
    and_then new_state four notified fourth (ends four consumer_waiting refl)

result_reaches_consumer_example :
    (notified.status ≡ producer_done)
    × (notified.deleted ≡ 0)
    × Resumed notified.consumer notified.resumed
    × (is_asleep notified.consumer ≡ false)
unfolding complete_producer new_state wait_begin wait_exchange complete_exchange
result_reaches_consumer_example = result_reaches_consumer notified sleep_first refl refl

abbrev awaiting : State
awaiting = set_exchange (set_begin new_state)

abbrev awaited : State
awaited = complete_producer consumer_set (complete_exchange awaiting)

await_first : Steps new_state awaited
unfolding new_state set_begin set_exchange complete_exchange
await_first =
    let one = set_begin new_state in
    let three = complete_exchange awaiting in
    let first = and_then new_state new_state one (at_start new_state) (awaits new_state refl) in
    let second = and_then new_state one awaiting first (suspends one refl) in
    let third = and_then new_state awaiting three second (completes awaiting refl) in
    and_then new_state three awaited third (ends three consumer_set refl)

deleted_by_last_example :
    (awaited.asserted ≡ true) × Deleted awaited.producer awaited.consumer awaited.deleted
deleted_by_last_example = deleted_by_last awaited await_first

-- The producer is done, and then the consumer leaves.
abbrev left : State
left = complete_consumer (complete_producer idle (complete_exchange new_state))

leave_last : Steps new_state left
unfolding new_state complete_exchange complete_producer
leave_last =
    let one = complete_exchange new_state in
    let two = complete_producer idle one in
    let first = and_then new_state new_state one (at_start new_state) (completes new_state refl) in
    let second = and_then new_state one two first (ends one idle refl) in
    and_then new_state two left second (leaves two refl)

-- The consumer of a wait can have deleted the state when the producer has still to notify it.
abbrev notified_late : State
notified_late =
    complete_consumer (assert_done (complete_exchange (wait_exchange (wait_begin new_state))))

notified_late_test :
    (notified_late.deleted ≡ 1) × (notified_late.producer ≡ finishing consumer_waiting)
unfolding complete_consumer assert_done complete_exchange wait_exchange wait_begin new_state
notified_late_test = (refl, refl)

-- Nothing follows.
when_any_loses_result_example :
    ((overtaken new_state).0 ≡ idle)
    × ((overtaken new_state).1.producer ≡ finished)
    × ((overtaken new_state).1.resumed ≡ 0)
unfolding new_state
when_any_loses_result_example =
    when_any_loses_result new_state (overtaken new_state).1 (at_start new_state) refl refl
      (at_start (overtaken new_state).1)
