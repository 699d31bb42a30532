-- ===== src/Concurrency/Result/WhenAny.antt =====
-- A result that is there between the two atomic operations of `when_any`.
use plain.Prelude.{◌+◌, ◌≡◌, ◌∙◌, refl, sym, ap, Bool, true, false, if◌then◌else◌}
use plain.Concurrency.Result.{
  Status, idle, consumer_set, consumer_waiting, consumer_done, producer_done, is_idle, is_set,
  is_waiting, ready, gone, Producer, working, finished, finishing, State, new_state, assert_done,
  wait_begin, wait_exchange, wait_for_end, set_begin, set_exchange, when_any_begin,
  when_any_exchange, rewind_begin, rewind_exchange, complete_consumer, complete_exchange,
  complete_producer, Step, waits, blocks, wakes, falls_asleep, sleeps_out, times_out, stops_waiting,
  awaits, suspends, goes_on, rewinds, unsets, leaves, completes, ends, Steps, at_start, and_then,
}
use plain.Concurrency.Result.Protocol.{Holds}
use plain.Concurrency.Result.Reached.{reached-IsState, new_state-IsState}
use mathlib.Core.Path.{subst}
use mathlib.Core.Bool.{false≢true}

abbrev is_finished : Producer → Bool
is_finished working = false
is_finished (finishing found) = false
is_finished finished = true

-- What a step of the consumer leaves alone.
Keeps : State → State → Type 0
Keeps s s' = (s'.producer ≡ s.producer) × (s'.resumed ≡ s.resumed)

Keeps-if : (s x y : State) (b : Bool) → Keeps s x → Keeps s y → Keeps s (if b then x else y)
Keeps-if s x y true h h' = h
Keeps-if s x y false h h' = h'

complete_consumer-Keeps : (s : State) → Keeps s (complete_consumer s)
unfolding Keeps complete_consumer
complete_consumer-Keeps s =
    let gone_on = record s { status = consumer_done; consumer = gone } in
    elim s.status
      as (λ st. Keeps s (elim st as (λ _. State) [
        | producer_done ↦ record gone_on { deleted = s.deleted + 1 }
        | idle ↦ gone_on
        | consumer_set ↦ record gone_on { asserted = false }
        | consumer_waiting ↦ record gone_on { asserted = false }
        | consumer_done ↦ record gone_on { asserted = false }
      ])) [
        | producer_done ↦ (refl, refl)
        | idle ↦ (refl, refl)
        | consumer_set ↦ (refl, refl)
        | consumer_waiting ↦ (refl, refl)
        | consumer_done ↦ (refl, refl)
      ]

Step-Keeps : (s s' : State) → Step s s' → is_finished s.producer ≡ true → Keeps s s'
unfolding Keeps wait_begin wait_exchange assert_done wait_for_end set_begin set_exchange
    rewind_begin rewind_exchange
Step-Keeps s s' (waits _ e) h = (refl, refl)
Step-Keeps s s' (blocks _ e) h = Keeps-if s _ _ (is_idle s.status) (refl, refl) (refl, refl)
Step-Keeps s s' (wakes _ e woken) h = (refl, refl)
Step-Keeps s s' (falls_asleep _ e still) h = (refl, refl)
Step-Keeps s s' (sleeps_out _ e) h = (refl, refl)
Step-Keeps s s' (times_out _ e) h = (refl, refl)
Step-Keeps s s' (stops_waiting _ e) h =
    Keeps-if s _ _ (is_waiting s.status) (refl, refl) (refl, refl)
Step-Keeps s s' (awaits _ e) h = (refl, refl)
Step-Keeps s s' (suspends _ e) h = Keeps-if s _ _ (is_idle s.status) (refl, refl) (refl, refl)
Step-Keeps s s' (goes_on _ e once) h = (refl, refl)
Step-Keeps s s' (rewinds _ e) h = (refl, refl)
Step-Keeps s s' (unsets _ e) h = Keeps-if s _ _ (is_set s.status) (refl, refl) (refl, refl)
Step-Keeps s s' (leaves _ e) h = complete_consumer-Keeps s
Step-Keeps s s' (completes _ e) h = absurd (false≢true (sym (ap is_finished e) ∙ h))
Step-Keeps s s' (ends _ found e) h = absurd (false≢true (sym (ap is_finished e) ∙ h))

Steps-Keeps : (s s' : State) → Steps s s' → is_finished s.producer ≡ true → Keeps s s'
unfolding Keeps
Steps-Keeps s s' (at_start _) h = (refl, refl)
Steps-Keeps s s' (and_then _ mid _ steps step) h =
    let (same, kept) = Steps-Keeps s mid steps h in
    let (same', kept') = Step-Keeps mid s' step (ap is_finished same ∙ h) in
    (same' ∙ same, kept' ∙ kept)

-- `when_any` begins, the producer completes, and `when_any` makes its exchange.
abbrev pub overtaken : State → Status × State
overtaken s =
    let (loaded, begun) = when_any_begin s in
    when_any_exchange loaded (complete_producer idle (complete_exchange begun))

-- A result is lost for `when_any`. If a consumer that is between operations calls it while the
-- producer works, and the producer completes between its two atomic operations, then it returns that
-- the status is idle, and, whatever steps follow, the consumer is never resumed.
pub when_any_loses_result :
    (s t : State)
    → Steps new_state s
    → s.consumer ≡ ready
    → s.producer ≡ working
    → Steps (overtaken s).1 t
    → ((overtaken s).0 ≡ idle) × (t.producer ≡ finished) × (t.resumed ≡ 0)
unfolding Keeps when_any_begin when_any_exchange set_begin set_exchange assert_done
    complete_exchange complete_producer
when_any_loses_result s t before e e' steps =
    let v = reached-IsState new_state s before new_state-IsState in
    let (status, none_deleted, none_resumed) : Holds working ready s.status s.deleted s.resumed =
      subst (λ c. Holds working c s.status s.deleted s.resumed) e
        (subst (λ p. Holds p s.consumer s.status s.deleted s.resumed) e' v.0) in
    let (same, kept) = Steps-Keeps (overtaken s).1 t steps refl in
    (status, same, kept ∙ none_resumed)
