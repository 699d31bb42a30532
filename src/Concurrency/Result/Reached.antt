-- ===== src/Concurrency/Result/Reached.antt =====
-- Every state that the two sides of a result come to, in whatever order their steps are made.
use plain.Prelude.{ℕ, ◌≡◌, refl, sym, ◌⊎◌, inl, inr, Bool, true, false}
use plain.Concurrency.Result.{
  Status, producer_done, Consumer, ready, about_to_wait, blocked, asleep, timed_out, about_to_set,
  suspended, about_to_rewind, gone, Producer, working, finished, finishing, State, new_state,
  assert_done, wait_begin, wait_exchange, wait_for_end, set_begin, set_exchange, rewind_begin,
  rewind_exchange, complete_consumer, complete_exchange, complete_producer, Step, waits, blocks,
  wakes, falls_asleep, sleeps_out, times_out, stops_waiting, awaits, suspends, goes_on, rewinds,
  unsets, leaves, completes, ends, Steps, at_start, and_then,
}
use plain.Concurrency.Result.Protocol.{
  is_gone, Holds, IsState, state_at, wait_begin-IsState, set_begin-IsState, wait_exchange-IsState,
  set_exchange-IsState, wakes-IsState, falls_asleep-IsState, sleeps_out-IsState, times_out-IsState,
  wait_for_end-IsState, goes_on-IsState, rewind_begin-IsState, rewind_exchange-IsState,
  complete_consumer-IsState, complete_exchange-IsState, complete_producer-IsState,
}
use mathlib.Core.Bool.{false≢true}
use mathlib.Core.Path.{subst}

-- A step of the consumer from its place.
from_place :
    (f : State → State) (c : Consumer) (s : State)
    → s.consumer ≡ c
    → IsState s
    → (Holds s.producer c s.status s.deleted s.resumed
        → IsState (f (state_at s.producer c s.status s.resumed s.notified s.deleted)))
    → IsState (f s)
from_place f c s e v step =
    let same : s ≡ state_at s.producer c s.status s.resumed s.notified s.deleted =
      λ i. record s { consumer = e i; asserted = v.1 i } in
    subst (λ u. IsState (f u)) (sym same)
      (step (subst (λ x. Holds s.producer x s.status s.deleted s.resumed) e v.0))

-- A step of the producer from its place.
from_producer :
    (f : State → State) (p : Producer) (s : State)
    → s.producer ≡ p
    → IsState s
    → (Holds p s.consumer s.status s.deleted s.resumed
        → IsState (f (state_at p s.consumer s.status s.resumed s.notified s.deleted)))
    → IsState (f s)
from_producer f p s e v step =
    let same : s ≡ state_at p s.consumer s.status s.resumed s.notified s.deleted =
      λ i. record s { producer = e i; asserted = v.1 i } in
    subst (λ u. IsState (f u)) (sym same)
      (step (subst (λ x. Holds x s.consumer s.status s.deleted s.resumed) e v.0))

Step-IsState : (s s' : State) → Step s s' → IsState s → IsState s'
Step-IsState s s' (waits _ e) v =
    from_place wait_begin ready s e v
      (wait_begin-IsState s.resumed s.notified s.deleted s.producer s.status)
Step-IsState s s' (blocks _ e) v =
    from_place wait_exchange about_to_wait s e v
      (wait_exchange-IsState s.resumed s.notified s.deleted s.producer s.status)
Step-IsState s s' (wakes _ e woken) v =
    from_place assert_done blocked s e v
      (wakes-IsState s.resumed s.notified s.deleted s.producer s.status woken)
Step-IsState s s' (falls_asleep _ e still) v =
    from_place (λ u. record u { consumer = asleep }) blocked s e v
      (falls_asleep-IsState s.resumed s.notified s.deleted s.producer s.status still)
Step-IsState s s' (sleeps_out _ e) v =
    from_place (λ u. record u { consumer = timed_out }) asleep s e v
      (sleeps_out-IsState s.resumed s.notified s.deleted s.producer s.status)
Step-IsState s s' (times_out _ e) v =
    from_place (λ u. record u { consumer = timed_out }) blocked s e v
      (times_out-IsState s.resumed s.notified s.deleted s.producer s.status)
Step-IsState s s' (stops_waiting _ e) v =
    from_place wait_for_end timed_out s e v
      (wait_for_end-IsState s.resumed s.notified s.deleted s.producer s.status)
Step-IsState s s' (awaits _ e) v =
    from_place set_begin ready s e v
      (set_begin-IsState s.resumed s.notified s.deleted s.producer s.status)
Step-IsState s s' (suspends _ e) v =
    from_place set_exchange about_to_set s e v
      (set_exchange-IsState s.resumed s.notified s.deleted s.producer s.status)
Step-IsState s s' (goes_on _ e once) v =
    from_place (λ u. record u { consumer = ready }) suspended s e v
      (goes_on-IsState s.resumed s.notified s.deleted s.producer s.status once)
Step-IsState s s' (rewinds _ e) v =
    from_place rewind_begin suspended s e v
      (rewind_begin-IsState s.resumed s.notified s.deleted s.producer s.status)
Step-IsState s s' (unsets _ e) v =
    from_place rewind_exchange about_to_rewind s e v
      (rewind_exchange-IsState s.resumed s.notified s.deleted s.producer s.status)
Step-IsState s s' (leaves _ e) v =
    from_place complete_consumer ready s e v
      (complete_consumer-IsState s.resumed s.notified s.deleted s.producer s.status)
Step-IsState s s' (completes _ e) v =
    from_producer complete_exchange working s e v
      (complete_exchange-IsState s.resumed s.notified s.deleted s.consumer s.status)
Step-IsState s s' (ends _ found e) v =
    from_producer (complete_producer found) (finishing found) s e v
      (complete_producer-IsState s.resumed s.notified s.deleted s.consumer s.status found)

pub reached-IsState : (s s' : State) → Steps s s' → IsState s → IsState s'
reached-IsState s s' (at_start _) v = v
reached-IsState s s' (and_then _ mid _ steps step) v =
    Step-IsState mid s' step (reached-IsState s mid steps v)

pub new_state-IsState : IsState new_state
unfolding new_state
new_state-IsState = ((refl, refl, refl), refl)

abbrev pub is_working : Producer → Bool
is_working working = true
is_working (finishing found) = false
is_working finished = false

-- Whether the state is deleted, and then what the two sides have behind them.
abbrev pub Deleted : Producer → Consumer → ℕ → Type 0
Deleted p c deleted = (deleted ≡ 0) ⊎ ((deleted ≡ 1) × (c ≡ gone) × (is_working p ≡ false))

deleted_lem :
    (p : Producer) (c : Consumer) (st : Status) (d n : ℕ) → Holds p c st d n → Deleted p c d
deleted_lem working c st d n v = inl v.1
deleted_lem (finishing f) gone st d n (none_yet, inl (was_gone, kept)) = inl kept
deleted_lem (finishing f) gone st d n (none_yet, inr (live, removed)) = inr (removed, refl, refl)
deleted_lem (finishing f) ready st d n v = inl v.1
deleted_lem (finishing f) about_to_wait st d n v = inl v.1
deleted_lem (finishing f) blocked st d n v = inl v.1
deleted_lem (finishing f) asleep st d n v = inl v.1
deleted_lem (finishing f) timed_out st d n v = inl v.1
deleted_lem (finishing f) about_to_set st d n v = inl v.1
deleted_lem (finishing f) suspended st d n v = inl v.1
deleted_lem (finishing f) about_to_rewind st d n v = inl v.1
deleted_lem finished gone st d n v = inr (v, refl, refl)
deleted_lem finished ready st d n v = inl v.1
deleted_lem finished about_to_wait st d n v = inl v.1
deleted_lem finished blocked st d n v = inl v.1
deleted_lem finished asleep st d n v = absurd (false≢true v)
deleted_lem finished timed_out st d n v = inl v.1
deleted_lem finished about_to_set st d n v = inl v.1
deleted_lem finished suspended st d n v = inl v.1
deleted_lem finished about_to_rewind st d n v = inl v.1

-- In every state reached, no assertion has failed, and the state is not deleted, or is deleted once
-- while the consumer is at its end and the producer has made its exchange.
pub deleted_by_last :
    (s : State) → Steps new_state s → (s.asserted ≡ true) × Deleted s.producer s.consumer s.deleted
deleted_by_last s steps =
    let v = reached-IsState new_state s steps new_state-IsState in
    (v.1, deleted_lem s.producer s.consumer s.status s.deleted s.resumed v.0)

-- Whether a consumer that is suspended has been resumed, just once.
abbrev pub Resumed : Consumer → ℕ → Type 0
Resumed suspended resumed = resumed ≡ 1
Resumed ready resumed = Unit
Resumed about_to_wait resumed = Unit
Resumed blocked resumed = Unit
Resumed asleep resumed = Unit
Resumed timed_out resumed = Unit
Resumed about_to_set resumed = Unit
Resumed about_to_rewind resumed = Unit
Resumed gone resumed = Unit

abbrev pub is_asleep : Consumer → Bool
is_asleep asleep = true
is_asleep ready = false
is_asleep about_to_wait = false
is_asleep blocked = false
is_asleep timed_out = false
is_asleep about_to_set = false
is_asleep suspended = false
is_asleep about_to_rewind = false
is_asleep gone = false

resumed_lem :
    (c : Consumer) (st : Status) (d n : ℕ)
    → is_gone c ≡ false
    → Holds finished c st d n
    → (st ≡ producer_done) × (d ≡ 0) × Resumed c n × (is_asleep c ≡ false)
resumed_lem gone st d n h v = absurd (false≢true (sym h))
resumed_lem suspended st d n h v = (v.0, v.1, v.2, refl)
resumed_lem asleep st d n h v = absurd (false≢true v)
resumed_lem ready st d n h v = (v.0, v.1, tt, refl)
resumed_lem about_to_wait st d n h v = (v.0, v.1, tt, refl)
resumed_lem blocked st d n h v = (v.0, v.1, tt, refl)
resumed_lem timed_out st d n h v = (v.0, v.1, tt, refl)
resumed_lem about_to_set st d n h v = (v.0, v.1, tt, refl)
resumed_lem about_to_rewind st d n h v = (v.0, v.1, tt, refl)

-- No wakeup is lost: when the producer is at its end and the consumer is not, the consumer does not
-- sleep in a wait, the status says that the producer is done, the state is there, and a consumer that
-- is suspended has been resumed, just once.
pub result_reaches_consumer :
    (s : State)
    → Steps new_state s
    → s.producer ≡ finished
    → is_gone s.consumer ≡ false
    → (s.status ≡ producer_done)
      × (s.deleted ≡ 0)
      × Resumed s.consumer s.resumed
      × (is_asleep s.consumer ≡ false)
result_reaches_consumer s steps e live =
    let v = reached-IsState new_state s steps new_state-IsState in
    resumed_lem s.consumer s.status s.deleted s.resumed live
      (subst (λ p. Holds p s.consumer s.status s.deleted s.resumed) e v.0)

-- Nobody forgets the state: when the producer and the consumer are both at their end, it has been
-- deleted, and just once.
pub both_ends_delete :
    (s : State) → Steps new_state s → s.producer ≡ finished → s.consumer ≡ gone → s.deleted ≡ 1
both_ends_delete s steps e e' =
    let v = reached-IsState new_state s steps new_state-IsState in
    subst (λ c. Holds finished c s.status s.deleted s.resumed) e'
      (subst (λ p. Holds p s.consumer s.status s.deleted s.resumed) e v.0)
