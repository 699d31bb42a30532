-- ===== src/Concurrency/Result/Protocol.antt =====
-- What the two sides of a result can rely on.
use plain.Prelude.{ℕ, ◌+◌, ◌≡◌, ◌∙◌, refl, sym, ap, ◌⊎◌, inl, inr, Bool, true, false, arith}
use plain.Concurrency.Result.{
  Status, idle, consumer_set, consumer_waiting, consumer_done, producer_done, is_waiting, Consumer,
  ready, about_to_wait, blocked, asleep, timed_out, about_to_set, suspended, about_to_rewind, gone,
  Producer, working, finished, finishing, State, assert_done, wait_begin, wait_exchange,
  wait_for_end, set_begin, set_exchange, rewind_begin, rewind_exchange, complete_consumer,
  complete_exchange, woken, complete_producer,
}
use mathlib.Core.Path.{subst}
use mathlib.Core.Bool.{false≢true}

-- The status that a place of the consumer has before the producer is done.
abbrev pub status_of : Consumer → Status
status_of ready = idle
status_of about_to_wait = idle
status_of blocked = consumer_waiting
status_of asleep = consumer_waiting
status_of timed_out = consumer_waiting
status_of about_to_set = idle
status_of suspended = consumer_set
status_of about_to_rewind = consumer_set
status_of gone = consumer_done

abbrev pub is_gone : Consumer → Bool
is_gone gone = true
is_gone ready = false
is_gone about_to_wait = false
is_gone blocked = false
is_gone asleep = false
is_gone timed_out = false
is_gone about_to_set = false
is_gone suspended = false
is_gone about_to_rewind = false

-- What the producer found, if it is not the end of the consumer.
abbrev pub found_live : Status → Bool
found_live idle = true
found_live consumer_set = true
found_live consumer_waiting = true
found_live consumer_done = false
found_live producer_done = false

-- What holds at the places of the two, of the status, the deletions and the resumptions. A consumer
-- that sleeps has still to be notified.
abbrev pub Holds : Producer → Consumer → Status → ℕ → ℕ → Type 0
Holds working c status deleted resumed = (status ≡ status_of c) × (deleted ≡ 0) × (resumed ≡ 0)
Holds (finishing found) gone status deleted resumed =
    (resumed ≡ 0)
    × (((found ≡ consumer_done) × (deleted ≡ 0)) ⊎ ((found_live found ≡ true) × (deleted ≡ 1)))
Holds (finishing found) suspended status deleted resumed =
    (status ≡ producer_done) × (deleted ≡ 0) × (resumed ≡ 0) × (found ≡ consumer_set)
Holds (finishing found) asleep status deleted resumed =
    (status ≡ producer_done) × (deleted ≡ 0) × (resumed ≡ 0) × (found ≡ consumer_waiting)
Holds (finishing found) c status deleted resumed =
    (status ≡ producer_done) × (deleted ≡ 0) × (resumed ≡ 0) × (found_live found ≡ true)
Holds finished gone status deleted resumed = deleted ≡ 1
Holds finished suspended status deleted resumed =
    (status ≡ producer_done) × (deleted ≡ 0) × (resumed ≡ 1)
Holds finished asleep status deleted resumed = false ≡ true
Holds finished c status deleted resumed = (status ≡ producer_done) × (deleted ≡ 0)

abbrev pub IsState : State → Type 0
IsState s = Holds s.producer s.consumer s.status s.deleted s.resumed × (s.asserted ≡ true)

-- A state in which no assertion failed.
abbrev pub state_at : Producer → Consumer → Status → ℕ → ℕ → ℕ → State
state_at p c status resumed notified deleted = record {
  status = status;
  consumer = c;
  producer = p;
  resumed = resumed;
  notified = notified;
  deleted = deleted;
  asserted = true;
}

-- The steps of the consumer, by what the producer does.
module _ (n k d : ℕ) where
  pub wait_begin-IsState :
      (p : Producer) (st : Status)
      → Holds p ready st d n
      → IsState (wait_begin (state_at p ready st n k d))
  unfolding wait_begin
  wait_begin-IsState working st v =
      subst (λ st. IsState (wait_begin (state_at working ready st n k d))) (sym v.0)
        ((refl, v.1, v.2), refl)
  wait_begin-IsState (finishing f) st v =
      subst (λ st. IsState (wait_begin (state_at (finishing f) ready st n k d))) (sym v.0)
        ((refl, v.1, v.2, v.3), refl)
  wait_begin-IsState finished st v =
      subst (λ st. IsState (wait_begin (state_at finished ready st n k d))) (sym v.0)
        ((refl, v.1), refl)

  pub set_begin-IsState :
      (p : Producer) (st : Status)
      → Holds p ready st d n
      → IsState (set_begin (state_at p ready st n k d))
  unfolding set_begin
  set_begin-IsState working st v =
      subst (λ st. IsState (set_begin (state_at working ready st n k d))) (sym v.0)
        ((refl, v.1, v.2), refl)
  set_begin-IsState (finishing f) st v =
      subst (λ st. IsState (set_begin (state_at (finishing f) ready st n k d))) (sym v.0)
        ((refl, v.1, v.2, v.3), refl)
  set_begin-IsState finished st v =
      subst (λ st. IsState (set_begin (state_at finished ready st n k d))) (sym v.0)
        ((refl, v.1), refl)

  pub wait_exchange-IsState :
      (p : Producer) (st : Status)
      → Holds p about_to_wait st d n
      → IsState (wait_exchange (state_at p about_to_wait st n k d))
  unfolding wait_exchange assert_done
  wait_exchange-IsState working st v =
      subst (λ st. IsState (wait_exchange (state_at working about_to_wait st n k d))) (sym v.0)
        ((refl, v.1, v.2), refl)
  wait_exchange-IsState (finishing f) st v =
      subst (λ st. IsState (wait_exchange (state_at (finishing f) about_to_wait st n k d)))
        (sym v.0) ((refl, v.1, v.2, v.3), refl)
  wait_exchange-IsState finished st v =
      subst (λ st. IsState (wait_exchange (state_at finished about_to_wait st n k d))) (sym v.0)
        ((refl, v.1), refl)

  pub set_exchange-IsState :
      (p : Producer) (st : Status)
      → Holds p about_to_set st d n
      → IsState (set_exchange (state_at p about_to_set st n k d))
  unfolding set_exchange assert_done
  set_exchange-IsState working st v =
      subst (λ st. IsState (set_exchange (state_at working about_to_set st n k d))) (sym v.0)
        ((refl, v.1, v.2), refl)
  set_exchange-IsState (finishing f) st v =
      subst (λ st. IsState (set_exchange (state_at (finishing f) about_to_set st n k d))) (sym v.0)
        ((refl, v.1, v.2, v.3), refl)
  set_exchange-IsState finished st v =
      subst (λ st. IsState (set_exchange (state_at finished about_to_set st n k d))) (sym v.0)
        ((refl, v.1), refl)

  pub wakes-IsState :
      (p : Producer) (st : Status)
      → is_waiting st ≡ false
      → Holds p blocked st d n
      → IsState (assert_done (state_at p blocked st n k d))
  unfolding assert_done
  wakes-IsState working st h v = absurd (false≢true (sym h ∙ ap is_waiting v.0))
  wakes-IsState (finishing f) st h v =
      subst (λ st. IsState (assert_done (state_at (finishing f) blocked st n k d))) (sym v.0)
        ((refl, v.1, v.2, v.3), refl)
  wakes-IsState finished st h v =
      subst (λ st. IsState (assert_done (state_at finished blocked st n k d))) (sym v.0)
        ((refl, v.1), refl)

  pub times_out-IsState :
      (p : Producer) (st : Status)
      → Holds p blocked st d n
      → IsState (state_at p timed_out st n k d)
  times_out-IsState working st v = (v, refl)
  times_out-IsState (finishing f) st v = (v, refl)
  times_out-IsState finished st v = (v, refl)

  pub falls_asleep-IsState :
      (p : Producer) (st : Status)
      → is_waiting st ≡ true
      → Holds p blocked st d n
      → IsState (state_at p asleep st n k d)
  falls_asleep-IsState working st h v = (v, refl)
  falls_asleep-IsState (finishing f) st h v = absurd (false≢true (sym (ap is_waiting v.0) ∙ h))
  falls_asleep-IsState finished st h v = absurd (false≢true (sym (ap is_waiting v.0) ∙ h))

  pub sleeps_out-IsState :
      (p : Producer) (st : Status) → Holds p asleep st d n → IsState (state_at p timed_out st n k d)
  sleeps_out-IsState working st v = (v, refl)
  sleeps_out-IsState (finishing f) st v = ((v.0, v.1, v.2, ap found_live v.3), refl)
  sleeps_out-IsState finished st v = absurd (false≢true v)

  pub wait_for_end-IsState :
      (p : Producer) (st : Status)
      → Holds p timed_out st d n
      → IsState (wait_for_end (state_at p timed_out st n k d))
  unfolding wait_for_end assert_done
  wait_for_end-IsState working st v =
      subst (λ st. IsState (wait_for_end (state_at working timed_out st n k d))) (sym v.0)
        ((refl, v.1, v.2), refl)
  wait_for_end-IsState (finishing f) st v =
      subst (λ st. IsState (wait_for_end (state_at (finishing f) timed_out st n k d))) (sym v.0)
        ((refl, v.1, v.2, v.3), refl)
  wait_for_end-IsState finished st v =
      subst (λ st. IsState (wait_for_end (state_at finished timed_out st n k d))) (sym v.0)
        ((refl, v.1), refl)

  pub goes_on-IsState :
      (p : Producer) (st : Status)
      → n ≡ 1
      → Holds p suspended st d n
      → IsState (state_at p ready st n k d)
  goes_on-IsState working st h v = absurd (omega (arith, h, v.2))
  goes_on-IsState (finishing f) st h v = absurd (omega (arith, h, v.2))
  goes_on-IsState finished st h v = ((v.0, v.1), refl)

  pub rewind_begin-IsState :
      (p : Producer) (st : Status)
      → Holds p suspended st d n
      → IsState (rewind_begin (state_at p suspended st n k d))
  unfolding rewind_begin
  rewind_begin-IsState working st v =
      subst (λ st. IsState (rewind_begin (state_at working suspended st n k d))) (sym v.0)
        ((refl, v.1, v.2), refl)
  rewind_begin-IsState (finishing f) st v =
      subst (λ st. IsState (rewind_begin (state_at (finishing f) suspended st n k d))) (sym v.0)
        ((refl, v.1, v.2, ap found_live v.3), refl)
  rewind_begin-IsState finished st v =
      subst (λ st. IsState (rewind_begin (state_at finished suspended st n k d))) (sym v.0)
        ((refl, v.1), refl)

  pub rewind_exchange-IsState :
      (p : Producer) (st : Status)
      → Holds p about_to_rewind st d n
      → IsState (rewind_exchange (state_at p about_to_rewind st n k d))
  unfolding rewind_exchange assert_done
  rewind_exchange-IsState working st v =
      subst (λ st. IsState (rewind_exchange (state_at working about_to_rewind st n k d))) (sym v.0)
        ((refl, v.1, v.2), refl)
  rewind_exchange-IsState (finishing f) st v =
      subst (λ st. IsState (rewind_exchange (state_at (finishing f) about_to_rewind st n k d)))
        (sym v.0) ((refl, v.1, v.2, v.3), refl)
  rewind_exchange-IsState finished st v =
      subst (λ st. IsState (rewind_exchange (state_at finished about_to_rewind st n k d))) (sym v.0)
        ((refl, v.1), refl)

  pub complete_consumer-IsState :
      (p : Producer) (st : Status)
      → Holds p ready st d n
      → IsState (complete_consumer (state_at p ready st n k d))
  unfolding complete_consumer
  complete_consumer-IsState working st v =
      subst (λ st. IsState (complete_consumer (state_at working ready st n k d))) (sym v.0)
        ((refl, v.1, v.2), refl)
  complete_consumer-IsState (finishing f) st v =
      subst (λ st. IsState (complete_consumer (state_at (finishing f) ready st n k d))) (sym v.0)
        ((v.2, inr (v.3, omega (arith, v.1))), refl)
  complete_consumer-IsState finished st v =
      subst (λ st. IsState (complete_consumer (state_at finished ready st n k d))) (sym v.0)
        (omega (arith, v.1), refl)

  pub complete_exchange-IsState :
      (c : Consumer) (st : Status)
      → Holds working c st d n
      → IsState (complete_exchange (state_at working c st n k d))
  unfolding complete_exchange
  complete_exchange-IsState gone st v = ((v.2, inl (v.0, v.1)), refl)
  complete_exchange-IsState suspended st v = ((refl, v.1, v.2, v.0), refl)
  complete_exchange-IsState ready st v = ((refl, v.1, v.2, ap found_live v.0), refl)
  complete_exchange-IsState about_to_wait st v = ((refl, v.1, v.2, ap found_live v.0), refl)
  complete_exchange-IsState blocked st v = ((refl, v.1, v.2, ap found_live v.0), refl)
  complete_exchange-IsState asleep st v = ((refl, v.1, v.2, v.0), refl)
  complete_exchange-IsState timed_out st v = ((refl, v.1, v.2, ap found_live v.0), refl)
  complete_exchange-IsState about_to_set st v = ((refl, v.1, v.2, ap found_live v.0), refl)
  complete_exchange-IsState about_to_rewind st v = ((refl, v.1, v.2, ap found_live v.0), refl)

  -- The end of the producer that found the consumer live, and not asleep.
  live_end :
      (c : Consumer) (st f : Status)
      → woken c ≡ c
      → ((m : ℕ) → Holds finished c st d m)
      → found_live f ≡ true
      → IsState (complete_producer f (state_at (finishing f) c st n k d))
  unfolding complete_producer
  live_end c st idle up h live = (h n, refl)
  live_end c st consumer_set up h live = (h (n + 1), refl)
  live_end c st consumer_waiting up h live =
      (subst (λ x. Holds finished x st d n) (sym up) (h n), refl)
  live_end c st consumer_done up h live = absurd (false≢true live)
  live_end c st producer_done up h live = absurd (false≢true live)

  -- And of one that may have found it gone.
  gone_end :
      (st f : Status)
      → Holds (finishing f) gone st d n
      → IsState (complete_producer f (state_at (finishing f) gone st n k d))
  unfolding complete_producer
  gone_end st f (none_yet, inl (was_gone, kept)) =
      subst (λ g. IsState (complete_producer g (state_at (finishing g) gone st n k d)))
        (sym was_gone) (omega (arith, kept), refl)
  gone_end st f (none_yet, inr (live, removed)) = live_end gone st f refl (λ m. removed) live

  pub complete_producer-IsState :
      (c : Consumer) (st f : Status)
      → Holds (finishing f) c st d n
      → IsState (complete_producer f (state_at (finishing f) c st n k d))
  unfolding complete_producer
  complete_producer-IsState gone st f v = gone_end st f v
  complete_producer-IsState suspended st f v =
      subst (λ g. IsState (complete_producer g (state_at (finishing g) suspended st n k d)))
        (sym v.3) ((v.0, v.1, omega (arith, v.2)), refl)
  complete_producer-IsState asleep st f v =
      subst (λ g. IsState (complete_producer g (state_at (finishing g) asleep st n k d))) (sym v.3)
        ((v.0, v.1), refl)
  complete_producer-IsState ready st f v = live_end ready st f refl (λ m. (v.0, v.1)) v.3
  complete_producer-IsState about_to_wait st f v =
      live_end about_to_wait st f refl (λ m. (v.0, v.1)) v.3
  complete_producer-IsState blocked st f v = live_end blocked st f refl (λ m. (v.0, v.1)) v.3
  complete_producer-IsState timed_out st f v = live_end timed_out st f refl (λ m. (v.0, v.1)) v.3
  complete_producer-IsState about_to_set st f v =
      live_end about_to_set st f refl (λ m. (v.0, v.1)) v.3
  complete_producer-IsState about_to_rewind st f v =
      live_end about_to_rewind st f refl (λ m. (v.0, v.1)) v.3
