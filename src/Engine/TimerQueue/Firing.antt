-- ===== src/Engine/TimerQueue/Firing.antt =====
-- What a run of the timers fires, and what it leaves.
use plain.Prelude.{
  ℕ, zero, suc, ◌+◌, ◌≤◌, ◌<◌, ◌≡◌, ◌∙◌, refl, sym, ap, inl, inr, Bool, true, false, not, ◌||◌,
  some, List, [], ◌∷◌, length, All, leb, if◌then◌else◌, Bool-cases, arith,
}
use plain.Prelude.Sets.{
  has, emplace_id, erase_id, has-emplace_id, has-erase_id, length-erase_id, emplace_id-IsDistinct,
  erase_id-IsDistinct,
}
use plain.Engine.TimerQueue.{
  Timer, World, milliseconds, hours, TimerSet, insert_timer, expired, fire, timer_round, timer_loop,
  next_deadline, TimerRequest, process_request_queue, process_timers,
}
use plain.Engine.TimerQueue.Order.{
  IsSorted, IsTimerSet, insert_timer-IsSorted, insert_timer-IsDistinct, has-insert_timer,
  length-insert_timer, AreFresh, process_request_queue-IsTimerSet,
}
use native.Mathlib.Decide.{dec_le}

-- The timers that are due, in their order.
unfoldable pub due : ℕ → List Timer → List Timer
due now [] = []
due now (t ∷ timers) =
    let others = due now timers in if leb t.deadline now then t ∷ others else others

-- The tasks posted for timers that are due: each once and in their order, but for those cancelled
-- when their turn comes and those whose executor is shutting down.
unfoldable pub tasks : World → ℕ → List Timer → List ℕ
tasks w round [] = []
tasks w round (t ∷ timers) =
    let others = tasks w (round + 1) timers in
    if w.cancelled round t.id || w.executor_off round t.id then others else t.id ∷ others

-- A timer that fires gets a deadline in the future.
abbrev pub FiresLater : World → ℕ → Type 0
FiresLater w now = (round id : ℕ) → now < w.clock round + milliseconds (w.frequency round id)

abbrev pub AreWaiting : ℕ → List Timer → Type 0
AreWaiting now timers = All (λ t. now < t.deadline) timers

-- A set after a round.
module _ (w : World) (round : ℕ) (t : Timer) (timers : List Timer) (mapper : List ℕ) where
  before : TimerSet
  before = record { timers = t ∷ timers; mapper = mapper }

  fired : Timer
  fired = record t { deadline = w.clock round + milliseconds (w.frequency round t.id) }

  abbrev after_choice : Bool → TimerSet
  after_choice gone =
      if gone
      then record { timers = timers; mapper = erase_id t.id mapper }
      else record { timers = insert_timer fired timers; mapper = emplace_id t.id mapper }

  after_round : timer_round w round t timers mapper ≡ (
    not (w.cancelled round t.id || w.executor_off round t.id),
    after_choice (t.oneshot || w.cancelled round t.id),
  )
  unfolding timer_round fire fired
  after_round = elim (Bool-cases (w.cancelled round t.id)) [
    | inr goes_on ↦ rw goes_on refl
    | inl cancelled ↦ elim (Bool-cases t.oneshot) [
      | inl once ↦ rw (cancelled, once) refl
      | inr again ↦ rw (cancelled, again) refl
    ]
  ]

  erased-IsTimerSet :
      IsTimerSet before → IsTimerSet (record { timers = timers; mapper = erase_id t.id mapper })
  unfolding before
  erased-IsTimerSet v = record {
    sorted = v.sorted.1;
    distinct = v.distinct.1;
    mapped = λ k. ground (arith, has-erase_id k t.id mapper, v.mapped k, v.distinct.0);
    distinct_mapper = erase_id-IsDistinct t.id mapper v.distinct_mapper;
    sizes = omega (
      arith,
      length-erase_id t.id mapper v.distinct_mapper (ground (arith, v.mapped t.id)),
      v.sizes,
    );
  }

  known : IsTimerSet before → has t.id mapper ≡ true
  unfolding before
  known v = ground (arith, v.mapped t.id)

  fired-IsTimerSet :
      IsTimerSet before
      → IsTimerSet (record { timers = insert_timer fired timers; mapper = emplace_id t.id mapper })
  unfolding before fired
  fired-IsTimerSet v = record {
    sorted = insert_timer-IsSorted fired timers v.sorted.1;
    distinct = insert_timer-IsDistinct fired timers v.distinct.1 v.distinct.0;
    mapped = λ k.
        ground (arith, has-emplace_id k t.id mapper, has-insert_timer k fired timers, v.mapped k);
    distinct_mapper = emplace_id-IsDistinct t.id mapper v.distinct_mapper;
    sizes = rw (known v) (omega (arith, length-insert_timer fired timers, v.sizes));
  }

due-insert_timer :
    (now : ℕ) (t : Timer) (timers : List Timer)
    → now < t.deadline
    → due now (insert_timer t timers) ≡ due now timers
unfolding insert_timer due
due-insert_timer now t [] h = ground arith
due-insert_timer now t (u ∷ timers) h = ground (arith, h, due-insert_timer now t timers h)

due-waiting : (now : ℕ) (timers : List Timer) → AreWaiting now timers → due now timers ≡ []
unfolding due
due-waiting now [] h = refl
due-waiting now (t ∷ timers) h = ground (arith, h.0, due-waiting now timers h.1)

later_wait :
    (now deadline : ℕ) (timers : List Timer)
    → now < deadline
    → All (λ u. deadline ≤ u.deadline) timers
    → AreWaiting now timers
later_wait now deadline [] h hs = tt
later_wait now deadline (u ∷ timers) h hs =
    (omega (arith, h, hs.0), later_wait now deadline timers h hs.1)

module _ (w : World) (now : ℕ) (fires_later : FiresLater w now) where
  -- What the loop ends with.
  abbrev Ends : ℕ → ℕ → List Timer → List ℕ → Type 0
  Ends rounds round timers mapper =
      (last : TimerSet) × (timer_loop rounds w now round
          (record { timers = timers; mapper = mapper })
        ≡ some (tasks w round (due now timers), last))
      × IsTimerSet last
      × AreWaiting now last.timers

  loop_stops :
      (rounds round : ℕ) (timers : List Timer) (mapper : List ℕ)
      → IsTimerSet (record { timers = timers; mapper = mapper })
      → AreWaiting now timers
      → Ends (suc rounds) round timers mapper
  unfolding timer_loop tasks
  loop_stops rounds round [] mapper v waiting =
      let s : TimerSet = record { timers = []; mapper = mapper } in
      (s, ap (λ l. some (tasks w round l, s)) (sym (due-waiting now [] tt)), v, tt)
  loop_stops rounds round (t ∷ timers) mapper v waiting =
      let early : expired now t ≡ false = unfold expired in ground (arith, waiting.0) in
      (
        record { timers = t ∷ timers; mapper = mapper },
        rw (timer_loop, early)
            (ap (λ l. some (tasks w round l, record { timers = t ∷ timers; mapper = mapper }))
              (sym (due-waiting now (t ∷ timers) waiting))),
        v,
        waiting,
      )

  loop_step :
      (rounds round : ℕ) (t : Timer) (timers : List Timer) (mapper : List ℕ) (found : List ℕ)
      (last : TimerSet)
      → expired now t ≡ true
      → timer_loop rounds w now (round + 1) (timer_round w round t timers mapper).1
        ≡ some (found, last)
      → timer_loop (suc rounds) w now round (record { timers = t ∷ timers; mapper = mapper })
        ≡ some (if (timer_round w round t timers mapper).0 then t.id ∷ found else found, last)
  unfolding timer_loop
  loop_step rounds round t timers mapper found last e e' = rw (timer_loop, e, e') refl

  tasks_first :
      (round : ℕ) (t : Timer) (timers : List Timer)
      → t.deadline ≤ now
      → (if not (w.cancelled round t.id || w.executor_off round t.id)
          then t.id ∷ tasks w (round + 1) (due now timers)
          else tasks w (round + 1) (due now timers))
        ≡ tasks w round (due now (t ∷ timers))
  unfolding tasks due
  tasks_first round t timers h = ground arith

  due_fewer :
      (t : Timer) (timers : List Timer)
      → t.deadline ≤ now
      → length (due now (t ∷ timers)) ≡ suc (length (due now timers))
  unfolding due
  due_fewer t timers late = ground arith

  -- A round for a timer that is due, and the rounds behind it.
  round-Ends :
      (rounds round : ℕ) (t : Timer) (timers : List Timer) (mapper : List ℕ) (s : TimerSet)
      → t.deadline ≤ now
      → timer_round w round t timers mapper
        ≡ (not (w.cancelled round t.id || w.executor_off round t.id), s)
      → due now s.timers ≡ due now timers
      → Ends rounds (round + 1) s.timers s.mapper
      → Ends (suc rounds) round (t ∷ timers) mapper
  round-Ends rounds round t timers mapper s late e same (last, e', v, waiting) =
      let now_due : expired now t ≡ true = unfold expired in ground (arith, late) in
      let rest : timer_loop rounds w now (round + 1) (timer_round w round t timers mapper).1
          ≡ some (tasks w (round + 1) (due now timers), last) =
        ap (λ x. timer_loop rounds w now (round + 1) x.1) e
        ∙ e'
        ∙ ap (λ l. some (tasks w (round + 1) l, last)) same in
      (
        last,
        loop_step rounds round t timers mapper (tasks w (round + 1) (due now timers)) last now_due
              rest
            ∙ ap
                (λ x. some (
                  if x.0
                      then t.id ∷ tasks w (round + 1) (due now timers)
                      else tasks w (round + 1) (due now timers),
                  last,
                ))
                e
            ∙ ap (λ l. some (l, last)) (tasks_first round t timers late),
        v,
        waiting,
      )

  loop-Ends :
      (rounds round : ℕ) (timers : List Timer) (mapper : List ℕ)
      → IsTimerSet (record { timers = timers; mapper = mapper })
      → length (due now timers) < rounds
      → Ends rounds round timers mapper
  unfolding before fired
  loop-Ends zero round timers mapper v enough = absurd (omega arith)
  loop-Ends (suc rounds) round [] mapper v enough = loop_stops rounds round [] mapper v tt
  loop-Ends (suc rounds) round (t ∷ timers) mapper v enough = elim (dec_le t.deadline now) [
    | no early ↦
        loop_stops rounds round (t ∷ timers) mapper v
          (omega arith, later_wait now t.deadline timers (omega arith) v.sorted.0)
    | yes late ↦
        let fewer : length (due now timers) < rounds = omega (arith, due_fewer t timers late) in
        elim (Bool-cases (t.oneshot || w.cancelled round t.id)) [
          | inl gone ↦
              round-Ends rounds round t timers mapper
                (record { timers = timers; mapper = erase_id t.id mapper }) late
                (after_round w round t timers mapper
                  ∙ ap
                      (λ b. (
                        not (w.cancelled round t.id || w.executor_off round t.id),
                        after_choice w round t timers mapper b,
                      ))
                      gone)
                refl
                (loop-Ends rounds (round + 1) timers (erase_id t.id mapper)
                  (erased-IsTimerSet w round t timers mapper v) fewer)
          | inr stays ↦
              let others = insert_timer (fired w round t timers mapper) timers in
              let same : due now others ≡ due now timers =
                due-insert_timer now (fired w round t timers mapper) timers
                  (fires_later round t.id) in
              round-Ends rounds round t timers mapper
                (record { timers = others; mapper = emplace_id t.id mapper }) late
                (after_round w round t timers mapper
                  ∙ ap
                      (λ b. (
                        not (w.cancelled round t.id || w.executor_off round t.id),
                        after_choice w round t timers mapper b,
                      ))
                      stays)
                same
                (loop-Ends rounds (round + 1) others (emplace_id t.id mapper)
                  (fired-IsTimerSet w round t timers mapper v)
                  (omega (arith, fewer, ap length same)))
        ]
  ]

next_deadline_lem :
    (now : ℕ) (s : TimerSet)
    → IsTimerSet s
    → AreWaiting now s.timers
    → (now < next_deadline now s) × All (λ t. next_deadline now s ≤ t.deadline) s.timers
unfolding next_deadline hours
next_deadline_lem now s v waiting = by_timers s.timers s.mapper v.sorted waiting
  where
    by_timers :
        (timers : List Timer) (mapper : List ℕ)
        → IsSorted timers
        → AreWaiting now timers
        → (now < next_deadline now (record { timers = timers; mapper = mapper }))
          × All
              (λ t. next_deadline now (record { timers = timers; mapper = mapper }) ≤ t.deadline)
              timers
    by_timers [] mapper v waiting = (omega arith, tt)
    by_timers (t ∷ timers) mapper v waiting = (waiting.0, (omega arith, v.0))

-- `process_timers` ends, if it is given more rounds than timers are due: the set is one of timers by
-- deadline, no two the same, with an iterator of each, the timers added are new, and a timer that
-- fires gets a deadline in the future. Each timer that is due then has its turn once, in the order
-- of deadlines, and its task is posted unless it is cancelled or its executor is shutting down. The
-- set stays such a set, no timer of it is due, and the worker is told to wait until the least
-- deadline of the set, or a day if it is empty, which is in the future.
pub process_timers_ends :
    (w : World) (now rounds : ℕ) (requests : List TimerRequest) (s : TimerSet)
    → FiresLater w now
    → IsTimerSet s
    → AreFresh requests s
    → length (due now (process_request_queue requests s).timers) < rounds
    → (last : TimerSet) × (process_timers rounds w now requests s
        ≡ some (
          next_deadline now last,
          tasks w 0 (due now (process_request_queue requests s).timers),
          last,
        ))
      × IsTimerSet last
      × AreWaiting now last.timers
      × (now < next_deadline now last)
      × All (λ t. next_deadline now last ≤ t.deadline) last.timers
unfolding process_timers
process_timers_ends w now rounds requests s fires_later v fresh enough =
    let s' = process_request_queue requests s in
    let (last, e, v', waiting) =
      loop-Ends w now fires_later rounds 0 s'.timers s'.mapper
        (process_request_queue-IsTimerSet requests s v fresh) enough in
    let (later, least) = next_deadline_lem now last v' waiting in
    (last, rw (process_timers, e) refl, v', waiting, later, least)
