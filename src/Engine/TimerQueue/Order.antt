-- ===== src/Engine/TimerQueue/Order.antt =====
-- The order of the timers, and that the map has an iterator of each.
use plain.Prelude.{
  ℕ, suc, ◌≤◌, ◌≡◌, ◌∙◌, refl, sym, ap, inl, inr, false, ◌||◌, List, [], ◌∷◌, length, All, ltb,
  ◌==◌, ==_iff, Bool-cases, arith,
}
use plain.Prelude.Sets.{
  has, erase_id, IsDistinct, has-emplace_id, has-erase_id, length-emplace_id, length-erase_id,
  emplace_id-IsDistinct, erase_id-IsDistinct, erase_id_absent,
}
use plain.Engine.TimerQueue.{
  Timer, TimerSet, insert_timer, erase_timer, TimerRequest, add, remove, add_timer_internal,
  remove_timer_internal, process_request_queue,
}

abbrev pub IsSorted : List Timer → Type 0
IsSorted [] = Unit
IsSorted (t ∷ timers) = All (λ u. t.deadline ≤ u.deadline) timers × IsSorted timers

abbrev pub ids : List Timer → List ℕ
ids [] = []
ids (t ∷ timers) = t.id ∷ ids timers

module _ (P : Timer → Type 0) where
  pub All-insert_timer :
      (t : Timer) (timers : List Timer) → P t → All P timers → All P (insert_timer t timers)
  unfolding insert_timer
  All-insert_timer t [] h hs = (h, tt)
  All-insert_timer t (u ∷ timers) h hs = elim (Bool-cases (ltb t.deadline u.deadline)) [
    | inl before ↦ rw before (h, hs)
    | inr behind ↦ rw behind (hs.0, All-insert_timer t timers h hs.1)
  ]

  pub All-erase_timer :
      (id : ℕ) (timers : List Timer) → All P timers → All P (erase_timer id timers)
  unfolding erase_timer
  All-erase_timer id [] hs = tt
  All-erase_timer id (u ∷ timers) hs = elim (Bool-cases (id == u.id)) [
    | inl same ↦ rw same hs.1
    | inr other ↦ rw other (hs.0, All-erase_timer id timers hs.1)
  ]

All-weaken :
    (a b : ℕ) (timers : List Timer)
    → a ≤ b
    → All (λ u. b ≤ u.deadline) timers
    → All (λ u. a ≤ u.deadline) timers
All-weaken a b [] h hs = tt
All-weaken a b (u ∷ timers) h hs = (omega (arith, h, hs.0), All-weaken a b timers h hs.1)

pub insert_timer-IsSorted :
    (t : Timer) (timers : List Timer) → IsSorted timers → IsSorted (insert_timer t timers)
unfolding insert_timer
insert_timer-IsSorted t [] v = (tt, tt)
insert_timer-IsSorted t (u ∷ timers) v = elim (Bool-cases (ltb t.deadline u.deadline)) [
  | inl before ↦
      let earlier : t.deadline ≤ u.deadline = ground (arith, before) in
      rw before ((earlier, All-weaken t.deadline u.deadline timers earlier v.0), v)
  | inr behind ↦ rw behind (
    All-insert_timer (λ x. u.deadline ≤ x.deadline) t timers (ground (arith, behind)) v.0,
    insert_timer-IsSorted t timers v.1,
  )
]

pub erase_timer-IsSorted :
    (id : ℕ) (timers : List Timer) → IsSorted timers → IsSorted (erase_timer id timers)
unfolding erase_timer
erase_timer-IsSorted id [] v = tt
erase_timer-IsSorted id (u ∷ timers) v = elim (Bool-cases (id == u.id)) [
  | inl same ↦ rw same v.1
  | inr other ↦ rw other (
    All-erase_timer (λ x. u.deadline ≤ x.deadline) id timers v.0,
    erase_timer-IsSorted id timers v.1,
  )
]

pub has-insert_timer :
    (k : ℕ) (t : Timer) (timers : List Timer)
    → has k (ids (insert_timer t timers)) ≡ ((k == t.id) || has k (ids timers))
unfolding insert_timer
has-insert_timer k t [] = refl
has-insert_timer k t (u ∷ timers) = elim (Bool-cases (ltb t.deadline u.deadline)) [
  | inl before ↦ rw before refl
  | inr behind ↦ rw behind (ground (arith, has-insert_timer k t timers))
]

pub ids-erase_timer :
    (id : ℕ) (timers : List Timer)
    → IsDistinct (ids timers)
    → ids (erase_timer id timers) ≡ erase_id id (ids timers)
unfolding erase_timer
ids-erase_timer id [] d = refl
ids-erase_timer id (u ∷ timers) d = elim (Bool-cases (id == u.id)) [
  | inl same ↦ rw same (
      sym (
        ap (λ k. erase_id k (ids timers)) ((==_iff id u.id).0 same)
        ∙ erase_id_absent u.id (ids timers) d.0))
  | inr other ↦ rw other (ap (λ l. u.id ∷ l) (ids-erase_timer id timers d.1))
]

pub insert_timer-IsDistinct :
    (t : Timer) (timers : List Timer)
    → IsDistinct (ids timers)
    → has t.id (ids timers) ≡ false
    → IsDistinct (ids (insert_timer t timers))
unfolding insert_timer
insert_timer-IsDistinct t [] d new = (refl, tt)
insert_timer-IsDistinct t (u ∷ timers) d new = elim (Bool-cases (ltb t.deadline u.deadline)) [
  | inl before ↦ rw before (new, d)
  | inr behind ↦ rw behind (
    ground (arith, new, d.0, has-insert_timer u.id t timers),
    insert_timer-IsDistinct t timers d.1 (ground (arith, new)),
  )
]

pub length-insert_timer :
    (t : Timer) (timers : List Timer)
    → length (ids (insert_timer t timers)) ≡ suc (length (ids timers))
unfolding insert_timer
length-insert_timer t [] = refl
length-insert_timer t (u ∷ timers) = elim (Bool-cases (ltb t.deadline u.deadline)) [
  | inl before ↦ rw before refl
  | inr behind ↦ rw behind (ap suc (length-insert_timer t timers))
]

-- The timers stand by deadline, no two are the same, and the map has just their ids.
pub record IsTimerSet (s : TimerSet) : Type 0 where
  pub sorted : IsSorted s.timers
  pub distinct : IsDistinct (ids s.timers)
  pub mapped : (k : ℕ) → has k s.mapper ≡ has k (ids s.timers)
  pub distinct_mapper : IsDistinct s.mapper
  pub sizes : length s.mapper ≡ length (ids s.timers)

pub add-IsTimerSet :
    (t : Timer) (s : TimerSet)
    → IsTimerSet s
    → has t.id s.mapper ≡ false
    → IsTimerSet (add_timer_internal t s)
unfolding add_timer_internal
add-IsTimerSet t s v new = record {
  sorted = insert_timer-IsSorted t s.timers v.sorted;
  distinct = insert_timer-IsDistinct t s.timers v.distinct (sym (v.mapped t.id) ∙ new);
  mapped = λ k.
      ground (arith, has-emplace_id k t.id s.mapper, has-insert_timer k t s.timers, v.mapped k);
  distinct_mapper = emplace_id-IsDistinct t.id s.mapper v.distinct_mapper;
  sizes =
      omega (arith, length-emplace_id t.id s.mapper new, length-insert_timer t s.timers, v.sizes);
}

pub remove-IsTimerSet :
    (id : ℕ) (s : TimerSet) → IsTimerSet s → IsTimerSet (remove_timer_internal id s)
unfolding remove_timer_internal
remove-IsTimerSet id s v = elim (Bool-cases (has id s.mapper)) [
  | inr unknown ↦ rw unknown v
  | inl known ↦ rw known (record {
    sorted = erase_timer-IsSorted id s.timers v.sorted;
    distinct =
        rw (ids-erase_timer id s.timers v.distinct)
          (erase_id-IsDistinct id (ids s.timers) v.distinct);
    mapped = λ k. ground (
      arith,
      has-erase_id k id s.mapper,
      has-erase_id k id (ids s.timers),
      ids-erase_timer id s.timers v.distinct,
      v.mapped k,
    );
    distinct_mapper = erase_id-IsDistinct id s.mapper v.distinct_mapper;
    sizes = omega (
      arith,
      ap length (ids-erase_timer id s.timers v.distinct),
      length-erase_id id s.mapper v.distinct_mapper known,
      length-erase_id id (ids s.timers) v.distinct (sym (v.mapped id) ∙ known),
      v.sizes,
    );
  })
]

-- Each timer that is added is not there then, as the source asserts.
abbrev pub AreFresh : List TimerRequest → TimerSet → Type 0
AreFresh [] s = Unit
AreFresh (add t ∷ requests) s =
    (has t.id s.mapper ≡ false) × AreFresh requests (add_timer_internal t s)
AreFresh (remove id ∷ requests) s = AreFresh requests (remove_timer_internal id s)

pub process_request_queue-IsTimerSet :
    (requests : List TimerRequest) (s : TimerSet)
    → IsTimerSet s
    → AreFresh requests s
    → IsTimerSet (process_request_queue requests s)
unfolding process_request_queue
process_request_queue-IsTimerSet [] s v fresh = v
process_request_queue-IsTimerSet (add t ∷ requests) s v fresh =
    process_request_queue-IsTimerSet requests (add_timer_internal t s)
      (add-IsTimerSet t s v fresh.0) fresh.1
process_request_queue-IsTimerSet (remove id ∷ requests) s v fresh =
    process_request_queue-IsTimerSet requests (remove_timer_internal id s)
      (remove-IsTimerSet id s v) fresh
