-- ===== src/Net/Manager/Balance.antt =====
-- The balance of work: no connection waits while there is room for its job, whatever the order of
-- the steps, and all waiting connections get their turn.
use plain.Prelude.{
  ℕ, ◌+◌, ◌≤◌, ◌<◌, ◌≡◌, refl, ap, ◌⊎◌, inl, inr, true, false, ◌||◌, Option, none, some, List, [],
  ◌∷◌, ◌++◌, length, length-append, ltb, ◌==◌, Bool-cases, arith,
}
use plain.Prelude.Sets.{erase_id}
use plain.Net.Manager.{
  WorkQueue, enqueue, pop_work_id, push_work_id, give_job, count_down, next_call, Step, asks, ends,
  returns, stops, Steps, at_start, and_then, new_queue,
}
use mathlib.Core.Bool.{false≢true}
use plain.Net.Manager.Line.{
  IsBalancedBut, IsBalanced, give_job-IsBalanced, push_work_id-IsBalanced, at_rest, popped,
  popped-IsBalanced, List-cases,
}

room_test :
    (b : WorkQueue)
    → (b.max_count ≡ 0) ⊎ (b.count < b.max_count)
    → ((b.max_count == 0) || ltb b.count b.max_count) ≡ true
room_test b room = ground arith

full_test :
    (b : WorkQueue)
    → 0 < b.max_count
    → b.max_count ≤ b.count
    → ((b.max_count == 0) || ltb b.count b.max_count) ≡ false
full_test b limit full = ground arith

pop_some :
    (b : WorkQueue) (id : ℕ) (rest : List ℕ)
    → b.waiting ≡ id ∷ rest
    → pop_work_id b
      ≡ (some id, record b { waiting = rest; waiting_ids = erase_id id b.waiting_ids })
unfolding pop_work_id
pop_some b id rest e = ground (arith, e)

pop_none : (b : WorkQueue) → b.waiting ≡ [] → pop_work_id b ≡ (none, b)
unfolding pop_work_id
pop_none b e = ground (arith, e)

-- The branches of `enqueue`.
module _ (b : WorkQueue) where
  enqueue_off : (call : Option ℕ) → b.running ≡ false → enqueue call b ≡ b
  unfolding enqueue
  enqueue_off call off = rw (enqueue, off) refl

  enqueue_full :
      (call : Option ℕ)
      → b.running ≡ true
      → 0 < b.max_count
      → b.max_count ≤ b.count
      → enqueue call b ≡ elim call as (λ _. WorkQueue) [ none ↦ b | some id ↦ push_work_id id b ]
  unfolding enqueue
  enqueue_full call on limit full = simp (on, full_test b limit full) refl

  enqueue_gives :
      (id : ℕ)
      → b.running ≡ true
      → (b.max_count ≡ 0) ⊎ (b.count < b.max_count)
      → enqueue (some id) b ≡ give_job id b
  unfolding enqueue
  enqueue_gives id on room = simp (on, room_test b room) refl

  pub enqueue_pops :
      (id : ℕ) (rest : List ℕ)
      → b.running ≡ true
      → (b.max_count ≡ 0) ⊎ (b.count < b.max_count)
      → b.waiting ≡ id ∷ rest
      → enqueue none b
        ≡ give_job id (record b { waiting = rest; waiting_ids = erase_id id b.waiting_ids })
  unfolding enqueue
  enqueue_pops id rest on room e = simp (on, room_test b room, pop_some b id rest e) refl

  pub enqueue_nobody :
      b.running ≡ true
      → (b.max_count ≡ 0) ⊎ (b.count < b.max_count)
      → b.waiting ≡ []
      → enqueue none b ≡ b
  unfolding enqueue
  enqueue_nobody on room e = simp (on, room_test b room, pop_none b e) refl

room_or_full :
    (b : WorkQueue)
    → (b.max_count ≡ 0) ⊎ (b.count < b.max_count) ⊎ (0 < b.max_count) × (b.max_count ≤ b.count)
room_or_full b = ground arith

enqueue_with_room :
    (call : Option ℕ) (b : WorkQueue)
    → IsBalancedBut 1 b
    → b.running ≡ true
    → (b.max_count ≡ 0) ⊎ (b.count < b.max_count)
    → IsBalanced (enqueue call b)
unfolding popped
enqueue_with_room (some id) b v on room =
    rw (enqueue_gives b id on room) (give_job-IsBalanced b v id room)
enqueue_with_room none b v on room = elim (List-cases b.waiting) [
  | inl e ↦ rw (enqueue_nobody b on room e) (at_rest b v (inl (ap length e)))
  | inr (id, rest, e) ↦
      rw (enqueue_pops b id rest on room e)
        (give_job-IsBalanced (popped b v id rest e) (popped-IsBalanced b v id rest e) id room)
]

enqueue_when_full :
    (call : Option ℕ) (b : WorkQueue)
    → IsBalancedBut 1 b
    → b.running ≡ true
    → 0 < b.max_count
    → b.max_count ≤ b.count
    → IsBalanced (enqueue call b)
enqueue_when_full (some id) b v on limit full =
    rw (enqueue_full b (some id) on limit full) (push_work_id-IsBalanced b v id full limit)
enqueue_when_full none b v on limit full =
    rw (enqueue_full b none on limit full) (at_rest b v (inr (inl full)))

pub enqueue-IsBalanced :
    (call : Option ℕ) (b : WorkQueue) → IsBalancedBut 1 b → IsBalanced (enqueue call b)
enqueue-IsBalanced call b v = elim (Bool-cases b.running) [
  | inr off ↦ rw (enqueue_off b call off) (at_rest b v (inr (inr off)))
  | inl on ↦ elim (room_or_full b) [
    | inl unlimited ↦ enqueue_with_room call b v on (inl unlimited)
    | inr (inl below) ↦ enqueue_with_room call b v on (inr below)
    | inr (inr (limit, full)) ↦ enqueue_when_full call b v on limit full
  ]
]

IsBalancedBut-one : (b : WorkQueue) → IsBalanced b → IsBalancedBut 1 b
IsBalancedBut-one b v = record {
  counted = v.counted;
  limited = v.limited;
  busy = λ on waits. omega (arith, v.busy on waits);
  unlimited = v.unlimited;
  same_ids = v.same_ids;
  distinct = v.distinct;
}

pub length-middle :
    {A : Type 0} (x : A) (xs ys : List A) → length (xs ++ (x ∷ ys)) ≡ length (xs ++ ys) + 1
length-middle x xs ys = omega (arith, length-append xs (x ∷ ys), length-append xs ys)

-- What a step leaves.
Step-IsBalanced : (b b' : WorkQueue) → Step b b' → IsBalanced b → IsBalanced b'
unfolding count_down
Step-IsBalanced b b' (asks id _) v = enqueue-IsBalanced (some id) b (IsBalancedBut-one b v)
Step-IsBalanced b b' (ends id worked before after _ e) v = record {
  counted = omega (arith, v.counted, ap length e, length-middle id before after);
  limited = λ some_limit. omega (arith, v.limited some_limit);
  busy = λ on waits. omega (
    arith,
    v.busy on waits,
    v.counted,
    ap length e,
    length-middle id before after,
    length-append b.returning (next_call id worked ∷ []),
  );
  unlimited = v.unlimited;
  same_ids = v.same_ids;
  distinct = v.distinct;
}
Step-IsBalanced b b' (returns call before after _ e) v =
    enqueue-IsBalanced call (record b { returning = before ++ after })
      (record {
        counted = v.counted;
        limited = v.limited;
        busy = λ on waits.
            omega (arith, v.busy on waits, ap length e, length-middle call before after);
        unlimited = v.unlimited;
        same_ids = v.same_ids;
        distinct = v.distinct;
      })
Step-IsBalanced b b' (stops _) v = record {
  counted = v.counted;
  limited = v.limited;
  busy = λ on waits. absurd (false≢true on);
  unlimited = v.unlimited;
  same_ids = v.same_ids;
  distinct = v.distinct;
}

Steps-IsBalanced : (b b' : WorkQueue) → Steps b b' → IsBalanced b → IsBalanced b'
Steps-IsBalanced b b' (at_start _) v = v
Steps-IsBalanced b b' (and_then _ mid _ steps step) v =
    Step-IsBalanced mid b' step (Steps-IsBalanced b mid steps v)

new_queue-IsBalanced : (max_count : ℕ) → IsBalanced (new_queue max_count)
unfolding new_queue
new_queue-IsBalanced max_count = record {
  counted = refl;
  limited = λ some_limit. omega arith;
  busy = λ on waits. absurd (omega arith);
  unlimited = λ no_limit. refl;
  same_ids = λ k. refl;
  distinct = tt;
}

-- Whatever the order of requests, counting down, calls behind it and stopping, from a new manager:
-- the count is that of the jobs that the executor has and is within the limit, the set has exactly
-- the ids of the deque, of which no two are equal, nobody waits if there is no limit, and while the
-- manager runs and somebody waits, the jobs and the calls still to be made reach the limit.
pub reachable-IsBalanced :
    (max_count : ℕ) (b : WorkQueue) → Steps (new_queue max_count) b → IsBalanced b
reachable-IsBalanced max_count b steps =
    Steps-IsBalanced (new_queue max_count) b steps (new_queue-IsBalanced max_count)

-- A running manager with neither jobs nor calls to make.
pub nobody_when_empty :
    (b : WorkQueue)
    → IsBalanced b
    → b.running ≡ true
    → b.jobs ≡ []
    → b.returning ≡ []
    → b.waiting ≡ []
nobody_when_empty b v on no_jobs no_calls = elim (List-cases b.waiting) [
  | inl e ↦ e
  | inr (id, rest, e) ↦ absurd (
      omega (
        arith,
        v.unlimited,
        v.busy on (omega (arith, ap length e)),
        ap length e,
        v.counted,
        ap length no_jobs,
        ap length no_calls,
      ))
]
