-- ===== src/Concurrency/Pool/Enqueue.antt =====
-- Where the tasks of a caller that is no thread of the pool go.
use plain.Prelude.{
  ℕ, zero, suc, ◌+◌, ◌-◌, ◌*◌, ◌/◌, ◌%◌, ◌^◌, ◌≤◌, ◌<◌, ◌≡◌, ◌≢◌, ◌∙◌, refl, ap, ◌⊎◌, inl, inr,
  Bool, true, false, none, some, List, [], ◌∷◌, ◌++◌, All, length, get_elem?, take_all, ltb, ◌==◌,
  Bool-cases, arith,
}
use plain.Prelude.Sets.{has, IsDistinct}
use plain.Concurrency.Pool.Idle.{active, idle, npos, flag_of, find_idle_worker}
use plain.Concurrency.Pool.Counted.{IsCounted}
use plain.Concurrency.Pool.Found.{find_idle_worker_finds}
use plain.Concurrency.Pool.Worker.{Worker}
use plain.Concurrency.Pool.Share.{
  ThreadPool, donate, count_up, enqueue_at, enqueue_any, enqueue, enqueue_span, share_span,
}
use plain.Concurrency.Pool.Handed.{
  private_of, aborted_of, gained_all, IsHanded, enqueue_at-IsHanded,
}
use plain.Concurrency.Pool.Donated.{parts_end, AreFair, donate-IsShared}
use plain.Concurrency.Pool.Balance.{quotient, All-has}
use mathlib.Core.Bool.{false≢true}
use native.Mathlib.Nat.{mod-lt, mul_comm}

count_up-has : (n i k : ℕ) → has k (count_up n i) ≡ true → (i ≤ k) × (k < i + n)
count_up-has zero i k h = absurd (false≢true h)
count_up-has (suc n) i k h = elim (Bool-cases (k == i)) [
  | inl same ↦ ground (arith, same)
  | inr other ↦
      let (low, high) = count_up-has n (suc i) k (rw other at h) in (omega arith, omega arith)
]

count_up-IsDistinct : (n i : ℕ) → IsDistinct (count_up n i)
count_up-IsDistinct zero i = tt
count_up-IsDistinct (suc n) i = (
  elim (Bool-cases (has i (count_up n (suc i)))) [
    | inl h ↦ absurd (omega (arith, count_up-has n (suc i) i h))
    | inr h ↦ h
  ],
  count_up-IsDistinct n (suc i),
)

length-count_up : (n i : ℕ) → length (count_up n i) ≡ n
length-count_up zero i = refl
length-count_up (suc n) i = ap suc (length-count_up n (suc i))

enqueue_span_large :
    (hashed_id : ℕ) (tasks : List ℕ) (p : ThreadPool)
    → ltb (length tasks) (length p.workers) ≡ false
    → (q : ThreadPool) (e : ℕ)
    → donate
        (count_up (length p.workers) 0)
        (length tasks / length p.workers)
        (length tasks - length tasks / length p.workers * length p.workers)
        0
        (length tasks / length p.workers)
        tasks
        p
      ≡ (q, e, false)
    → enqueue_span hashed_id none tasks p ≡ (q, false)
unfolding enqueue_span share_span
enqueue_span_large hashed_id tasks p h q e d = rw h (ap (λ r. (r.0, r.2)) d)

-- At least as many tasks as there are workers, enqueued together by a thread that is not of a pool
-- in which no worker is shut down, reach the workers in order: the first worker gets the first part,
-- no task is lost, and the parts differ by one at most.
pub enqueued_span_is_shared :
    (hashed_id : ℕ) (tasks : List ℕ) (p : ThreadPool)
    → 0 < length p.workers
    → length p.workers ≤ length tasks
    → ((j : ℕ) → aborted_of p j ≡ false)
    → (q : ThreadPool) × (enqueue_span hashed_id none tasks p ≡ (q, false))
      × (gained_all p q (count_up (length p.workers) 0) ≡ tasks)
      × AreFair p q (length tasks / length p.workers) (count_up (length p.workers) 0)
      × ((j : ℕ) → private_of q j ≡ private_of p j)
unfolding enqueue_span share_span
enqueued_span_is_shared hashed_id tasks p some_worker enough live =
    let n = length p.workers in
    let d = length tasks / n in
    let x = length tasks - d * n in
    let ks = count_up n 0 in
    let (fits, rest) = quotient (length tasks) n some_worker in
    let many = length-count_up n 0 in
    let whole : parts_end n d x 0 ≡ length tasks = omega (arith, fits, rest, mul_comm n d) in
    let whole' : parts_end (length ks) d x 0 ≡ length tasks =
      ap (λ k. parts_end k d x 0) many ∙ whole in
    let inside : All (λ k. k < length p.workers) ks =
      All-has ks (λ k h. let (low, high) = count_up-has n 0 k h in omega arith) in
    let (q, eq, s) =
      donate-IsShared ks d x 0 tasks p (count_up-IsDistinct n 0) inside live
        (omega (arith, whole')) in
    (
      q,
      enqueue_span_large hashed_id tasks p (ground (arith, enough)) q (parts_end (length ks) d x 0)
          (ap (λ e. donate ks d x 0 e tasks p) {x = d} (omega arith) ∙ eq),
      s.parts ∙ take_all (parts_end (length ks) d x 0 - 0) tasks (omega (arith, whole')),
      s.fair,
      s.owns_same,
    )

enqueue-none_idle :
    (hashed_id task : ℕ) (p : ThreadPool)
    → (find_idle_worker hashed_id p.idle_workers npos).1 ≡ npos
    → enqueue hashed_id none task p
      ≡ enqueue_at
          (record p {
            idle_workers = (find_idle_worker hashed_id p.idle_workers npos).0;
            round_robin_cursor = (p.round_robin_cursor + 1) % 2 ^ 64;
          })
          (p.round_robin_cursor % length p.workers)
          (task ∷ [])
unfolding enqueue enqueue_any
enqueue-none_idle hashed_id task p h = simp h refl

enqueue_idle :
    (hashed_id task : ℕ) (p : ThreadPool)
    → (find_idle_worker hashed_id p.idle_workers npos).1 ≢ npos
    → enqueue hashed_id none task p
      ≡ enqueue_at
          (record p { idle_workers = (find_idle_worker hashed_id p.idle_workers npos).0 })
          (find_idle_worker hashed_id p.idle_workers npos).1
          (task ∷ [])
unfolding enqueue enqueue_any
enqueue_idle hashed_id task p h = ground (arith, h)

abbrev public_in : List Worker → ℕ → List ℕ
public_in ws k = elim (get_elem? ws k) [ none ↦ [] | some w ↦ w.public_queue ]

abbrev private_in : List Worker → ℕ → List ℕ
private_in ws k = elim (get_elem? ws k) [ none ↦ [] | some w ↦ w.private_queue ]

abbrev aborted_in : List Worker → ℕ → Bool
aborted_in ws k = elim (get_elem? ws k) [ none ↦ false | some w ↦ w.abort ]

-- In a pool that differs in the set of idle workers and the cursor only.
IsHanded-workers :
    (p r : ThreadPool) (k : ℕ) (tasks : List ℕ) (q : ThreadPool)
    → r.workers ≡ p.workers
    → IsHanded r k tasks q
    → IsHanded p k tasks q
IsHanded-workers p r k tasks q e one = record {
  handed = one.handed ∙ ap (λ ws. public_in ws k ++ tasks) e;
  others = λ j d. one.others j d ∙ ap (λ ws. get_elem? ws j) e;
  own = one.own ∙ ap (λ ws. private_in ws k) e;
  aborts = one.aborts ∙ ap (λ ws. aborted_in ws k) e;
  many = one.many ∙ ap length e;
}

-- One task, enqueued by a thread that is not of a pool whose set of idle workers is counted and in
-- which no worker is shut down, comes to stand last in the public queue of one worker and nothing
-- else is handed on; that worker was idle, or no worker was.
pub task_reaches_worker :
    (hashed_id task : ℕ) (p : ThreadPool)
    → IsCounted p.idle_workers
    → p.idle_workers.size ≡ length p.workers
    → 0 < length p.workers
    → ((j : ℕ) → aborted_of p j ≡ false)
    → (k : ℕ) × (q : ThreadPool) × (enqueue hashed_id none task p ≡ some q)
      × (k < length p.workers)
      × IsHanded p k (task ∷ []) q
      × ((flag_of p.idle_workers k ≡ idle)
          ⊎ ((j : ℕ) → j < length p.workers → flag_of p.idle_workers j ≡ active))
unfolding enqueue enqueue_any
task_reaches_worker hashed_id task p c sized some_worker live =
    let r = find_idle_worker hashed_id p.idle_workers npos in
    let (took, missed) =
      find_idle_worker_finds hashed_id p.idle_workers npos c (omega (arith, sized, some_worker))
        (inr refl) in
    let p' : ThreadPool = record p { idle_workers = r.0 } in
    elim took [
      | inl (nobody, same) ↦
          let next = p.round_robin_cursor % length p.workers in
          let p'' : ThreadPool = record p' {
            round_robin_cursor = (p.round_robin_cursor + 1) % 2 ^ 64;
          } in
          let inside : next < length p.workers = mod-lt p.round_robin_cursor some_worker in
          let (q, eq, one) = enqueue_at-IsHanded p'' next (task ∷ []) inside (live next) in
          (
            next,
            q,
            enqueue-none_idle hashed_id task p nobody ∙ eq,
            inside,
            IsHanded-workers p p'' next (task ∷ []) q refl one,
            inr (λ j h.
                missed nobody j (omega (arith, sized, h))
                  (λ v. omega (arith, v, h, sized, c.small))),
          )
      | inr (below, other, was_idle, after) ↦
          let inside : r.1 < length p.workers = omega (arith, sized, below) in
          let (q, eq, one) = enqueue_at-IsHanded p' r.1 (task ∷ []) inside (live r.1) in
          (
            r.1,
            q,
            enqueue_idle hashed_id task p (λ v. omega (arith, v, below, c.small)) ∙ eq,
            inside,
            IsHanded-workers p p' r.1 (task ∷ []) q refl one,
            inl was_idle,
          )
    ]
