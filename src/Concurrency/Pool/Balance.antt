-- ===== src/Concurrency/Pool/Balance.antt =====
-- How evenly a worker shares its tasks with idle ones, and the pool those of a caller.
use plain.Prelude.{
  ℕ, suc, ◌+◌, ◌-◌, ◌*◌, ◌/◌, ◌≤◌, ◌<◌, ◌≡◌, ◌≢◌, ◌∙◌, refl, sym, ap, ap₂, inl, inr, true, false,
  none, some, List, [], ◌∷◌, ◌++◌, append-nil, All, length, length-drop, drop_all, take, drop,
  take-append-drop, get_elem?, get_elem?-set_self, get_elem?-set_ne, min, ltb, ◌==◌, ==_iff,
  Bool-cases, ◌⊎◌, arith,
}
use plain.Prelude.Sets.{has, IsDistinct}
use plain.Concurrency.Pool.Idle.{active, idle, flag_of, find_idle_workers}
use plain.Concurrency.Pool.Counted.{IsCounted}
use plain.Concurrency.Pool.FoundAll.{find_idle_workers-Takes, find_idle_workers_fills}
use plain.Concurrency.Pool.Worker.{Worker}
use plain.Concurrency.Pool.Share.{
  ThreadPool, with_worker, donate, erase_first, share_among, balance_worker, balance_work,
}
use plain.Concurrency.Pool.Handed.{worker_at, public_of, private_of, aborted_of, gained, gained_all}
use plain.Concurrency.Pool.Donated.{parts_end, AreFair, IsShared, donate-IsShared}
use mathlib.Core.Path.{subst}
use mathlib.Core.Bool.{false≢true}
use native.Mathlib.Decide.{ℕ_discrete}
use native.Mathlib.Nat.{mul_comm, div-add-mod, mod-lt}

-- A share and what is left over.
pub quotient : (n t : ℕ) → 0 < t → ((n / t) * t ≤ n) × (n - (n / t) * t < t)
quotient n t h =
    let whole = div-add-mod n t in
    let rest = mod-lt n h in
    let turned : (n / t) * t ≡ t * (n / t) = mul_comm (n / t) t in
    (omega (arith, whole, turned), omega (arith, whole, rest, turned))

-- The parts of `n` workers beside one that keeps its own.
fair_parts :
    (len n : ℕ)
    → n + 1 ≤ len
    → (1 ≤ len / (n + 1))
      × (parts_end n (len / (n + 1)) (len - len / (n + 1) * (n + 1)) 0 + len / (n + 1) ≡ len)
fair_parts len n h =
    let (fits, rest) = quotient len (n + 1) (omega arith) in
    (
      elim (ℕ_discrete (len / (n + 1)) 0) [
        | yes e ↦ absurd (omega (arith, rest, ap (λ t. t * (n + 1)) e, h))
        | no d ↦ ground (arith, d)
      ],
      omega (arith, fits, rest),
    )

-- Worker `i` has kept its last tasks and `chosen` have the others, in order and in fair parts.
pub record IsBalancing (p : ThreadPool) (i : ℕ) (chosen : List ℕ) (q : ThreadPool) : Type 0 where
  pub all_shared : gained_all p q chosen ++ private_of q i ≡ private_of p i
  pub all_kept : (j : ℕ) → public_of q j ≡ public_of p j ++ gained p q j
  pub none_else : (j : ℕ) → has j chosen ≡ false → public_of q j ≡ public_of p j
  pub fair_parts : AreFair p q (length (private_of q i)) chosen
  pub keeps_one : min 1 (length (private_of p i)) ≤ length (private_of q i)

pub All-has : {P : ℕ → Type 0} (xs : List ℕ) → ((k : ℕ) → has k xs ≡ true → P k) → All P xs
All-has [] h = tt
All-has (x ∷ xs) h = (h x (ground arith), All-has xs (λ k g. h k (ground (arith, g))))

module _ (q : ThreadPool) (i n : ℕ) (inside : i < length q.workers) where
  erase_first-at :
      (w : Worker)
      → get_elem? q.workers i ≡ some w
      → erase_first q i n ≡ with_worker q i (record w { private_queue = drop n w.private_queue })
  erase_first-at w e = rw (erase_first, e) refl

  erase_first-public : (j : ℕ) → public_of (erase_first q i n) j ≡ public_of q j
  erase_first-public j =
      let (w, e) = worker_at q.workers i inside in
      let v : Worker = record w { private_queue = drop n w.private_queue } in
      rw (erase_first-at w e) (elim (ℕ_discrete i j) [
        | yes same ↦
            subst (λ k. public_of (with_worker q i v) k ≡ public_of q k) same
              (rw (public_of, get_elem?-set_self q.workers i v inside, e) refl)
        | no differs ↦ rw (public_of, get_elem?-set_ne q.workers i j v differs) refl
      ])

  erase_first-private : private_of (erase_first q i n) i ≡ drop n (private_of q i)
  erase_first-private =
      let (w, e) = worker_at q.workers i inside in
      let v : Worker = record w { private_queue = drop n w.private_queue } in
      rw (erase_first-at w e) (rw (private_of, get_elem?-set_self q.workers i v inside, e) refl)

module _ (p q r : ThreadPool) (same : (j : ℕ) → public_of r j ≡ public_of q j) where
  gained-same : (k : ℕ) → gained p r k ≡ gained p q k
  gained-same k = ap (drop (length (public_of p k))) (same k)

  gained_all-same : (ks : List ℕ) → gained_all p r ks ≡ gained_all p q ks
  gained_all-same [] = refl
  gained_all-same (k ∷ ks) = ap₂ ◌++◌ (gained-same k) (gained_all-same ks)

  fair-same : (d : ℕ) (ks : List ℕ) → AreFair p q d ks → AreFair p r d ks
  fair-same d [] h = tt
  fair-same d (k ∷ ks) h = (
    subst (λ xs. (d ≤ length xs) × (length xs ≤ d + 1)) (sym (gained-same k)) h.0,
    fair-same d ks h.1,
  )

-- The tasks left are those behind the parts.
IsShared-erased :
    (p q : ThreadPool) (i : ℕ) (chosen : List ℕ) (d f : ℕ)
    → i < length q.workers
    → 1 ≤ d
    → f + d ≡ length (private_of p i)
    → IsShared p chosen d 0 f (private_of p i) q
    → IsBalancing p i chosen (erase_first q i f)
IsShared-erased p q i chosen d f inside positive whole s =
    let public = erase_first-public q i f inside in
    let left : private_of (erase_first q i f) i ≡ drop f (private_of p i) =
      erase_first-private q i f inside ∙ ap (drop f) (s.owns_same i) in
    let many : length (private_of (erase_first q i f) i) ≡ d =
      ap length left ∙ length-drop f (private_of p i) ∙ omega (arith, whole) in
    record {
      all_shared =
          ap₂ ◌++◌
            (gained_all-same p q (erase_first q i f) public chosen
              ∙ s.parts
              ∙ ap (λ k. take k (private_of p i)) {y = f} (omega arith))
            left
          ∙ take-append-drop f (private_of p i);
      all_kept = λ j.
          public j
          ∙ s.kept_publics j
          ∙ ap (λ t. public_of p j ++ t) (sym (gained-same p q (erase_first q i f) public j));
      none_else = λ j h.
          public j
          ∙ ap (λ o. elim o as (λ _. List ℕ) [ none ↦ [] | some w ↦ w.public_queue ])
              (s.untouched j h);
      fair_parts =
          subst (λ k. AreFair p (erase_first q i f) k chosen) (sym many)
            (fair-same p q (erase_first q i f) public d chosen s.fair);
      keeps_one = omega (arith, many, positive);
    }

nothing-IsBalancing : (p : ThreadPool) (i : ℕ) → IsBalancing p i [] p
nothing-IsBalancing p i = record {
  all_shared = refl;
  all_kept = λ j. sym (
      ap (λ t. public_of p j ++ t) (drop_all (length (public_of p j)) (public_of p j) (omega arith))
      ∙ append-nil (public_of p j));
  none_else = λ j h. refl;
  fair_parts = tt;
  keeps_one = omega arith;
}

share_among-next :
    (p q : ThreadPool) (i k : ℕ) (ks : List ℕ) (f : ℕ) (tasks : List ℕ)
    → donate
        (k ∷ ks)
        (length tasks / (suc (length ks) + 1))
        (length tasks - length tasks / (suc (length ks) + 1) * (suc (length ks) + 1))
        0
        (length tasks / (suc (length ks) + 1))
        tasks
        p
      ≡ (q, f, false)
    → share_among (k ∷ ks) i tasks p ≡ (erase_first q i f, false)
unfolding share_among
share_among-next p q i k ks f tasks h =
    let more : (suc (length ks) == 0) ≡ false = ground arith in rw (share_among, more, h) refl

share_among-IsBalancing :
    (p : ThreadPool) (i : ℕ) (chosen : List ℕ)
    → i < length p.workers
    → IsDistinct chosen
    → All (λ k. k < length p.workers) chosen
    → ((j : ℕ) → aborted_of p j ≡ false)
    → length chosen + 1 ≤ length (private_of p i)
    → (q : ThreadPool) × (share_among chosen i (private_of p i) p ≡ (q, false))
      × IsBalancing p i chosen q
unfolding share_among
share_among-IsBalancing p i [] inside distinct all live room = (p, refl, nothing-IsBalancing p i)
share_among-IsBalancing p i (k ∷ ks) inside distinct all live room =
    let tasks = private_of p i in
    let t = suc (length ks) + 1 in
    let d = length tasks / t in
    let x = length tasks - d * t in
    let f = parts_end (suc (length ks)) d x 0 in
    let (positive, whole) = fair_parts (length tasks) (suc (length ks)) room in
    let (q, eq, s) =
      donate-IsShared (k ∷ ks) d x 0 tasks p distinct all live (omega (arith, whole)) in
    (
      erase_first q i f,
      share_among-next p q i k ks f tasks
          (ap (λ e. donate (k ∷ ks) d x 0 e tasks p) {x = d} (omega arith) ∙ eq),
      IsShared-erased p q i (k ∷ ks) d f (omega (arith, s.same_many, inside)) positive whole s,
    )

balance_work-at :
    (p : ThreadPool) (i : ℕ) (w : Worker)
    → get_elem? p.workers i ≡ some w
    → balance_work p i ≡ balance_worker i w p
unfolding balance_work
balance_work-at p i w e = rw (balance_work, e) refl

balance_worker_few :
    (i : ℕ) (w : Worker) (p : ThreadPool)
    → ltb (length w.private_queue) 2 ≡ true
    → balance_worker i w p ≡ (p, false)
unfolding balance_worker
balance_worker_few i w p h = simp h refl

balance_worker_alone :
    (i : ℕ) (w : Worker) (p : ThreadPool)
    → ltb (length w.private_queue) 2 ≡ false
    → (min (length p.workers - 1) (length w.private_queue - 1) == 0) ≡ true
    → balance_worker i w p ≡ (p, false)
unfolding balance_worker
balance_worker_alone i w p h g = simp (h, g) refl

balance_worker_found :
    (i : ℕ) (w : Worker) (p : ThreadPool) (found : List ℕ)
    → ltb (length w.private_queue) 2 ≡ false
    → (min (length p.workers - 1) (length w.private_queue - 1) == 0) ≡ false
    → (find_idle_workers p.idle_workers i []
        (min (length p.workers - 1) (length w.private_queue - 1))).1
      ≡ found
    → balance_worker i w p
      ≡ share_among found i w.private_queue (record p {
        idle_workers =
            (find_idle_workers p.idle_workers i []
              (min (length p.workers - 1) (length w.private_queue - 1))).0;
      })
unfolding balance_worker
balance_worker_found i w p found h g e = simp (h, g, e) refl

-- As many workers as worker `i` of `p` looks for when it shares its tasks.
abbrev pub wanted : ThreadPool → ℕ → ℕ
wanted p i = min (length p.workers - 1) (length (private_of p i) - 1)

-- A worker that balances its work, in a pool whose set of idle workers is counted and in which no
-- worker is shut down, gives distinct idle workers its first tasks in order and keeps the last: no
-- task is lost, the queues of the others are untouched, the parts differ by one at most, and a
-- worker that had tasks keeps one. It chooses as many as there are idle workers by the count, other
-- workers in the pool, and tasks beyond the first, whichever is least; or it leaves no other worker
-- idle.
pub balance_work_is_fair :
    (p : ThreadPool) (i : ℕ)
    → IsCounted p.idle_workers
    → p.idle_workers.size ≡ length p.workers
    → i < length p.workers
    → ((j : ℕ) → aborted_of p j ≡ false)
    → (chosen : List ℕ) × (q : ThreadPool) × (balance_work p i ≡ (q, false))
      × IsDistinct chosen
      × ((k : ℕ) → has k chosen ≡ true → (k ≢ i) × (flag_of p.idle_workers k ≡ idle))
      × IsBalancing p i chosen q
      × ((length chosen ≡ min p.idle_workers.approx_size (wanted p i))
          ⊎ ((k : ℕ)
              → k < length p.workers
              → k ≢ i
              → has k chosen ≡ false
              → flag_of p.idle_workers k ≡ active))
unfolding balance_work balance_worker
balance_work_is_fair p i c sized inside live =
    let (w, e) = worker_at p.workers i inside in
    let own : private_of p i ≡ w.private_queue =
      ap (λ o. elim o as (λ _. List ℕ) [ none ↦ [] | some w ↦ w.private_queue ]) e in
    let count = length w.private_queue in
    let room = min (length p.workers - 1) (count - 1) in
    let asked : wanted p i ≡ room = ap (λ xs. min (length p.workers - 1) (length xs - 1)) own in
    let (found, eq, t) =
      find_idle_workers-Takes p.idle_workers i [] room c (omega (arith, sized, inside)) in
    let r = find_idle_workers p.idle_workers i [] room in
    let p' : ThreadPool = record p { idle_workers = r.0 } in
    let whole : balance_work p i ≡ balance_worker i w p = balance_work-at p i w e in
    let nobody_wanted : room ≡ 0 → length {A = ℕ} [] ≡ min p.idle_workers.approx_size (wanted p i) =
      λ h. ground (arith, asked, h) in
    elim (Bool-cases (ltb count 2)) [
      | inl few ↦ (
        [],
        p,
        whole ∙ balance_worker_few i w p few,
        tt,
        (λ k h. absurd (false≢true h)),
        nothing-IsBalancing p i,
        inl (nobody_wanted (ground (arith, few))),
      )
      | inr many ↦ elim (Bool-cases (room == 0)) [
        | inl nobody ↦ (
          [],
          p,
          whole ∙ balance_worker_alone i w p many nobody,
          tt,
          (λ k h. absurd (false≢true h)),
          nothing-IsBalancing p i,
          inl (nobody_wanted ((==_iff room 0).0 nobody)),
        )
        | inr some_room ↦
            let (q, eqs, s) =
              share_among-IsBalancing p' i found inside t.distinct
                (All-has found (λ k h. omega (arith, t.below k h, sized))) live
                (rw own (ground (arith, t.few, many, some_room))) in
            (
              found,
              q,
              whole
                  ∙ balance_worker_found i w p found many some_room eq
                  ∙ ap (λ xs. share_among found i xs p') (sym own)
                  ∙ eqs,
              t.distinct,
              (λ k h. (t.others k h, t.were_idle k h)),
              record {
                all_shared = s.all_shared;
                all_kept = s.all_kept;
                none_else = s.none_else;
                fair_parts = s.fair_parts;
                keeps_one = s.keeps_one;
              },
              elim (find_idle_workers_fills p.idle_workers i room c
                  (omega (arith, sized, inside))) [
                    | inl full ↦ inl (
                        sym (ap length eq) ∙ full ∙ ap (min p.idle_workers.approx_size) (sym asked))
                    | inr over ↦ inr (λ k below d other.
                        sym (t.unchanged k other) ∙ over k (omega (arith, sized, below)) d)
                  ],
            )
      ]
    ]
