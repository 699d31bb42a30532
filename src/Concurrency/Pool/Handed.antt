-- ===== src/Concurrency/Pool/Handed.antt =====
-- What a worker of the pool has after tasks were handed to it.
use plain.Prelude.{
  ℕ, zero, suc, ◌<◌, ◌≡◌, ◌≢◌, refl, Bool, true, false, none, some, List, [], ◌∷◌, ◌++◌, length,
  length-set, get_elem?, get_elem?-set_self, get_elem?-set_ne, drop, arith,
}
use plain.Concurrency.Pool.Worker.{Worker, enqueue_foreign, release, is_empty, ensure_worker_active}
use plain.Concurrency.Pool.Share.{ThreadPool, enqueue_at, with_worker}

abbrev pub public_of : ThreadPool → ℕ → List ℕ
public_of p k = elim (get_elem? p.workers k) [ none ↦ [] | some w ↦ w.public_queue ]

abbrev pub private_of : ThreadPool → ℕ → List ℕ
private_of p k = elim (get_elem? p.workers k) [ none ↦ [] | some w ↦ w.private_queue ]

abbrev pub aborted_of : ThreadPool → ℕ → Bool
aborted_of p k = elim (get_elem? p.workers k) [ none ↦ false | some w ↦ w.abort ]

-- What worker `k` has in `q` behind what it had in `p`.
abbrev pub gained : ThreadPool → ThreadPool → ℕ → List ℕ
gained p q k = drop (length (public_of p k)) (public_of q k)

abbrev pub gained_all : ThreadPool → ThreadPool → List ℕ → List ℕ
gained_all p q [] = []
gained_all p q (k ∷ ks) = gained p q k ++ gained_all p q ks

-- Worker `k` has the tasks behind its own, and nothing else is changed that counts.
pub record IsHanded (p : ThreadPool) (k : ℕ) (tasks : List ℕ) (q : ThreadPool) : Type 0 where
  pub handed : public_of q k ≡ public_of p k ++ tasks
  pub others : (j : ℕ) → k ≢ j → get_elem? q.workers j ≡ get_elem? p.workers j
  pub own : private_of q k ≡ private_of p k
  pub aborts : aborted_of q k ≡ aborted_of p k
  pub many : length q.workers ≡ length p.workers

pub worker_at :
    (ws : List Worker) (k : ℕ) → k < length ws → (w : Worker) × (get_elem? ws k ≡ some w)
worker_at [] k h = absurd (omega arith)
worker_at (w ∷ ws) zero h = (w, refl)
worker_at (w ∷ ws) (suc k) h = worker_at ws k (omega arith)

enqueue_foreign_all :
    (tasks : List ℕ) (w : Worker)
    → w.abort ≡ false
    → (v : Worker) × (enqueue_foreign tasks w ≡ some v)
      × ((release v).public_queue ≡ w.public_queue ++ tasks)
      × ((release v).private_queue ≡ w.private_queue)
      × ((release v).abort ≡ w.abort)
unfolding enqueue_foreign ensure_worker_active release
enqueue_foreign_all tasks w h =
    let u : Worker = record w {
      task_found_or_abort = true;
      public_queue = w.public_queue ++ tasks;
    } in
    (
      ensure_worker_active (is_empty w.public_queue) u,
      simp h refl,
      ground arith,
      ground arith,
      ground arith,
    )

pub enqueue_at-IsHanded :
    (p : ThreadPool) (k : ℕ) (tasks : List ℕ)
    → k < length p.workers
    → aborted_of p k ≡ false
    → (q : ThreadPool) × (enqueue_at p k tasks ≡ some q) × IsHanded p k tasks q
unfolding enqueue_at
enqueue_at-IsHanded p k tasks h a =
    let (w, e) = worker_at p.workers k h in
    let (v, f, public, private, abort) = enqueue_foreign_all tasks w (rw (aborted_of, e) at a) in
    let self = get_elem?-set_self p.workers k (release v) h in
    (
      with_worker p k (release v),
      rw (enqueue_at, e) (rw f refl),
      record {
        handed = rw (public_of, self, e) public;
        others = λ j d. get_elem?-set_ne p.workers k j (release v) d;
        own = rw (private_of, self, e) private;
        aborts = rw (aborted_of, self, e) abort;
        many = length-set p.workers k (release v);
      },
    )
