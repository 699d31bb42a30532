-- ===== src/Net/Manager/Line.antt =====
-- The line of waiting connections: when it is balanced, and that each operation on it makes up for one
-- call that is missing.
use plain.Prelude.{
  ℕ, ◌+◌, ◌≤◌, ◌<◌, ◌≡◌, ◌∙◌, refl, sym, ap, ◌⊎◌, inl, inr, true, false, ◌||◌, List, [], ◌∷◌, ◌++◌,
  length, length-append, Bool-cases, arith,
}
use plain.Prelude.Sets.{has, erase_id, IsDistinct, has-place, has-erase_id}
use plain.Net.Manager.{WorkQueue, push_work_id, give_job}
use mathlib.Core.Path.{subst}
use mathlib.Core.Bool.{false≢true}
use native.Mathlib.Decide.{ℕ_discrete}

-- The count is that of the jobs and keeps the limit. With a limit and a running manager, some
-- connection waits only if the jobs, together with the calls that are still to be made and `extra`
-- ones, reach the limit. The set has the ids of the deque.
pub record IsBalancedBut (extra : ℕ) (b : WorkQueue) : Type 0 where
  pub counted : b.count ≡ length b.jobs
  pub limited : 0 < b.max_count → b.count ≤ b.max_count
  pub busy :
      b.running ≡ true → 0 < length b.waiting → b.max_count ≤ b.count + length b.returning + extra
  pub unlimited : b.max_count ≡ 0 → length b.waiting ≡ 0
  pub same_ids : (k : ℕ) → has k b.waiting_ids ≡ has k b.waiting
  pub distinct : IsDistinct b.waiting

abbrev pub IsBalanced : WorkQueue → Type 0
IsBalanced b = IsBalancedBut 0 b

has-append : (k : ℕ) (xs ys : List ℕ) → has k (xs ++ ys) ≡ (has k xs || has k ys)
has-append k [] ys = refl
has-append k (x ∷ xs) ys = ground (arith, has-append k xs ys)

IsDistinct-snoc :
    (k : ℕ) (xs : List ℕ) → IsDistinct xs → has k xs ≡ false → IsDistinct (xs ++ (k ∷ []))
IsDistinct-snoc k [] d h = (refl, tt)
IsDistinct-snoc k (x ∷ xs) d h =
    ground
      (arith, d, h, has-append x xs (k ∷ []), λ (q : has k xs ≡ false). IsDistinct-snoc k xs d.1 q)

-- One call of `enqueue` makes up for one that is missing.
module _ (b : WorkQueue) (v : IsBalancedBut 1 b) where
  pub give_job-IsBalanced :
      (id : ℕ) → (b.max_count ≡ 0) ⊎ (b.count < b.max_count) → IsBalanced (give_job id b)
  unfolding give_job
  give_job-IsBalanced id room = record {
    counted = omega (arith, v.counted, length-append b.jobs (id ∷ []));
    limited =
        λ some_limit. elim room [ inl unlimited ↦ absurd (omega arith) | inr below ↦ omega arith ];
    busy = λ on waits. omega (arith, v.busy on waits);
    unlimited = v.unlimited;
    same_ids = v.same_ids;
    distinct = v.distinct;
  }

  pub push_work_id-IsBalanced :
      (id : ℕ) → b.max_count ≤ b.count → 0 < b.max_count → IsBalanced (push_work_id id b)
  unfolding push_work_id
  push_work_id-IsBalanced id full limit = elim (Bool-cases (has id b.waiting_ids)) [
    | inl old ↦ rw old (record {
      counted = v.counted;
      limited = v.limited;
      busy = λ on waits. omega (arith, full);
      unlimited = v.unlimited;
      same_ids = v.same_ids;
      distinct = v.distinct;
    })
    | inr new ↦ rw new (record {
      counted = v.counted;
      limited = v.limited;
      busy = λ on waits. omega (arith, full);
      unlimited = λ no_limit. absurd (omega arith);
      same_ids = λ k.
          ground
            (arith, has-place k id b.waiting_ids, v.same_ids k, has-append k b.waiting (id ∷ []));
      distinct = IsDistinct-snoc id b.waiting v.distinct (sym (v.same_ids id) ∙ new);
    })
  ]

  pub at_rest :
      (length b.waiting ≡ 0) ⊎ (b.max_count ≤ b.count) ⊎ (b.running ≡ false) → IsBalanced b
  at_rest why = record {
    counted = v.counted;
    limited = v.limited;
    busy = λ on waits. elim why [
      | inl nobody ↦ absurd (omega arith)
      | inr (inl full) ↦ omega arith
      | inr (inr off) ↦ absurd (false≢true (sym off ∙ on))
    ];
    unlimited = v.unlimited;
    same_ids = v.same_ids;
    distinct = v.distinct;
  }

  module _ (id : ℕ) (rest : List ℕ) (e : b.waiting ≡ id ∷ rest) where
    unfoldable pub popped : WorkQueue
    popped = record b { waiting = rest; waiting_ids = erase_id id b.waiting_ids }

    still-IsDistinct : (has id rest ≡ false) × IsDistinct rest
    still-IsDistinct = subst IsDistinct e v.distinct

    popped_same : (k : ℕ) → has k (erase_id id b.waiting_ids) ≡ has k rest
    popped_same k = elim (ℕ_discrete k id) [
      | yes same ↦ ground (arith, same, has-erase_id k id b.waiting_ids, still-IsDistinct.0)
      | no other ↦ ground (arith, has-erase_id k id b.waiting_ids, v.same_ids k, ap (has k) e)
    ]

    pub popped-IsBalanced : IsBalancedBut 1 popped
    unfolding popped
    popped-IsBalanced = record {
      counted = v.counted;
      limited = v.limited;
      busy = λ on waits. v.busy on (omega (arith, ap length e));
      unlimited = λ no_limit. absurd (omega (arith, v.unlimited no_limit, ap length e));
      same_ids = popped_same;
      distinct = still-IsDistinct.1;
    }

pub List-cases : (xs : List ℕ) → (xs ≡ []) ⊎ ((x : ℕ) × (rest : List ℕ) × (xs ≡ x ∷ rest))
List-cases [] = inl refl
List-cases (x ∷ rest) = inr (x, rest, refl)
