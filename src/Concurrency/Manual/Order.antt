-- ===== src/Concurrency/Manual/Order.antt =====
-- The order in which the loop runs tasks.
use plain.Prelude.{
  ℕ, zero, suc, ◌+◌, ◌≤◌, ◌≡◌, ◌∙◌, refl, sym, ap, ◌⊎◌, inl, inr, false, some, List, [], ◌∷◌, ◌++◌,
  append-nil, append_assoc, length, ◌==◌, arith,
}
use plain.Concurrency.Manual.{
  Manual, enqueue, Call, enqueues, make, make_all, loop_tasks, loop_impl,
}

-- The tasks that calls enqueue, and those of the calls in some rounds.
abbrev pub enqueued : List (List ℕ) → List ℕ
enqueued [] = []
enqueued (tasks ∷ more) = tasks ++ enqueued more

abbrev pub enqueued_in : (ℕ → List (List ℕ)) → ℕ → ℕ → List ℕ
enqueued_in posts round zero = []
enqueued_in posts round (suc rounds) =
    enqueued (posts round) ++ enqueued_in posts (round + 1) rounds

abbrev pub posting : List (List ℕ) → List Call
posting [] = []
posting (tasks ∷ more) = enqueues tasks ∷ posting more

-- An executor that is not shut down.
abbrev pub working : List ℕ → Manual
working tasks = record { abort = false; atomic_abort = false; tasks = tasks }

make_all-posting :
    (posts : List (List ℕ)) (tasks : List ℕ)
    → make_all (posting posts) (working tasks) ≡ working (tasks ++ enqueued posts)
unfolding make_all make enqueue
make_all-posting [] tasks = ap working (sym (append-nil tasks))
make_all-posting (new ∷ more) tasks =
    make_all-posting more (tasks ++ new) ∙ ap working (append_assoc tasks new (enqueued more))

-- What the loop gives.
RunsInOrder : (ℕ → List (List ℕ)) → ℕ → ℕ → List ℕ → List ℕ × Manual → Type 0
RunsInOrder posts round count tasks (ran, last) =
    (rest : List ℕ) × (last ≡ working rest)
    × (ran ++ rest ≡ tasks ++ enqueued_in posts round (length ran))
    × (length ran ≤ count)
    × ((length ran ≡ count) ⊎ (rest ≡ []))

loop_tasks-order :
    (posts : ℕ → List (List ℕ)) (round count : ℕ) (tasks : List ℕ)
    → RunsInOrder posts round count tasks
        (loop_tasks (λ k. posting (posts k)) round count (working tasks))
unfolding RunsInOrder loop_tasks
loop_tasks-order posts round zero tasks =
    (tasks, refl, sym (append-nil tasks), omega arith, inl refl)
loop_tasks-order posts round (suc count) [] = ([], refl, refl, omega arith, inr refl)
loop_tasks-order posts round (suc count) (task ∷ tasks) =
    let (rest, last, order, few, done) =
      loop_tasks-order posts (round + 1) count (tasks ++ enqueued (posts round)) in
    rw (make_all-posting (posts round) tasks) (
      rest,
      last,
      ap (λ l. task ∷ l) (order ∙ append_assoc tasks (enqueued (posts round)) _),
      omega (arith, few),
      elim done [ inl all ↦ inl (ap suc all) | inr none_left ↦ inr none_left ],
    )

-- The loop of an executor that works, while the tasks it runs and other threads only enqueue more:
-- it runs tasks in the order in which they came, each once and none twice or left out, for those it
-- ran and those it leaves are the tasks there were and then those enqueued since. It runs as many as
-- it was asked for, or fewer only when the queue is empty, and says how many.
pub loop_impl_in_order :
    (posts : ℕ → List (List ℕ)) (count : ℕ) (tasks : List ℕ)
    → let (r, ran, last) = loop_impl (λ k. posting (posts k)) count (working tasks) in
      (r ≡ some (length ran))
      × (last.abort ≡ false)
      × (ran ++ last.tasks ≡ tasks ++ enqueued_in posts 0 (length ran))
      × (length ran ≤ count)
      × ((length ran ≡ count) ⊎ (last.tasks ≡ []))
unfolding loop_impl RunsInOrder
loop_impl_in_order posts zero tasks = (refl, refl, sym (append-nil tasks), omega arith, inl refl)
loop_impl_in_order posts (suc count) tasks =
    let (rest, last, order, few, done) = loop_tasks-order posts 0 (suc count) tasks in
    let more : (suc count == 0) ≡ false = ground arith in
    rw (more, last) (refl, refl, order, few, done)
