-- ===== src/Concurrency/Manual/Shutdown.antt =====
-- An executor that is shut down.
use plain.Prelude.{
  ℕ, suc, ◌≡◌, ◌∙◌, refl, ap, Bool, true, false, none, List, [], ◌∷◌, ◌++◌, ◌==◌, Bool-cases, ◌⊎◌,
  inl, inr, arith,
}
use plain.Concurrency.Manual.Order.{working}
use plain.Concurrency.Manual.{
  Manual, new_manual, enqueue, shutdown, clear, Call, enqueues, clears, shuts, make, make_all,
  loop_tasks, loop_impl, until_tasks, loop_until_impl,
}

abbrev pub shut_down : Manual
shut_down = record { abort = true; atomic_abort = true; tasks = [] }

make_all-shut_down : (calls : List Call) → make_all calls shut_down ≡ shut_down
unfolding make_all make enqueue clear shutdown
make_all-shut_down [] = refl
make_all-shut_down (enqueues tasks ∷ calls) = make_all-shut_down calls
make_all-shut_down (clears ∷ calls) = make_all-shut_down calls
make_all-shut_down (shuts ∷ calls) = make_all-shut_down calls

until_none :
    (in_time : ℕ → Bool) (waiting calls : ℕ → List Call) (count : ℕ)
    → until_tasks in_time waiting calls 0 (suc count) shut_down ≡ ([], shut_down)
unfolding until_tasks
until_none in_time waiting calls count =
    let same = make_all-shut_down (waiting 0) in
    elim (Bool-cases (in_time 0)) [
      | inl h ↦ rw (until_tasks, h, same) (ap (λ m. ([], m)) same)
      | inr h ↦ rw (until_tasks, h) refl
    ]

until_shut :
    (in_time : ℕ → Bool) (waiting calls : ℕ → List Call) (count : ℕ)
    → loop_until_impl in_time waiting calls (suc count) shut_down ≡ (none, [], shut_down)
unfolding loop_until_impl
until_shut in_time waiting calls count =
    let more : (suc count == 0) ≡ false = ground arith in
    rw (more, until_none in_time waiting calls count) refl

-- An executor that worked works or is shut down.
make_all-working :
    (calls : List Call) (tasks : List ℕ)
    → ((rest : List ℕ) × (make_all calls (working tasks) ≡ working rest))
      ⊎ (make_all calls (working tasks) ≡ shut_down)
unfolding make_all make enqueue clear shutdown
make_all-working [] tasks = inl (tasks, refl)
make_all-working (enqueues new ∷ calls) tasks = make_all-working calls (tasks ++ new)
make_all-working (clears ∷ calls) tasks = make_all-working calls []
make_all-working (shuts ∷ calls) tasks = inr (make_all-shut_down calls)

shutdown-reached : (before : List Call) → shutdown (make_all before new_manual) ≡ shut_down
unfolding new_manual shutdown
shutdown-reached before = elim (make_all-working before []) [
  | inl (rest, e) ↦ rw e refl
  | inr e ↦ rw e refl
]

-- Whatever calls came before `shutdown` and come behind it, an executor that is shut down has no
-- tasks, `enqueue` and `clear` throw, and a loop that is asked for at least one task throws and runs
-- none, also if it has time to wait for one and whatever is called meanwhile.
pub nothing_runs_after_shutdown :
    (before after : List Call) (tasks : List ℕ) (calls waiting : ℕ → List Call) (in_time : ℕ → Bool)
    (count : ℕ)
    → let m = make_all after (shutdown (make_all before new_manual)) in
      (m.tasks ≡ [])
      × (enqueue tasks m ≡ none)
      × (clear m ≡ none)
      × (loop_impl calls (suc count) m ≡ (none, [], m))
      × (loop_until_impl in_time waiting calls (suc count) m ≡ (none, [], m))
unfolding enqueue clear loop_impl loop_tasks
nothing_runs_after_shutdown before after tasks calls waiting in_time count =
    let more : (suc count == 0) ≡ false = ground arith in
    rw (ap (make_all after) (shutdown-reached before) ∙ make_all-shut_down after, more)
      (refl, refl, refl, refl, until_shut in_time waiting calls count)
