-- ===== src/Concurrency/Manual/Tests.antt =====
-- A manual executor with three tasks.
use plain.Prelude.{
  ℕ, zero, suc, ◌≤◌, ◌≡◌, refl, ◌⊎◌, true, false, none, some, List, [], ◌∷◌, ◌++◌, length,
}
use plain.Concurrency.Manual.{
  new_manual, enqueue, shutdown, clear, Call, enqueues, clears, make_all, loop_tasks, loop_impl,
  loop_until_impl, make,
}
use plain.Concurrency.Manual.Order.{working, enqueued_in, posting, loop_impl_in_order}
use plain.Concurrency.Manual.Shutdown.{nothing_runs_after_shutdown}

-- The first task enqueues two more.
abbrev two_more : ℕ → List (List ℕ)
two_more zero = (8 ∷ 9 ∷ []) ∷ []
two_more (suc round) = []

loop_impl_in_order_example :
    let (r, ran, last) = loop_impl (λ k. posting (two_more k)) 4 (working (5 ∷ 6 ∷ 7 ∷ [])) in
    (r ≡ some (length ran))
    × (last.abort ≡ false)
    × (ran ++ last.tasks ≡ (5 ∷ 6 ∷ 7 ∷ []) ++ enqueued_in two_more 0 (length ran))
    × (length ran ≤ 4)
    × ((length ran ≡ 4) ⊎ (last.tasks ≡ []))
loop_impl_in_order_example = loop_impl_in_order two_more 4 (5 ∷ 6 ∷ 7 ∷ [])

-- Four of five tasks run.
loop_test :
    (loop_tasks (λ k. posting (two_more k)) 0 4 (working (5 ∷ 6 ∷ 7 ∷ []))).0 ≡ 5 ∷ 6 ∷ 7 ∷ 8 ∷ []
unfolding loop_tasks make_all make enqueue
loop_test = refl

abbrev no_calls : ℕ → List Call
no_calls round = []

nothing_runs_after_shutdown_example :
    let m = make_all (clears ∷ []) (shutdown (make_all (enqueues (5 ∷ []) ∷ []) new_manual)) in
    (m.tasks ≡ [])
    × (enqueue (6 ∷ []) m ≡ none)
    × (clear m ≡ none)
    × (loop_impl no_calls 2 m ≡ (none, [], m))
    × (loop_until_impl (λ round. true) no_calls no_calls 2 m ≡ (none, [], m))
nothing_runs_after_shutdown_example =
    nothing_runs_after_shutdown (enqueues (5 ∷ []) ∷ []) (clears ∷ []) (6 ∷ []) no_calls no_calls
      (λ round. true) 1
