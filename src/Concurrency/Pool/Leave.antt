-- ===== src/Concurrency/Pool/Leave.antt =====
-- The shutdown of a worker: its thread leaves, and nothing happens to the worker afterwards.
use plain.Prelude.{ℕ, zero, suc, ◌-◌, ◌≤◌, ◌≡◌, ◌∙◌, refl, ap, true, false, List, [], ◌∷◌, arith}
use plain.Concurrency.Pool.Worker.{
  Place, no_thread, at_top, marking, waiting, acquired, found, timed_out, draining, aborted, Stage,
  untouched, flagged, locked, announced, released, joined, cleared, Worker, new_worker, stop,
  enqueue_foreign, Event, goes_on, misses_deadline, releases_one, shuts, adds_local, adds_foreign,
  donates, enter, acquire, look, relock, run_task, take_tasks, step, run, go_on, miss_deadline,
  release, shut, add_local, donate_first,
}
use plain.Concurrency.Pool.Protocol.{rank, IsWorker, step-IsWorker, reached-IsWorker}

-- The thread makes `n` steps, and nobody else does.
unfoldable pub turns : ℕ → Worker → Worker
turns zero w = w
turns (suc n) w = turns n (go_on w.place w)

-- From `w`, the thread leaves by steps of its own alone.
abbrev pub Leaves : Worker → Type 0
Leaves w = (n : ℕ) × ((turns n w).place ≡ no_thread)

Leaves-step : (w v : Worker) → go_on w.place w ≡ v → Leaves v → Leaves w
unfolding turns
Leaves-step w v q (n, l) = (suc n, ap (λ t. (turns n t).place) q ∙ l)

gone-Leaves : (w : Worker) → w.place ≡ no_thread → Leaves w
unfolding turns
gone-Leaves w q = (0, q)

-- The thread of a worker whose shutdown has released the semaphore, at each place.
module _ (w : Worker) (v : IsWorker w) (freed : 4 ≤ rank w.stage) where
  flags : (w.abort ≡ true) × (w.atomic_abort ≡ true)
  flags = ground (arith, v, freed)

  at_top-Leaves : w.place ≡ at_top → Leaves w
  unfolding go_on enter take_tasks
  at_top-Leaves q =
      Leaves-step w (stop (record w { task_found_or_abort = false })) (ground (arith, q, flags))
        (gone-Leaves _ refl)

  found-Leaves : w.place ≡ found → Leaves w
  unfolding go_on relock
  found-Leaves q = Leaves-step w (stop w) (ground (arith, q, flags)) (gone-Leaves (stop w) refl)

  aborted-Leaves : w.place ≡ aborted → Leaves w
  unfolding go_on
  aborted-Leaves q = Leaves-step w (stop w) (ground (arith, q)) (gone-Leaves (stop w) refl)

  timed_out-Leaves : w.place ≡ timed_out → Leaves w
  unfolding go_on
  timed_out-Leaves q = Leaves-step w (stop w) (ground (arith, q)) (gone-Leaves (stop w) refl)

next-IsWorker : (w : Worker) → IsWorker w → IsWorker (go_on w.place w)
unfolding step
next-IsWorker w v = step-IsWorker goes_on w v

module _ (w : Worker) (v : IsWorker w) (freed : 4 ≤ rank w.stage) where
  acquired-Leaves : w.place ≡ acquired → Leaves w
  unfolding go_on look
  acquired-Leaves q =
      let e : go_on w.place w ≡ (record w { place = found }) = ground (arith, q, v, freed) in
      Leaves-step w (record w { place = found }) e
        (found-Leaves (record w { place = found }) (rw e at (next-IsWorker w v)) freed refl)

  draining-Leaves : (xs : List ℕ) → w.private_queue ≡ xs → w.place ≡ draining → Leaves w
  unfolding go_on run_task
  draining-Leaves [] d q =
      let e : go_on w.place w ≡ (record w { place = at_top }) = ground (arith, q, d) in
      Leaves-step w (record w { place = at_top }) e
        (at_top-Leaves (record w { place = at_top }) (rw e at (next-IsWorker w v)) freed refl)
  draining-Leaves (x ∷ xs) d q =
      let e : go_on w.place w ≡ (record w { place = aborted }) =
        ground (arith, q, d, flags w v freed) in
      Leaves-step w (record w { place = aborted }) e
        (aborted-Leaves (record w { place = aborted }) (rw e at (next-IsWorker w v)) freed refl)

waiting-Leaves : (w : Worker) → IsWorker w → 4 ≤ rank w.stage → w.place ≡ waiting → Leaves w
unfolding go_on acquire
waiting-Leaves w v freed q =
    let u : Worker = record w { semaphore = w.semaphore - 1; place = acquired } in
    let e : go_on w.place w ≡ u = ground (arith, q, v, freed) in
    Leaves-step w u e (acquired-Leaves u (rw e at (next-IsWorker w v)) freed refl)

marking-Leaves : (w : Worker) → IsWorker w → 4 ≤ rank w.stage → w.place ≡ marking → Leaves w
unfolding go_on
marking-Leaves w v freed q =
    let e : go_on w.place w ≡ (record w { place = waiting }) = ground (arith, q) in
    Leaves-step w (record w { place = waiting }) e
      (waiting-Leaves (record w { place = waiting }) (rw e at (next-IsWorker w v)) freed refl)

any-Leaves : (p : Place) (w : Worker) → w.place ≡ p → IsWorker w → 4 ≤ rank w.stage → Leaves w
any-Leaves no_thread w q v freed = gone-Leaves w q
any-Leaves at_top w q v freed = at_top-Leaves w v freed q
any-Leaves marking w q v freed = marking-Leaves w v freed q
any-Leaves waiting w q v freed = waiting-Leaves w v freed q
any-Leaves acquired w q v freed = acquired-Leaves w v freed q
any-Leaves found w q v freed = found-Leaves w v freed q
any-Leaves timed_out w q v freed = timed_out-Leaves w v freed q
any-Leaves draining w q v freed = draining-Leaves w v freed w.private_queue refl q
any-Leaves aborted w q v freed = aborted-Leaves w v freed q

-- When `shutdown` has released the semaphore, the worker's thread leaves by steps of its own,
-- wherever it is, so the join returns.
pub shutdown_is_joined :
    (es : List Event)
    → 4 ≤ rank (run es new_worker).stage
    → (n : ℕ) × ((turns n (run es new_worker)).place ≡ no_thread)
shutdown_is_joined es freed =
    any-Leaves (run es new_worker).place (run es new_worker) refl (reached-IsWorker es) freed

rank-cleared : (g : Stage) → 6 ≤ rank g → g ≡ cleared
rank-cleared cleared h = refl
rank-cleared untouched h = absurd (omega (arith, h))
rank-cleared flagged h = absurd (omega (arith, h))
rank-cleared locked h = absurd (omega (arith, h))
rank-cleared announced h = absurd (omega (arith, h))
rank-cleared released h = absurd (omega (arith, h))
rank-cleared joined h = absurd (omega (arith, h))

step_cleared :
    (e : Event) (w : Worker)
    → IsWorker w
    → 6 ≤ rank w.stage
    → (6 ≤ rank (step e w).stage) × ((step e w).finished ≡ w.finished)
unfolding step go_on shut miss_deadline release add_local enqueue_foreign donate_first
step_cleared goes_on w v h = let e = v.left (omega (arith, h)) in ground (arith, e, h)
step_cleared misses_deadline w v h = let e = v.left (omega (arith, h)) in ground (arith, e, h)
step_cleared releases_one w v h = ground (arith, h)
step_cleared shuts w v h = let e = rank-cleared w.stage h in ground (arith, e, h)
step_cleared (adds_local tasks) w v h = let e = v.left (omega (arith, h)) in ground (arith, e, h)
step_cleared (adds_foreign tasks) w v h = ground (arith, v, h)
step_cleared (donates n) w v h = let e = v.left (omega (arith, h)) in ground (arith, e, h)

run_cleared :
    (later : List Event) (w : Worker)
    → IsWorker w
    → 6 ≤ rank w.stage
    → ((run later w).finished ≡ w.finished)
      × ((run later w).private_queue ≡ [])
      × ((run later w).public_queue ≡ [])
unfolding run
run_cleared [] w v h = (refl, (v.emptied h).0, (v.emptied h).1)
run_cleared (e ∷ later) w v h =
    let s = step_cleared e w v h in
    let (f, p, q) = run_cleared later (step e w) (step-IsWorker e w v) s.0 in (f ∙ s.1, p, q)

-- Whatever happens to a worker that was shut down, no task is run and its queues stay empty.
pub shut_worker_rests :
    (es later : List Event)
    → 6 ≤ rank (run es new_worker).stage
    → ((run later (run es new_worker)).finished ≡ (run es new_worker).finished)
      × ((run later (run es new_worker)).private_queue ≡ [])
      × ((run later (run es new_worker)).public_queue ≡ [])
shut_worker_rests es later h = run_cleared later (run es new_worker) (reached-IsWorker es) h
