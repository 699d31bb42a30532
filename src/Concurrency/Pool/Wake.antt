-- ===== src/Concurrency/Pool/Wake.antt =====
-- A task in the queue of a worker is found by its thread.
use plain.Prelude.{
  ℕ, zero, suc, ◌+◌, ◌-◌, ◌≤◌, ◌≡◌, ◌≢◌, ◌∙◌, refl, sym, ap, inl, inr, Bool, true, false, List, [],
  ◌∷◌, ◌++◌, length, leb, All, Bool-cases, arith,
}
use plain.Concurrency.Pool.Worker.{
  Place, no_thread, at_top, marking, waiting, acquired, found, timed_out, draining, aborted, Worker,
  new_worker, is_empty, last_task, but_last, Event, goes_on, misses_deadline, releases_one, shuts,
  adds_local, adds_foreign, donates, enter, acquire, look, relock, run_task, take_tasks, step, run,
  go_on, release,
}
use plain.Concurrency.Pool.Protocol.{awaits, owns, IsCalm, reached-IsWorker}
use mathlib.Core.Path.{subst}
use mathlib.Core.Bool.{false≢true}

-- A step of the thread itself, or of a caller that is past the lock.
abbrev pub is_own : Event → Bool
is_own goes_on = true
is_own releases_one = true
is_own misses_deadline = false
is_own shuts = false
is_own (adds_local tasks) = false
is_own (adds_foreign tasks) = false
is_own (donates n) = false

-- From `w`, own steps lead to where the thread has the tasks `queued` and those of `done` are run.
abbrev pub Taken : List ℕ → List ℕ → Worker → Type 0
Taken queued done w =
    (more : List Event) × All (λ e. is_own e ≡ true) more
    × ((run more w).private_queue ≡ queued)
    × ((run more w).finished ≡ done)
    × ((run more w).place ≡ draining)

Taken-step :
    (queued done : List ℕ) (e : Event) (w v : Worker)
    → is_own e ≡ true
    → step e w ≡ v
    → Taken queued done v
    → Taken queued done w
unfolding run
Taken-step queued done e w v own q (more, all, p, f, d) = (
  e ∷ more,
  (own, all),
  ap (λ t. (run more t).private_queue) q ∙ p,
  ap (λ t. (run more t).finished) q ∙ f,
  ap (λ t. (run more t).place) q ∙ d,
)

abbrev after_take : Worker → Worker
after_take w = record w {
  task_found_or_abort = false;
  private_queue = w.public_queue;
  public_queue = w.private_queue;
  place = draining;
}

after_take-Taken : (w : Worker) → Taken w.public_queue w.finished (after_take w)
unfolding run
after_take-Taken w = ([], tt, refl, refl, refl)

module _ (w : Worker) (calm : w.abort ≡ false) (queued : is_empty w.public_queue ≡ false) where
  at_top-Taken : w.place ≡ at_top → Taken w.public_queue w.finished w
  unfolding step go_on enter take_tasks
  at_top-Taken q =
      Taken-step w.public_queue w.finished goes_on w (after_take w) refl
        (ground (arith, q, calm, queued)) (after_take-Taken w)

  found-Taken : w.place ≡ found → Taken w.public_queue w.finished w
  unfolding step go_on relock take_tasks
  found-Taken q =
      Taken-step w.public_queue w.finished goes_on w (after_take w) refl
        (ground (arith, q, calm, queued)) (after_take-Taken w)

acquired-Taken :
    (w : Worker)
    → w.abort ≡ false
    → is_empty w.public_queue ≡ false
    → w.task_found_or_abort ≡ true
    → w.place ≡ acquired
    → Taken w.public_queue w.finished w
unfolding step go_on look
acquired-Taken w calm queued told q =
    Taken-step w.public_queue w.finished goes_on w (record w { place = found }) refl
      (ground (arith, q, told)) (found-Taken (record w { place = found }) calm queued refl)

waiting-Taken :
    (w : Worker)
    → w.abort ≡ false
    → is_empty w.public_queue ≡ false
    → w.task_found_or_abort ≡ true
    → 1 ≤ w.semaphore + w.releases
    → w.place ≡ waiting
    → Taken w.public_queue w.finished w
unfolding step go_on acquire release
waiting-Taken w calm queued told some_release q = elim (Bool-cases (leb 1 w.semaphore)) [
  | inl free ↦
      let v : Worker = record w { semaphore = w.semaphore - 1; place = acquired } in
      Taken-step w.public_queue w.finished goes_on w v refl (ground (arith, q, free))
        (acquired-Taken v calm queued told refl)
  | inr blocked ↦
      let u : Worker = record w { releases = w.releases - 1; semaphore = w.semaphore + 1 } in
      let v : Worker = record u { semaphore = w.semaphore; place = acquired } in
      Taken-step w.public_queue w.finished releases_one w u refl
        (ground (arith, blocked, some_release))
        (Taken-step w.public_queue w.finished goes_on u v refl (ground (arith, q))
          (acquired-Taken v calm queued told refl))
]

marking-Taken :
    (w : Worker)
    → w.abort ≡ false
    → is_empty w.public_queue ≡ false
    → w.task_found_or_abort ≡ true
    → 1 ≤ w.semaphore + w.releases
    → w.place ≡ marking
    → Taken w.public_queue w.finished w
unfolding step go_on
marking-Taken w calm queued told some_release q =
    Taken-step w.public_queue w.finished goes_on w (record w { place = waiting }) refl
      (ground (arith, q))
      (waiting-Taken (record w { place = waiting }) calm queued told some_release refl)

length-but_last : (x : ℕ) (xs : List ℕ) → length (but_last x xs) ≡ length xs
length-but_last x [] = refl
length-but_last x (y ∷ ys) = ap suc (length-but_last y ys)

but_last-append : (x : ℕ) (xs ys : List ℕ) → but_last x xs ++ (last_task x xs ∷ ys) ≡ x ∷ (xs ++ ys)
but_last-append x [] ys = refl
but_last-append x (y ∷ zs) ys = ap (λ t. x ∷ t) (but_last-append y zs ys)

draining-Taken :
    (n : ℕ) (xs : List ℕ) (w : Worker)
    → length xs ≡ n
    → w.private_queue ≡ xs
    → w.atomic_abort ≡ false
    → w.abort ≡ false
    → is_empty w.public_queue ≡ false
    → w.place ≡ draining
    → Taken w.public_queue (xs ++ w.finished) w
unfolding step go_on run_task
draining-Taken n [] w l e atomic calm queued q =
    let v : Worker = record w { place = at_top } in
    Taken-step w.public_queue w.finished goes_on w v refl (ground (arith, q, e))
      (at_top-Taken v calm queued refl)
draining-Taken zero (x ∷ xs) w l e atomic calm queued q = absurd (omega (arith, l))
draining-Taken (suc n) (x ∷ xs) w l e atomic calm queued q =
    let v : Worker = record w {
      private_queue = but_last x xs;
      finished = last_task x xs ∷ w.finished;
    } in
    let rest =
      draining-Taken n (but_last x xs) v (length-but_last x xs ∙ omega (arith, l)) refl atomic calm
        queued q in
    Taken-step w.public_queue ((x ∷ xs) ++ w.finished) goes_on w v refl
      (ground (arith, q, e, atomic))
      (subst (λ t. Taken w.public_queue t v) (but_last-append x xs w.finished) rest)

is_empty-nil : (xs : List ℕ) → is_empty xs ≡ true → xs ≡ []
is_empty-nil [] h = refl
is_empty-nil (x ∷ xs) h = absurd (false≢true h)

private_none-Taken :
    (w : Worker)
    → is_empty w.private_queue ≡ true
    → Taken w.public_queue w.finished w
    → Taken w.public_queue (w.private_queue ++ w.finished) w
private_none-Taken w h t =
    subst (λ xs. Taken w.public_queue (xs ++ w.finished) w) (sym (is_empty-nil w.private_queue h)) t

calm-Taken :
    (w : Worker) (p : Place)
    → w.place ≡ p
    → p ≢ no_thread
    → p ≢ timed_out
    → w.atomic_abort ≡ false
    → IsCalm w
    → is_empty w.public_queue ≡ false
    → Taken w.public_queue (w.private_queue ++ w.finished) w
calm-Taken w no_thread q a b atomic c queued = absurd (a refl)
calm-Taken w timed_out q a b atomic c queued = absurd (b refl)
calm-Taken w aborted q a b atomic c queued = absurd (c.calm_place q)
calm-Taken w draining q a b atomic c queued =
    draining-Taken (length w.private_queue) w.private_queue w refl refl atomic c.calm_abort queued q
calm-Taken w at_top q a b atomic c queued =
    private_none-Taken w (c.private_only (ap owns q)) (at_top-Taken w c.calm_abort queued q)
calm-Taken w marking q a b atomic c queued =
    private_none-Taken w (c.private_only (ap owns q))
      (marking-Taken w c.calm_abort queued (c.announces queued) (c.wakes (ap awaits q) queued) q)
calm-Taken w waiting q a b atomic c queued =
    private_none-Taken w (c.private_only (ap owns q))
      (waiting-Taken w c.calm_abort queued (c.announces queued) (c.wakes (ap awaits q) queued) q)
calm-Taken w acquired q a b atomic c queued =
    private_none-Taken w (c.private_only (ap owns q))
      (acquired-Taken w c.calm_abort queued (c.announces queued) q)
calm-Taken w found q a b atomic c queued =
    private_none-Taken w (c.private_only (ap owns q)) (found-Taken w c.calm_abort queued q)

-- A worker that no shutdown has reached, whose public queue is not empty and whose thread is there
-- and not past its deadline, takes the queue by its own steps, that of the semaphore's release
-- included: the tasks that it had are then run, the last first, and it owns those of the queue.
pub no_wakeup_is_lost :
    (es : List Event)
    → (run es new_worker).place ≢ no_thread
    → (run es new_worker).place ≢ timed_out
    → (run es new_worker).atomic_abort ≡ false
    → is_empty (run es new_worker).public_queue ≡ false
    → Taken
        (run es new_worker).public_queue
        ((run es new_worker).private_queue ++ (run es new_worker).finished)
        (run es new_worker)
no_wakeup_is_lost es a b atomic queued =
    let w = run es new_worker in
    calm-Taken w w.place refl a b atomic ((reached-IsWorker es).calm atomic) queued
