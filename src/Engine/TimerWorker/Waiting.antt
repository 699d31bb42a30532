-- ===== src/Engine/TimerWorker/Waiting.antt =====
-- No timer waits without a worker.
use plain.Prelude.{
  ℕ, ◌<◌, ◌≡◌, ◌∙◌, refl, sym, ap, ◌⊎◌, inl, inr, Bool, true, false, not, ◌&&◌, Option, none, some,
  List, [], ◌∷◌, ◌++◌, length, ◌==◌, Bool-cases, arith,
}
use plain.Engine.TimerQueue.{Timer, TimerRequest, add, remove, TimerSet, World, process_timers}
use plain.Engine.TimerWorker.{
  TimerWorker, new_worker, ensure_worker_thread, add_internal_timer, add_timer,
  remove_internal_timer, shutdown, join, work_loop, Step, adds, removes, works, shuts, joins, Steps,
  at_start, and_then,
}
use mathlib.Core.Path.{subst}
use mathlib.Core.Option.{none-ne-some, some-injective}
use mathlib.Core.Bool.{false≢true}

-- Whether a request adds a timer.
abbrev pub has_add : List TimerRequest → Bool
has_add [] = false
has_add (add t ∷ requests) = true
has_add (remove id ∷ requests) = has_add requests

has_add-append :
    (id : ℕ) (requests : List TimerRequest)
    → has_add (requests ++ (remove id ∷ [])) ≡ has_add requests
has_add-append id [] = refl
has_add-append id (add t ∷ requests) = refl
has_add-append id (remove k ∷ requests) = has_add-append id requests

pub record IsWorker (w : TimerWorker) : Type 0 where
  pub at_rest : w.idle ≡ true → (has_add w.requests ≡ false) × (length w.internal_state.timers ≡ 0)
  pub at_work : w.idle ≡ false → w.abort ≡ false → w.running ≡ true
  pub one_thread : w.running ≡ true → (w.idle ≡ false) × (w.joinable ≡ true)
  pub aborted : w.abort ≡ w.atomic_abort

ensure_busy : (w : TimerWorker) → w.idle ≡ false → ensure_worker_thread w ≡ w
unfolding ensure_worker_thread
ensure_busy w busy = simp busy refl

-- A worker behind `ensure_worker_thread`.
ensured-IsWorker :
    (t : Timer) (w : TimerWorker)
    → IsWorker w
    → IsWorker (add_internal_timer t (ensure_worker_thread w))
unfolding add_internal_timer ensure_worker_thread
ensured-IsWorker t w v = elim (Bool-cases w.idle) [
  | inl rests ↦ rw rests (record {
    at_rest = λ h. absurd (false≢true h);
    at_work = λ h on. refl;
    one_thread = λ h. (refl, refl);
    aborted = v.aborted;
  })
  | inr busy ↦
      subst (λ u. IsWorker (add_internal_timer t u)) (sym (ensure_busy w busy))
        (record {
          at_rest = λ h. absurd (false≢true (sym busy ∙ h));
          at_work = v.at_work;
          one_thread = v.one_thread;
          aborted = v.aborted;
        })
]

removing-IsWorker : (id : ℕ) (w : TimerWorker) → IsWorker w → IsWorker (remove_internal_timer id w)
unfolding remove_internal_timer
removing-IsWorker id w v = record {
  at_rest = λ rests. (has_add-append id w.requests ∙ (v.at_rest rests).0, (v.at_rest rests).1);
  at_work = v.at_work;
  one_thread = v.one_thread;
  aborted = v.aborted;
}

shutdown_thread :
    (w : TimerWorker)
    → w.atomic_abort ≡ false
    → w.joinable ≡ true
    → shutdown w ≡ record w { atomic_abort = true; abort = true; requests = [] }
unfolding shutdown
shutdown_thread w first a_thread = simp first (simp a_thread refl)

shutdown-IsWorker : (w : TimerWorker) → IsWorker w → IsWorker (shutdown w)
unfolding shutdown
shutdown-IsWorker w v = elim (Bool-cases w.atomic_abort) [
  | inl again ↦ simp again v
  | inr first ↦ elim (Bool-cases w.joinable) [
    | inr none_yet ↦
        simp (first, none_yet)
          (record {
            at_rest = v.at_rest;
            at_work = λ h on. absurd (false≢true (sym on));
            one_thread = λ h. absurd (false≢true (sym none_yet ∙ (v.one_thread h).1));
            aborted = refl;
          })
    | inl a_thread ↦ subst IsWorker (sym (shutdown_thread w first a_thread)) (record {
      at_rest = λ rests. (refl, (v.at_rest rests).1);
      at_work = λ h on. absurd (false≢true (sym on));
      one_thread = v.one_thread;
      aborted = refl;
    })
  ]
]

has_add_none : (requests : List TimerRequest) → length requests ≡ 0 → has_add requests ≡ false
has_add_none [] e = refl
has_add_none (r ∷ requests) e = absurd (omega arith)

last_of : TimerWorker → Option (List ℕ × TimerWorker) → TimerWorker
last_of w none = w
last_of w (some (ids, w')) = w'

same_last :
    {ids ids' : List ℕ} {w w' : TimerWorker}
    → ◌≡◌ {A = Option (List ℕ × TimerWorker)} (some (ids, w)) (some (ids', w'))
    → w ≡ w'
unfolding last_of
same_last {w = w} e = ap (last_of w) e

-- A round that processes the timers.
processed-IsWorker :
    (w w' : TimerWorker) (found : List ℕ) (r : Option (ℕ × List ℕ × TimerSet))
    → w.running ≡ true
    → elim r as (λ _. Option (List ℕ × TimerWorker)) [
      | none ↦ none
      | some (deadline, ids, s) ↦
          some (ids, record w { requests = []; internal_state = s; next_deadline = deadline })
    ]
      ≡ some (found, w')
    → IsWorker w
    → IsWorker w'
processed-IsWorker w w' found none running e v = absurd (none-ne-some _ e)
processed-IsWorker w w' found (some (deadline, ids, s)) running e v =
    subst IsWorker (same_last e) (record {
      at_rest = λ h. absurd (false≢true (sym (v.one_thread running).0 ∙ h));
      at_work = v.at_work;
      one_thread = v.one_thread;
      aborted = v.aborted;
    })

work_loop-IsWorker :
    (rounds now : ℕ) (world : World) (found : List ℕ) (w w' : TimerWorker)
    → w.running ≡ true
    → work_loop rounds world now w ≡ some (found, w')
    → IsWorker w
    → IsWorker w'
unfolding work_loop
work_loop-IsWorker rounds now world found w w' running e v =
    elim (Bool-cases
      ((length w.internal_state.timers == 0) && ((length w.requests == 0) && not w.abort))) [
        | inl timed_out ↦
            let rested : work_loop rounds world now w
                ≡ some ([], record w { idle = true; running = false }) =
              simp timed_out refl in
            subst IsWorker (same_last (sym rested ∙ e)) (record {
              at_rest = λ h.
                  (has_add_none w.requests (ground (arith, timed_out)), ground (arith, timed_out));
              at_work = λ h on. absurd (false≢true (sym h));
              one_thread = λ h. absurd (false≢true h);
              aborted = v.aborted;
            })
        | inr more ↦ elim (Bool-cases w.abort) [
          | inl off ↦
              let ended : work_loop rounds world now w ≡ some ([], record w { running = false }) =
                simp more (simp off refl) in
              subst IsWorker (same_last (sym ended ∙ e)) (record {
                at_rest = v.at_rest;
                at_work = λ h on. absurd (false≢true (sym on ∙ off));
                one_thread = λ h. absurd (false≢true h);
                aborted = v.aborted;
              })
          | inr on ↦
              processed-IsWorker w w' found
                (process_timers rounds world now w.requests w.internal_state) running
                (sym (simp more (simp on refl)) ∙ e) v
        ]
      ]

refused : (t : Timer) (w : TimerWorker) → w.abort ≡ true → add_timer t w ≡ none
unfolding add_timer
refused t w off = simp off refl

accepted :
    (t : Timer) (w : TimerWorker)
    → w.abort ≡ false
    → add_timer t w ≡ some (add_internal_timer t (ensure_worker_thread w))
unfolding add_timer
accepted t w on = simp on refl

Step-IsWorker : (w w' : TimerWorker) → Step w w' → IsWorker w → IsWorker w'
unfolding add_timer join
Step-IsWorker w w' (adds t _ _ e) v = elim (Bool-cases w.abort) [
  | inl off ↦ absurd (none-ne-some w' (sym (refused t w off) ∙ e))
  | inr on ↦
      subst IsWorker (some-injective _ _ (sym (accepted t w on) ∙ e)) (ensured-IsWorker t w v)
]
Step-IsWorker w w' (removes id _) v = removing-IsWorker id w v
Step-IsWorker w w' (works rounds now world found _ _ running e) v =
    work_loop-IsWorker rounds now world found w w' running e v
Step-IsWorker w w' (shuts _) v = shutdown-IsWorker w v
Step-IsWorker w w' (joins _ off ended) v = record {
  at_rest = v.at_rest;
  at_work = v.at_work;
  one_thread = λ h. absurd (false≢true (sym ended ∙ h));
  aborted = v.aborted;
}

Steps-IsWorker : (w w' : TimerWorker) → Steps w w' → IsWorker w → IsWorker w'
Steps-IsWorker w w' (at_start _) v = v
Steps-IsWorker w w' (and_then _ mid _ steps step) v =
    Step-IsWorker mid w' step (Steps-IsWorker w mid steps v)

new_worker-IsWorker : IsWorker new_worker
unfolding new_worker
new_worker-IsWorker = record {
  at_rest = λ h. (refl, refl);
  at_work = λ h on. absurd (false≢true (sym h));
  one_thread = λ h. absurd (false≢true h);
  aborted = refl;
}

-- No timer waits without a worker, whatever the order of adding, removing, rounds of the loop and
-- shutting down from the start: unless the queue is shut down, the worker is in its loop whenever it
-- holds a timer or a request to add one is there.
pub timers_have_a_worker :
    (w : TimerWorker)
    → Steps new_worker w
    → w.abort ≡ false
    → (0 < length w.internal_state.timers) ⊎ (has_add w.requests ≡ true)
    → (w.running ≡ true) × (w.idle ≡ false)
timers_have_a_worker w steps on some_timer =
    let v = Steps-IsWorker new_worker w steps new_worker-IsWorker in
    let busy : w.idle ≡ false = elim (Bool-cases w.idle) [
      | inr busy ↦ busy
      | inl rests ↦ elim some_timer [
        | inl held ↦ absurd (omega (arith, v.at_rest rests))
        | inr asked ↦ absurd (false≢true (sym (v.at_rest rests).0 ∙ asked))
      ]
    ] in
    (v.at_work busy on, busy)
