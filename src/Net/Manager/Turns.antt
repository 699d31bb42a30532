-- ===== src/Net/Manager/Turns.antt =====
-- The turns of the connections: what happens to the jobs and to those that wait if the executor
-- runs one job after the other and each leaves its connection idle.
use plain.Prelude.{
  ℕ, zero, suc, ◌-◌, ◌≤◌, ◌<◌, ◌≡◌, ◌∙◌, refl, sym, ap, ap₂, ◌⊎◌, inl, inr, true, none, List, [],
  ◌∷◌, ◌++◌, append_assoc, length, length-append, arith,
}
use plain.Net.Manager.{
  WorkQueue, enqueue, give_job, count_down, idle, Step, ends, returns, Steps, at_start, and_then,
  new_queue,
}
use plain.Net.Manager.Line.{IsBalanced, IsBalancedBut, List-cases}
use plain.Net.Manager.Balance.{
  enqueue-IsBalanced, enqueue_nobody, enqueue_pops, reachable-IsBalanced, nobody_when_empty,
}

-- The first job counts down, and its call of `enqueue` is made.
unfoldable pub turn : WorkQueue → WorkQueue
turn b = elim b.jobs [
  | [] ↦ b
  | id ∷ rest ↦ enqueue none (record b { count = b.count - 1; jobs = rest; returning = [] })
]

-- The connections that had their turn in `n` turns, and what is left.
unfoldable pub turns : ℕ → WorkQueue → List ℕ × WorkQueue
turns zero b = ([], b)
turns (suc n) b = elim b.jobs [
  | [] ↦ ([], b)
  | id ∷ rest ↦ let (worked, last) = turns n (turn b) in (id ∷ worked, last)
]

module _ (b : WorkQueue) (id : ℕ) (rest : List ℕ) (e : b.jobs ≡ id ∷ rest) where
  counted_down : WorkQueue
  counted_down = record b { count = b.count - 1; jobs = rest; returning = [] }

  turn_lem : turn b ≡ enqueue none counted_down
  unfolding turn counted_down
  turn_lem = ground (arith, e)

  module _ (v : IsBalanced b) (no_calls : b.returning ≡ []) where
    counted_down-IsBalanced : IsBalancedBut 1 counted_down
    unfolding counted_down
    counted_down-IsBalanced = record {
      counted = omega (arith, v.counted, ap length e);
      limited = λ some_limit. omega (arith, v.limited some_limit);
      busy = λ on waits. omega (arith, v.busy on waits, ap length no_calls);
      unlimited = v.unlimited;
      same_ids = v.same_ids;
      distinct = v.distinct;
    }

    has_room : (b.max_count ≡ 0) ⊎ (counted_down.count < b.max_count)
    unfolding counted_down
    has_room = ground (arith, v.limited, v.counted, ap length e)

    turn-IsBalanced : IsBalanced (turn b)
    turn-IsBalanced = rw turn_lem (enqueue-IsBalanced none counted_down counted_down-IsBalanced)

    -- A turn takes the first connection from the line of the jobs and those that wait.
    turn_takes_first :
        b.running ≡ true
        → (((turn b).jobs ++ (turn b).waiting) ≡ rest ++ b.waiting)
          × ((turn b).running ≡ true)
          × ((turn b).returning ≡ [])
    unfolding counted_down give_job
    turn_takes_first on = elim (List-cases b.waiting) [
      | inl nobody ↦ rw (turn_lem ∙ enqueue_nobody counted_down on has_room nobody) (refl, on, refl)
      | inr (next, others, e') ↦
          rw (turn_lem ∙ enqueue_pops counted_down next others on has_room e')
            (append_assoc rest (next ∷ []) others ∙ ap (λ l. rest ++ l) (sym e'), on, refl)
    ]

    turn-Steps : Steps b (turn b)
    unfolding counted_down count_down
    turn-Steps =
        let ended = count_down id idle rest b in
        let last : Step ended (enqueue none counted_down) =
          returns none [] [] ended (ap (λ l. l ++ (none ∷ [])) no_calls) in
        rw turn_lem (
          and_then b ended (enqueue none counted_down)
            (and_then b b ended (at_start b) (ends id idle [] rest b e)) last)

Steps-trans : (b b' b'' : WorkQueue) → Steps b b' → Steps b' b'' → Steps b b''
Steps-trans b b' b'' first (at_start _) = first
Steps-trans b b' b'' first (and_then _ mid _ steps step) =
    and_then b mid b'' (Steps-trans b b' mid first steps) step

turns_some :
    (n : ℕ) (b : WorkQueue) (id : ℕ) (rest : List ℕ)
    → b.jobs ≡ id ∷ rest
    → turns (suc n) b ≡ (id ∷ (turns n (turn b)).0, (turns n (turn b)).1)
unfolding turns
turns_some n b id rest e = ground (arith, e)

turns_none : (n : ℕ) (b : WorkQueue) → b.jobs ≡ [] → turns n b ≡ ([], b)
unfolding turns
turns_none zero b e = refl
turns_none (suc n) b e = ground (arith, e)

TurnsOf : ℕ → WorkQueue → Type 0
TurnsOf n b =
    Steps b (turns n b).1
    × ((turns n b).0 ≡ b.jobs ++ b.waiting)
    × ((turns n b).1.jobs ≡ [])
    × ((turns n b).1.waiting ≡ [])

nothing_to_do :
    (n : ℕ) (b : WorkQueue)
    → IsBalanced b
    → b.running ≡ true
    → b.returning ≡ []
    → b.jobs ≡ []
    → TurnsOf n b
unfolding TurnsOf
nothing_to_do n b v on no_calls no_jobs =
    let nobody = nobody_when_empty b v on no_jobs no_calls in
    rw (turns_none n b no_jobs)
      (at_start b, sym (ap₂ (λ xs ys. xs ++ ys) no_jobs nobody), no_jobs, nobody)

turns_empty_lines :
    (n : ℕ) (b : WorkQueue)
    → IsBalanced b
    → b.running ≡ true
    → b.returning ≡ []
    → length (b.jobs ++ b.waiting) ≤ n
    → TurnsOf n b
unfolding TurnsOf
turns_empty_lines zero b v on no_calls enough = elim (List-cases b.jobs) [
  | inl no_jobs ↦ nothing_to_do zero b v on no_calls no_jobs
  | inr (id, rest, e) ↦ absurd (omega (arith, enough, length-append b.jobs b.waiting, ap length e))
]
turns_empty_lines (suc n) b v on no_calls enough = elim (List-cases b.jobs) [
  | inl no_jobs ↦ nothing_to_do (suc n) b v on no_calls no_jobs
  | inr (id, rest, e) ↦
      let (line, on', no_calls') = turn_takes_first b id rest e v no_calls on in
      let shorter : length ((turn b).jobs ++ (turn b).waiting) ≤ n = omega (
        arith,
        enough,
        ap length line,
        length-append b.jobs b.waiting,
        length-append rest b.waiting,
        ap length e,
      ) in
      let (steps, worked, no_jobs, nobody) =
        turns_empty_lines n (turn b) (turn-IsBalanced b id rest e v no_calls) on' no_calls'
          shorter in
      rw (turns_some n b id rest e) (
        Steps-trans b (turn b) (turns n (turn b)).1 (turn-Steps b id rest e v no_calls) steps,
        ap (λ l. id ∷ l) (worked ∙ line) ∙ ap (λ l. l ++ b.waiting) (sym e),
        no_jobs,
        nobody,
      )
]

-- From every state that a running manager can come to and in which no call is still to be made,
-- the executor can go on so that all jobs and then all connections that wait have their turn, each
-- once and in their order, after which there is no job and nobody waits: it takes the jobs one
-- after the other, each leaves its connection idle, and as many turns are enough as there are jobs
-- and waiting connections.
pub all_have_their_turn :
    (max_count : ℕ) (b : WorkQueue)
    → Steps (new_queue max_count) b
    → b.running ≡ true
    → b.returning ≡ []
    → Steps b (turns (length (b.jobs ++ b.waiting)) b).1
      × ((turns (length (b.jobs ++ b.waiting)) b).0 ≡ b.jobs ++ b.waiting)
      × ((turns (length (b.jobs ++ b.waiting)) b).1.jobs ≡ [])
      × ((turns (length (b.jobs ++ b.waiting)) b).1.waiting ≡ [])
unfolding TurnsOf
all_have_their_turn max_count b steps on no_calls =
    turns_empty_lines (length (b.jobs ++ b.waiting)) b (reachable-IsBalanced max_count b steps) on
      no_calls (omega arith)
