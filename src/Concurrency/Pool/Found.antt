-- ===== src/Concurrency/Pool/Found.antt =====
-- What the searches of the set of idle workers find.
use plain.Prelude.{
  ℕ, zero, suc, ◌+◌, ◌-◌, ◌%◌, ◌^◌, ◌≤◌, ◌<◌, ◌≡◌, ◌≢◌, ◌∙◌, refl, sym, ap, ◌⊎◌, inl, inr, set,
  if◌then◌else◌, ◌==◌, ==_iff, Bool-cases, arith,
}
use plain.Concurrency.Pool.Idle.{
  active, idle, IdleWorkerSet, npos, flag_of, not_positive, find_loop, find_idle_worker,
}
use plain.Concurrency.Pool.Counted.{
  IsCounted, Status-cases, try_acquire_flag_idle, try_acquire_flag_active, count_idle-zero,
  IsCounted-small,
}
use mathlib.Core.Path.{subst}
use native.Mathlib.Nat.{mod-lt, mod-eq_of_lt, mod-eq-sub-mod}
use native.Mathlib.Decide.{dec_lt, ℕ_discrete}

abbrev pub taken : IdleWorkerSet → ℕ → IdleWorkerSet
taken s k = record s { approx_size = s.approx_size - 1; idle_flags = set s.idle_flags k active }

-- Nothing was found and nothing changed, or an idle worker that is not the caller was taken.
abbrev pub Took : IdleWorkerSet → ℕ → IdleWorkerSet × ℕ → Type 0
Took s caller r =
    ((r.1 ≡ npos) × (r.0 ≡ s))
    ⊎ ((r.1 < s.size) × (r.1 ≢ caller) × (flag_of s r.1 ≡ idle) × (r.0 ≡ taken s r.1))

find_loop-Took :
    (n i start caller : ℕ) (s : IdleWorkerSet)
    → IsCounted s
    → 0 < s.size
    → Took s caller (find_loop n i start caller s)
unfolding find_loop
find_loop-Took zero i start caller s c h = inl (refl, refl)
find_loop-Took (suc n) i start caller s c h =
    let index = (start + i) % s.size in
    let below : index < s.size = mod-lt (start + i) h in
    let later = find_loop-Took n (suc i) start caller s c h in
    elim (Bool-cases (index == caller)) [
      | inl same ↦ rw same later
      | inr other ↦ elim (Status-cases (flag_of s index)) [
        | inl e ↦ rw (other, try_acquire_flag_active s index e) later
        | inr e ↦
            let differs : index ≢ caller = λ q. ground (arith, q, other) in
            rw (other, try_acquire_flag_idle s index c below e) (inr (below, differs, e, refl))
      ]
    ]

-- A search that finds nobody has seen no idle worker but the caller.
find_loop_misses :
    (n i start caller : ℕ) (s : IdleWorkerSet)
    → IsCounted s
    → s.size < 2 ^ 63
    → 0 < s.size
    → (find_loop n i start caller s).1 ≡ npos
    → (j : ℕ) → i ≤ j
    → j < i + n
    → (start + j) % s.size ≢ caller
    → flag_of s ((start + j) % s.size) ≡ active
unfolding find_loop
find_loop_misses zero i start caller s c b h e j low high d = absurd (omega arith)
find_loop_misses (suc n) i start caller s c b h e j low high d =
    let index = (start + i) % s.size in
    let below : index < s.size = mod-lt (start + i) h in
    let later : (find_loop n (suc i) start caller s).1 ≡ npos
        → (j ≡ i) ⊎ (flag_of s ((start + j) % s.size) ≡ active) =
      λ q. elim (ℕ_discrete j i) [
        | yes same ↦ inl same
        | no differs ↦
            inr (find_loop_misses n (suc i) start caller s c b h q j (ground arith) (omega arith) d)
      ] in
    elim (Bool-cases (index == caller)) [
      | inl same ↦ elim (later (rw same at e)) [
        | inl here ↦ absurd (d (ap (λ t. (start + t) % s.size) here ∙ (==_iff index caller).0 same))
        | inr found ↦ found
      ]
      | inr other ↦ elim (Status-cases (flag_of s index)) [
        | inl a ↦ elim (later (rw (other, try_acquire_flag_active s index a) at e)) [
          | inl here ↦ ap (λ t. flag_of s ((start + t) % s.size)) here ∙ a
          | inr found ↦ found
        ]
        | inr a ↦
            let q : index ≡ npos = rw (other, try_acquire_flag_idle s index c below a) at e in
            absurd (omega (arith, q, below, b))
      ]
    ]

-- Every worker has its turn in the search.
pub turn_of :
    (start k size : ℕ) → start < size → k < size → (j : ℕ) × (j < size) × ((start + j) % size ≡ k)
turn_of start k size hs hk = elim (dec_lt k start) [
  | yes before ↦ (
    k + size - start,
    omega arith,
    ap (λ t. t % size) {y = k + size} (omega arith)
        ∙ mod-eq-sub-mod {n = k + size} {m = size} (omega arith)
        ∙ ap (λ t. t % size) {y = k} (omega arith)
        ∙ mod-eq_of_lt hk,
  )
  | no after ↦ (k - start, omega arith, ap (λ t. t % size) {y = k} (omega arith) ∙ mod-eq_of_lt hk)
]

-- Of a counted set, the search for one idle worker takes an idle worker that is not the caller and
-- marks it active, or changes nothing; it finds nobody only when no other worker is idle. The
-- caller is a worker of the pool or none.
pub find_idle_worker_finds :
    (hashed_id : ℕ) (s : IdleWorkerSet) (caller : ℕ)
    → IsCounted s
    → 0 < s.size
    → (caller < s.size) ⊎ (caller ≡ npos)
    → Took s caller (find_idle_worker hashed_id s caller)
      × ((find_idle_worker hashed_id s caller).1 ≡ npos
          → (k : ℕ) → k < s.size
          → k ≢ caller
          → flag_of s k ≡ active)
unfolding find_idle_worker
find_idle_worker_finds hashed_id s caller c h w =
    let start = if caller == npos then hashed_id % s.size else caller in
    let started : start < s.size = elim w [
      | inl inside ↦ ground (arith, inside, mod-lt hashed_id h)
      | inr nobody ↦ ground (arith, nobody, mod-lt hashed_id h)
    ] in
    elim (Bool-cases (not_positive s.approx_size)) [
      | inl none_idle ↦
          let zero_count : s.approx_size ≡ 0 = ground (arith, none_idle, IsCounted-small s c) in
          rw none_idle (
            inl (refl, refl),
            λ q k below d. count_idle-zero s.idle_flags k (sym c.counted ∙ zero_count),
          )
      | inr some_idle ↦ rw some_idle (
        find_loop-Took s.size 0 start caller s c h,
        λ q k below d.
            let (j, bound, at_k) = turn_of start k s.size started below in
            subst (λ t. flag_of s t ≡ active) at_k
              (find_loop_misses s.size 0 start caller s c c.small h q j (omega arith) (omega arith)
                (λ v. d (sym at_k ∙ v))),
      )
    ]
