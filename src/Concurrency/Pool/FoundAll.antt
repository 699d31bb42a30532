-- ===== src/Concurrency/Pool/FoundAll.antt =====
-- What the search for several idle workers finds.
use plain.Prelude.{
  ℕ, zero, suc, ◌+◌, ◌%◌, ◌≤◌, ◌<◌, ◌≡◌, ◌≢◌, ◌∙◌, refl, sym, ap, ◌⊎◌, inl, inr, true, false, List,
  [], ◌∷◌, ◌++◌, append-nil, length, get_or-set_self, get_or-set_ne, min, ◌==◌, ==_iff, Bool-cases,
  arith,
}
use plain.Prelude.Sets.{has, has-nowhere, IsDistinct}
use plain.Concurrency.Pool.Idle.{
  active, idle, is_idle, IdleWorkerSet, flag_of, not_positive, find_all_loop, find_idle_workers,
}
use plain.Concurrency.Pool.Counted.{
  IsCounted, Status-cases, try_acquire_flag_idle, try_acquire_flag_active, taken-IsCounted,
  IsCounted-small,
}
use plain.Concurrency.Pool.Found.{taken, turn_of}
use mathlib.Core.Path.{subst}
use mathlib.Core.Bool.{false≢true}
use native.Mathlib.Nat.{mod-lt}
use native.Mathlib.Decide.{dec_lt, ℕ_discrete}

has-cases : (k x : ℕ) (xs : List ℕ) → has k (x ∷ xs) ≡ true → (x ≡ k) ⊎ (has k xs ≡ true)
has-cases k x xs h = elim (Bool-cases (k == x)) [
  | inl same ↦ inl (sym ((==_iff k x).0 same))
  | inr other ↦ inr (rw other at h)
]

-- The workers that a search of `s` took, at most `room`, and the set that it left.
pub record Takes (s : IdleWorkerSet) (caller room : ℕ) (r : IdleWorkerSet × List ℕ) : Type 0 where
  pub counted : IsCounted r.0
  pub sized : r.0.size ≡ s.size
  pub below : (k : ℕ) → has k r.1 ≡ true → k < s.size
  pub others : (k : ℕ) → has k r.1 ≡ true → k ≢ caller
  pub were_idle : (k : ℕ) → has k r.1 ≡ true → flag_of s k ≡ idle
  pub now_active : (k : ℕ) → has k r.1 ≡ true → flag_of r.0 k ≡ active
  pub unchanged : (k : ℕ) → has k r.1 ≡ false → flag_of r.0 k ≡ flag_of s k
  pub distinct : IsDistinct r.1
  pub few : length r.1 ≤ room

pub nothing-Takes :
    (s : IdleWorkerSet) (caller room : ℕ) → IsCounted s → Takes s caller room (s, [])
nothing-Takes s caller room c = record {
  counted = c;
  sized = refl;
  below = λ k h. absurd (false≢true h);
  others = λ k h. absurd (false≢true h);
  were_idle = λ k h. absurd (false≢true h);
  now_active = λ k h. absurd (false≢true h);
  unchanged = λ k h. refl;
  distinct = tt;
  few = omega arith;
}

module _ (s : IdleWorkerSet) (caller room index : ℕ) (c : IsCounted s) (inside : index < s.size)
    (e : flag_of s index ≡ idle) (d : index ≢ caller) where
  flag_of-taken_self : flag_of (taken s index) index ≡ active
  flag_of-taken_self = get_or-set_self s.idle_flags index active active (omega (arith, c.sized))

  flag_of-taken_ne : (k : ℕ) → index ≢ k → flag_of (taken s index) k ≡ flag_of s k
  flag_of-taken_ne k q = get_or-set_ne s.idle_flags index k active active q

  -- A worker that is taken first, and those that are taken of what is left.
  taken-Takes :
      (r : IdleWorkerSet × List ℕ)
      → Takes (taken s index) caller room r
      → Takes s caller (suc room) (r.0, index ∷ r.1)
  taken-Takes r t =
      let apart : (k : ℕ) → has k r.1 ≡ true → index ≢ k = λ k h q.
        let still : flag_of (taken s index) k ≡ active =
          subst (λ j. flag_of (taken s index) j ≡ active) q flag_of-taken_self in
        false≢true (ap is_idle (sym still ∙ t.were_idle k h)) in
      let absent : has index r.1 ≡ false = elim (Bool-cases (has index r.1)) [
        | inl h ↦ absurd (apart index h refl)
        | inr h ↦ h
      ] in
      record {
        counted = t.counted;
        sized = t.sized;
        below = λ k h. elim (has-cases k index r.1 h) [
          | inl q ↦ subst (λ j. j < s.size) q inside
          | inr later ↦ t.below k later
        ];
        others = λ k h. elim (has-cases k index r.1 h) [
          | inl q ↦ subst (λ j. j ≢ caller) q d
          | inr later ↦ t.others k later
        ];
        were_idle = λ k h. elim (has-cases k index r.1 h) [
          | inl q ↦ subst (λ j. flag_of s j ≡ idle) q e
          | inr later ↦ sym (flag_of-taken_ne k (apart k later)) ∙ t.were_idle k later
        ];
        now_active = λ k h. elim (has-cases k index r.1 h) [
          | inl q ↦
              subst (λ j. flag_of r.0 j ≡ active) q (t.unchanged index absent ∙ flag_of-taken_self)
          | inr later ↦ t.now_active k later
        ];
        unchanged = λ k h.
            let (differs, later) = has-nowhere k index r.1 h in
            t.unchanged k later ∙ flag_of-taken_ne k differs;
        distinct = (absent, t.distinct);
        few = omega (arith, t.few);
      }

find_all_loop-Takes :
    (n i room caller : ℕ) (s : IdleWorkerSet)
    → IsCounted s
    → 0 < s.size
    → Takes s caller room (find_all_loop n i room caller s)
unfolding find_all_loop
find_all_loop-Takes zero i room caller s c h = nothing-Takes s caller room c
find_all_loop-Takes (suc n) i zero caller s c h = nothing-Takes s caller zero c
find_all_loop-Takes (suc n) i (suc room) caller s c h =
    let index = (caller + i) % s.size in
    let below : index < s.size = mod-lt (caller + i) h in
    let later = find_all_loop-Takes n (suc i) (suc room) caller s c h in
    elim (Bool-cases (index == caller)) [
      | inl same ↦ rw same later
      | inr other ↦ elim (Status-cases (flag_of s index)) [
        | inl e ↦ rw (other, try_acquire_flag_active s index e) later
        | inr e ↦
            let differs : index ≢ caller = λ q. ground (arith, q, other) in
            let rest =
              find_all_loop-Takes n (suc i) room caller (taken s index)
                (taken-IsCounted s index c below e) h in
            rw (other, try_acquire_flag_idle s index c below e)
              (taken-Takes s caller room index c below e differs
                (find_all_loop n (suc i) room caller (taken s index)) rest)
      ]
    ]

-- Of a counted set, the search for several idle workers gives, behind those of the buffer, at most
-- as many as are asked for: distinct workers of the pool other than the caller, that were idle and
-- are now active; the flags of the others are as they were and the counter is still right.
pub find_idle_workers-Takes :
    (s : IdleWorkerSet) (caller : ℕ) (buffer : List ℕ) (max_count : ℕ)
    → IsCounted s
    → 0 < s.size
    → (found : List ℕ) × ((find_idle_workers s caller buffer max_count).1 ≡ buffer ++ found)
      × Takes s caller max_count ((find_idle_workers s caller buffer max_count).0, found)
unfolding find_idle_workers
find_idle_workers-Takes s caller buffer max_count c h =
    let room = min s.approx_size max_count in
    let r = find_all_loop s.size 0 room caller s in
    let t = find_all_loop-Takes s.size 0 room caller s c h in
    elim (Bool-cases (not_positive s.approx_size)) [
      | inl none_idle ↦
          rw none_idle ([], sym (append-nil buffer), nothing-Takes s caller max_count c)
      | inr some_idle ↦ rw some_idle (
        r.1,
        refl,
        record {
          counted = t.counted;
          sized = t.sized;
          below = t.below;
          others = t.others;
          were_idle = t.were_idle;
          now_active = t.now_active;
          unchanged = t.unchanged;
          distinct = t.distinct;
          few = omega (arith, t.few);
        },
      )
    ]

-- A worker that is active stays so.
Takes-active :
    (s : IdleWorkerSet) (caller room : ℕ) (r : IdleWorkerSet × List ℕ)
    → Takes s caller room r
    → (k : ℕ) → flag_of s k ≡ active
    → flag_of r.0 k ≡ active
Takes-active s caller room r t k a = elim (Bool-cases (has k r.1)) [
  | inl chosen ↦ t.now_active k chosen
  | inr other ↦ t.unchanged k other ∙ a
]

-- A search that ends with room left leaves no idle worker but the caller where it has been.
find_all_loop_misses :
    (n i room caller : ℕ) (s : IdleWorkerSet)
    → IsCounted s
    → 0 < s.size
    → length (find_all_loop n i room caller s).1 < room
    → (j : ℕ) → i ≤ j
    → j < i + n
    → (caller + j) % s.size ≢ caller
    → flag_of (find_all_loop n i room caller s).0 ((caller + j) % s.size) ≡ active
unfolding find_all_loop
find_all_loop_misses zero i room caller s c h e j low high d = absurd (omega arith)
find_all_loop_misses (suc n) i zero caller s c h e j low high d = absurd (omega (arith, e))
find_all_loop_misses (suc n) i (suc room) caller s c h e j low high d =
    let index = (caller + i) % s.size in
    let below : index < s.size = mod-lt (caller + i) h in
    let next = find_all_loop n (suc i) (suc room) caller s in
    let behind = find_all_loop n (suc i) room caller (taken s index) in
    elim (Bool-cases (index == caller)) [
      | inl same ↦ rw same (elim (ℕ_discrete j i) [
        | yes here ↦
            absurd (d (ap (λ t. (caller + t) % s.size) here ∙ (==_iff index caller).0 same))
        | no differs ↦
            find_all_loop_misses n (suc i) (suc room) caller s c h (rw same at e) j (omega arith)
              (omega arith) d
      ])
      | inr other ↦ elim (Status-cases (flag_of s index)) [
        | inl a ↦
            let skip = try_acquire_flag_active s index a in
            rw (other, skip)
              (elim (ℕ_discrete j i) [
                | yes here ↦
                    subst (λ t. flag_of next.0 ((caller + t) % s.size) ≡ active) (sym here)
                      (Takes-active s caller (suc room) next
                        (find_all_loop-Takes n (suc i) (suc room) caller s c h) index a)
                | no differs ↦
                    find_all_loop_misses n (suc i) (suc room) caller s c h (rw (other, skip) at e) j
                      (omega arith) (omega arith) d
              ])
        | inr a ↦
            let take_it = try_acquire_flag_idle s index c below a in
            let differs : index ≢ caller = λ q. ground (arith, q, other) in
            let counted = taken-IsCounted s index c below a in
            let few : suc (length behind.1) < suc room = rw (other, take_it) at e in
            rw (other, take_it)
              (elim (ℕ_discrete j i) [
                | yes here ↦
                    subst (λ t. flag_of behind.0 ((caller + t) % s.size) ≡ active) (sym here)
                      (Takes-active (taken s index) caller room behind
                        (find_all_loop-Takes n (suc i) room caller (taken s index) counted h) index
                        (flag_of-taken_self s caller room index c below a differs))
                | no differs ↦
                    find_all_loop_misses n (suc i) room caller (taken s index) counted h
                      (omega (arith, few)) j (omega arith) (omega arith) d
              ])
      ]
    ]

-- The search for several idle workers finds as many as are asked for or counted, or it leaves no
-- other idle worker.
pub find_idle_workers_fills :
    (s : IdleWorkerSet) (caller max_count : ℕ)
    → IsCounted s
    → caller < s.size
    → let r = find_idle_workers s caller [] max_count in
      (length r.1 ≡ min s.approx_size max_count)
      ⊎ ((k : ℕ) → k < s.size → k ≢ caller → flag_of r.0 k ≡ active)
unfolding find_idle_workers
find_idle_workers_fills s caller max_count c inside =
    let room = min s.approx_size max_count in
    let r = find_all_loop s.size 0 room caller s in
    let some_size : 0 < s.size = omega (arith, inside) in
    let t = find_all_loop-Takes s.size 0 room caller s c some_size in
    elim (Bool-cases (not_positive s.approx_size)) [
      | inl none_idle ↦
          let zero_count : s.approx_size ≡ 0 = ground (arith, none_idle, IsCounted-small s c) in
          rw none_idle (inl (ground (arith, zero_count)))
      | inr some_idle ↦ rw some_idle (elim (dec_lt (length r.1) room) [
        | no full ↦ inl (omega (arith, t.few, full))
        | yes left ↦ inr (λ k below d.
            let (j, bound, at_k) = turn_of caller k s.size inside below in
            subst (λ t. flag_of r.0 t ≡ active) at_k
              (find_all_loop_misses s.size 0 room caller s c some_size left j (omega arith)
                (omega (arith, bound)) (λ v. d (sym at_k ∙ v))))
      ])
    ]
