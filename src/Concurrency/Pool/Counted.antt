-- ===== src/Concurrency/Pool/Counted.antt =====
-- The counter of the idle workers and their flags.
use plain.Prelude.{
  ℕ, zero, suc, ◌+◌, ◌-◌, ◌^◌, ◌≤◌, ◌<◌, ◌≡◌, refl, sym, ◌⊎◌, inl, inr, true, false, List, [], ◌∷◌,
  length, length-set, length-replicate, get_or, set, replicate, arith,
}
use plain.Concurrency.Pool.Idle.{
  Status, active, idle, IdleWorkerSet, flag_of, new_set, set_idle, set_active, try_acquire_flag,
}

abbrev pub count_idle : List Status → ℕ
count_idle [] = 0
count_idle (active ∷ xs) = count_idle xs
count_idle (idle ∷ xs) = suc (count_idle xs)

-- A set of less than 2 ^ 63 workers whose counter is right.
pub record IsCounted (s : IdleWorkerSet) : Type 0 where
  pub counted : s.approx_size ≡ count_idle s.idle_flags
  pub sized : length s.idle_flags ≡ s.size
  pub small : s.size < 2 ^ 63

pub count_idle-le : (xs : List Status) → count_idle xs ≤ length xs
count_idle-le [] = omega arith
count_idle-le (active ∷ xs) = omega (arith, count_idle-le xs)
count_idle-le (idle ∷ xs) = omega (arith, count_idle-le xs)

count_idle-replicate : (n : ℕ) → count_idle (replicate n active) ≡ 0
count_idle-replicate zero = refl
count_idle-replicate (suc n) = count_idle-replicate n

abbrev weight : Status → ℕ
weight active = 0
weight idle = 1

pub count_idle-set :
    (xs : List Status) (i : ℕ) (v : Status)
    → i < length xs
    → count_idle (set xs i v) + weight (get_or xs i active) ≡ count_idle xs + weight v
count_idle-set [] i v h = absurd (omega arith)
count_idle-set (active ∷ xs) zero active h = refl
count_idle-set (active ∷ xs) zero idle h = omega arith
count_idle-set (idle ∷ xs) zero active h = omega arith
count_idle-set (idle ∷ xs) zero idle h = refl
count_idle-set (active ∷ xs) (suc i) v h = count_idle-set xs i v (omega arith)
count_idle-set (idle ∷ xs) (suc i) v h = omega (arith, count_idle-set xs i v (omega arith))

pub new_set-IsCounted : (n : ℕ) → n < 2 ^ 63 → IsCounted (new_set n)
unfolding new_set
new_set-IsCounted n h = record {
  counted = sym (count_idle-replicate n);
  sized = length-replicate n active;
  small = h;
}

pub Status-cases : (f : Status) → (f ≡ active) ⊎ (f ≡ idle)
Status-cases active = inl refl
Status-cases idle = inr refl

-- What an exchange of a worker's flag does to the count.
exchanged :
    (s : IdleWorkerSet) (k : ℕ) (v : Status)
    → IsCounted s
    → k < s.size
    → (count_idle (set s.idle_flags k v) + weight (flag_of s k) ≡ s.approx_size + weight v)
      × (length (set s.idle_flags k v) ≡ s.size)
      × (s.approx_size < 2 ^ 63)
exchanged s k v c h =
    let bounded = count_idle-le s.idle_flags in
    let changed = count_idle-set s.idle_flags k v (omega (arith, c.sized)) in
    let same = length-set s.idle_flags k v in
    (omega (arith, c.counted), omega (arith, c.sized), omega (arith, c.counted, c.sized, c.small))

pub IsCounted-small : (s : IdleWorkerSet) → IsCounted s → s.approx_size < 2 ^ 63
IsCounted-small s c = omega (arith, c.counted, c.sized, c.small, count_idle-le s.idle_flags)

module _ (s : IdleWorkerSet) (k : ℕ) (c : IsCounted s) (h : k < s.size) where
  pub set_idle-IsCounted : IsCounted (set_idle s k)
  unfolding set_idle
  set_idle-IsCounted = elim (Status-cases (flag_of s k)) [
    | inl e ↦ ground (arith, e, c, exchanged s k idle c h)
    | inr e ↦ ground (arith, e, c, exchanged s k idle c h)
  ]

  pub set_active-IsCounted : IsCounted (set_active s k)
  unfolding set_active
  set_active-IsCounted = elim (Status-cases (flag_of s k)) [
    | inl e ↦ ground (arith, e, c, exchanged s k active c h)
    | inr e ↦ ground (arith, e, c, exchanged s k active c h)
  ]

  -- The flag that was idle is taken, and the counter goes down by one.
  pub try_acquire_flag_idle :
      flag_of s k ≡ idle
      → try_acquire_flag s k ≡ (
        record s { approx_size = s.approx_size - 1; idle_flags = set s.idle_flags k active },
        true,
      )
  unfolding try_acquire_flag
  try_acquire_flag_idle e = ground (arith, e, exchanged s k active c h)

  pub taken-IsCounted :
      flag_of s k ≡ idle
      → IsCounted
          (record s { approx_size = s.approx_size - 1; idle_flags = set s.idle_flags k active })
  taken-IsCounted e = ground (arith, e, c, exchanged s k active c h)

pub try_acquire_flag_active :
    (s : IdleWorkerSet) (k : ℕ) → flag_of s k ≡ active → try_acquire_flag s k ≡ (s, false)
unfolding try_acquire_flag
try_acquire_flag_active s k e = simp e refl

-- No worker is idle when the count is zero.
pub count_idle-zero : (xs : List Status) (k : ℕ) → count_idle xs ≡ 0 → get_or xs k active ≡ active
count_idle-zero [] k h = refl
count_idle-zero (active ∷ xs) zero h = refl
count_idle-zero (idle ∷ xs) zero h = absurd (omega (arith, h))
count_idle-zero (active ∷ xs) (suc k) h = count_idle-zero xs k h
count_idle-zero (idle ∷ xs) (suc k) h = absurd (omega (arith, h))
