-- ===== src/Net/Connection/Flags.antt =====
-- The work flags of a connection.
use plain.Prelude.{
  ℕ, ◌-◌, ◌^◌, ◌<◌, bit_and, bit_or, ◌≡◌, refl, sym, ap, ◌∙◌, Bool, true, false, not, ◌==◌, ==_iff,
  if◌then◌else◌, Bool-cases, inl, inr, arith,
}
use plain.Prelude.Bits.{holds_below, holds_below_lem}
use plain.Net.Connection.{Connection, has_work_flag, set_work_flag, exchange_work_flag}

abbrev has : ℕ → ℕ → Bool
has flags flag = not (bit_and flags (2 ^ flag) == 0)

same : Bool → Bool → Bool
same true b = b
same false b = not b

same→eq : (a b : Bool) → same a b ≡ true → a ≡ b
unfolding same
same→eq true b h = sym h
same→eq false true h = h
same→eq false false h = refl

abbrev on_agrees : ℕ → ℕ → ℕ → Bool
on_agrees flag other flags =
    same (has (bit_or flags (2 ^ flag)) other) (if flag == other then true else has flags other)

abbrev off_agrees : ℕ → ℕ → ℕ → Bool
off_agrees flag other flags =
    same (has (bit_and flags (2 ^ 8 - 1 - 2 ^ flag)) other)
      (if flag == other then false else has flags other)

on_table : holds_below 4 (λ t. holds_below 4 (λ u. holds_below 16 (on_agrees t u))) ≡ true
unfolding holds_below same
on_table = refl

off_table : holds_below 4 (λ t. holds_below 4 (λ u. holds_below 16 (off_agrees t u))) ≡ true
unfolding holds_below same
off_table = refl

from_table :
    (test : ℕ → ℕ → ℕ → Bool)
    → holds_below 4 (λ t. holds_below 4 (λ u. holds_below 16 (test t u))) ≡ true
    → (t u flags : ℕ) → t < 4
    → u < 4
    → flags < 16
    → test t u flags ≡ true
from_table test table t u flags ht hu hf =
    holds_below_lem 16 (test t u)
      (holds_below_lem 4 (λ u. holds_below 16 (test t u))
        (holds_below_lem 4 (λ t. holds_below 4 (λ u. holds_below 16 (test t u))) table t ht) u hu)
      flags hf

-- Switching one of the four work flags on or off sets that flag and keeps the others.
pub has_work_flag-set_work_flag :
    (c : Connection) (flag other : ℕ) (enable : Bool)
    → c.work_flags < 16
    → flag < 4
    → other < 4
    → has_work_flag (set_work_flag c flag enable) other
      ≡ (if flag == other then enable else has_work_flag c other)
unfolding has_work_flag set_work_flag
has_work_flag-set_work_flag c flag other true h hf ho =
    same→eq _ _ (from_table on_agrees on_table flag other c.work_flags hf ho h)
has_work_flag-set_work_flag c flag other false h hf ho =
    same→eq _ _ (from_table off_agrees off_table flag other c.work_flags hf ho h)

-- `exchange_work_flag` answers whether the flag was set, and leaves it as asked.
pub exchange_work_flag_lem :
    (c : Connection) (flag : ℕ) (enable : Bool)
    → c.work_flags < 16
    → flag < 4
    → let (had, c') = exchange_work_flag c flag enable in
      (had ≡ has_work_flag c flag) × (has_work_flag c' flag ≡ enable)
unfolding exchange_work_flag
exchange_work_flag_lem c flag enable h hf = elim (Bool-cases (has_work_flag c flag)) [
  | inl on ↦ ground (arith, on, switched true, switched false)
  | inr off ↦ ground (arith, off, switched true, switched false)
]
  where
    switched : (to : Bool) → has_work_flag (set_work_flag c flag to) flag ≡ to
    switched to =
        has_work_flag-set_work_flag c flag flag to h hf hf
        ∙ ap (λ t. if t then to else has_work_flag c flag) ((==_iff flag flag).1 refl)
