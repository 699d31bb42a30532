-- ===== src/Net/Packet/Flags.antt =====
-- What setting one flag does to each of the five flags.
use plain.Prelude.{
  ℕ, ◌%◌, ◌^◌, ◌<◌, bit_and, bit_or, ◌≡◌, refl, Bool, true, false, not, ◌&&◌, ◌||◌, ◌==◌,
  if◌then◌else◌, arith,
}
use plain.Prelude.Bits.{holds_below, holds_below_lem}
use plain.Net.Packet.{Packet, have_flag, set_flag}

same : Bool → Bool → Bool
same true b = b
same false b = not b

same→eq : (a b : Bool) → same a b ≡ true → a ≡ b
unfolding same
same→eq a b h = ground arith

abbrev has : ℕ → ℕ → Bool
has flag type = not (bit_and flag (2 ^ type) == 0)

abbrev set_agrees : ℕ → ℕ → ℕ → Bool
set_agrees type other flag =
    same (has (bit_or flag (2 ^ type) % 256) other) ((type == other) || has flag other)

abbrev clear_agrees : ℕ → ℕ → Bool
clear_agrees other flag = same (has (bit_and flag 254) other) (not (other == 0) && has flag other)

set_table : holds_below 5 (λ t. holds_below 5 (λ u. holds_below 256 (set_agrees t u))) ≡ true
unfolding holds_below same
set_table = refl

clear_table : holds_below 5 (λ u. holds_below 256 (clear_agrees u)) ≡ true
unfolding holds_below same
clear_table = refl

-- Switching a flag on sets that flag and keeps the others. Switching any flag off clears the
-- flag `readable`, number 0, and keeps the others, the one that is meant among them.
pub have_flag-set_flag :
    (p : Packet) (on : Bool) (type other : ℕ)
    → p.flag < 256
    → type < 5
    → other < 5
    → have_flag (set_flag p on type) other
      ≡ (if on then (type == other) || have_flag p other else not (other == 0) && have_flag p other)
unfolding have_flag set_flag
have_flag-set_flag p true type other h ht ho = same→eq _ _ (
    holds_below_lem 256 (set_agrees type other)
      (holds_below_lem 5 (λ u. holds_below 256 (set_agrees type u))
        (holds_below_lem 5 (λ t. holds_below 5 (λ u. holds_below 256 (set_agrees t u))) set_table
          type ht)
        other ho)
      p.flag h)
have_flag-set_flag p false type other h ht ho = same→eq _ _ (
    holds_below_lem 256 (clear_agrees other)
      (holds_below_lem 5 (λ u. holds_below 256 (clear_agrees u)) clear_table other ho) p.flag h)
