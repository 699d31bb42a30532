-- ===== src/Prelude/Words.antt =====
-- `size_t` arithmetic: 64-bit words as numbers below 2 ^ 64, with the wrap-around written out.
use plain.Prelude.{ℕ, ◌+◌, ◌-◌, ◌*◌, ◌%◌, ◌^◌}

abbrev pub add64 : ℕ → ℕ → ℕ
add64 a b = (a + b) % 2 ^ 64

-- For `b` below 2 ^ 64.
abbrev pub sub64 : ℕ → ℕ → ℕ
sub64 a b = (a + 2 ^ 64 - b) % 2 ^ 64

-- `a << 1`
abbrev pub shl64 : ℕ → ℕ
shl64 a = a * 2 % 2 ^ 64
