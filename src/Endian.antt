-- ===== src/Endian.antt =====
-- The byte order of framework/core/include/plain/basic/endian.h: `bswap`, `byteswap`, `hton` and
-- `ntoh` of the unsigned integers, and how a host lays an integer out in memory.
pub mod Swap
mod Tests
use plain.Prelude.{
  ℕ, zero, suc, ◌+◌, ◌*◌, ◌/◌, ◌%◌, ◌^◌, bit_or, Bool, true, false, List, [], ◌∷◌, ◌++◌,
  if◌then◌else◌,
}

-- The shifts of a `uint16_t` are done in `int`, which has room for them.
unfoldable pub bswap16 : ℕ → ℕ
bswap16 n = bit_or (n * 2 ^ 8) (n / 2 ^ 8) % 2 ^ 16

unfoldable pub bswap32 : ℕ → ℕ
unfolding bswap16
bswap32 n = bit_or (bswap16 (n % 2 ^ 16) * 2 ^ 16 % 2 ^ 32) (bswap16 (n / 2 ^ 16 % 2 ^ 16))

unfoldable pub bswap64 : ℕ → ℕ
unfolding bswap32
bswap64 n = bit_or (bswap32 (n % 2 ^ 32) * 2 ^ 32 % 2 ^ 64) (bswap32 (n / 2 ^ 32 % 2 ^ 32))

-- The widths that `byteswap` tells apart by `sizeof`.
pub data Width : Type 0 where
  one two four eight : Width

unfoldable pub byteswap : Width → ℕ → ℕ
unfolding bswap16 bswap32 bswap64
byteswap one n = n
byteswap two n = bswap16 n
byteswap four n = bswap32 n
byteswap eight n = bswap64 n

-- `big` says whether `std::endian::native` is `std::endian::big`.
unfoldable pub hton : Bool → Width → ℕ → ℕ
unfolding byteswap
hton big w n = if big then n else byteswap w n

unfoldable pub ntoh : Bool → Width → ℕ → ℕ
unfolding byteswap
ntoh big w n = if big then n else byteswap w n

-- The `k` bytes of a number, highest first and lowest first, and back.
unfoldable pub be_bytes : ℕ → ℕ → List ℕ
be_bytes zero n = []
be_bytes (suc k) n = n / 2 ^ (8 * k) % 256 ∷ be_bytes k n

unfoldable pub le_bytes : ℕ → ℕ → List ℕ
le_bytes zero n = []
le_bytes (suc k) n = n % 256 ∷ le_bytes k (n / 256)

unfoldable pub be_value : ℕ → List ℕ → ℕ
be_value acc [] = acc
be_value acc (b ∷ bs) = be_value (acc * 256 + b) bs

unfoldable pub le_value : List ℕ → ℕ
le_value [] = 0
le_value (b ∷ bs) = b + 256 * le_value bs

-- The object representation of an unsigned integer of `k` bytes on the host, and the integer that
-- the bytes represent.
unfoldable pub to_memory : Bool → ℕ → ℕ → List ℕ
unfolding be_bytes le_bytes
to_memory big k n = if big then be_bytes k n else le_bytes k n

unfoldable pub from_memory : Bool → List ℕ → ℕ
unfolding be_value le_value
from_memory big bs = if big then be_value 0 bs else le_value bs
