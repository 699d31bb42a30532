-- ===== src/Endian/Tests.antt =====
-- The byte order on concrete integers.
use plain.Prelude.{◌≡◌, refl}
use plain.Endian.{four, byteswap}

byteswap_four : byteswap four 0x01020304 ≡ 0x04030201
unfolding byteswap
byteswap_four = refl
