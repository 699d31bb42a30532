-- ===== src/Rpc/Tag.antt =====
-- `enum class Type` of framework/core/include/plain/net/rpc/config.h: the first byte of a value.
use plain.Prelude.{ℕ}

pub data Tag : Type 0 where
  null int8 uint8 int16 uint16 int32 uint32 int64 uint64 float32 float64 : Tag
  true_bool false_bool bin8 bin16 bin32 ext8 ext16 ext32 str8 str16 str32 : Tag
  array16 array32 map16 map32 max : Tag

-- `std::to_underlying`
abbrev pub underlying : Tag → ℕ
underlying null = 0
underlying int8 = 1
underlying uint8 = 2
underlying int16 = 3
underlying uint16 = 4
underlying int32 = 5
underlying uint32 = 6
underlying int64 = 7
underlying uint64 = 8
underlying float32 = 9
underlying float64 = 10
underlying true_bool = 11
underlying false_bool = 12
underlying bin8 = 13
underlying bin16 = 14
underlying bin32 = 15
underlying ext8 = 16
underlying ext16 = 17
underlying ext32 = 18
underlying str8 = 19
underlying str16 = 20
underlying str32 = 21
underlying array16 = 22
underlying array32 = 23
underlying map16 = 24
underlying map32 = 25
underlying max = 26
