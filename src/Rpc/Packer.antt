-- ===== src/Rpc/Packer.antt =====
-- `Packer` of framework/core/src/net/rpc/packer.cc and framework/core/include/plain/net/rpc/packer.h.
-- Its one field, the vector of bytes, is the last argument and the result of each `pack`.
use plain.Prelude.{
  ℕ, zero, suc, ◌+◌, ◌-◌, ◌*◌, ◌/◌, ◌%◌, ◌^◌, bit_and, bit_or, Bool, true, false, not, ◌&&◌, Option,
  none, some, List, [], ◌∷◌, ◌++◌, length, ltb, leb, if◌then◌else◌,
}
use plain.Prelude.Int.{ℤ, pos, negsuc}
use plain.Rpc.Tag.{Tag, underlying}

-- `serialized_object_.emplace_back`
abbrev pub emplace : ℕ → List ℕ → List ℕ
emplace b out = out ++ (b ∷ [])

-- The loop that emplaces the bytes `value >> (8 * (i - 1)) & 0xff` for i from `k` down to 1.
unfoldable pub emplace_be : ℕ → ℕ → List ℕ → List ℕ
emplace_be zero value out = out
emplace_be (suc i) value out =
    emplace_be i value (emplace (bit_and (value / 2 ^ (8 * i)) 0xff % 256) out)

unfoldable pub pack_uint8 : ℕ → List ℕ → List ℕ
pack_uint8 v out =
    if leb v 0x7f then emplace v out else emplace v (emplace (underlying Tag.uint8) out)

unfoldable pub pack_uint16 : ℕ → List ℕ → List ℕ
pack_uint16 v out =
    if ltb 255 v
    then emplace_be 2 v (emplace (underlying Tag.uint16) out)
    else pack_uint8 (v % 2 ^ 8) out

unfoldable pub pack_uint32 : ℕ → List ℕ → List ℕ
pack_uint32 v out =
    if ltb 65535 v
    then emplace_be 4 v (emplace (underlying Tag.uint32) out)
    else pack_uint16 (v % 2 ^ 16) out

unfoldable pub pack_uint64 : ℕ → List ℕ → List ℕ
pack_uint64 v out =
    if ltb 4294967295 v
    then emplace_be 8 v (emplace (underlying Tag.uint64) out)
    else pack_uint32 (v % 2 ^ 32) out

-- The number that `std::abs` gives, where the type has it.
abbrev pub magnitude : ℤ → ℕ
magnitude (pos n) = n
magnitude (negsuc n) = suc n

-- `twos_complement`, for the four widths `w`: `~abs_v + 1` in a bitset of `w` bits.
abbrev pub twos_complement : ℕ → ℤ → ℕ
twos_complement w (pos n) = n % 2 ^ w
twos_complement w (negsuc n) = (2 ^ w - suc n % 2 ^ w) % 2 ^ w

-- `value > 0 && value < std::to_underlying(Type::Max)`
abbrev pub is_tag_like : ℤ → Bool
is_tag_like (pos n) = ltb 0 n && ltb n (underlying Tag.max)
is_tag_like (negsuc n) = false

unfoldable pub pack_int8 : ℤ → List ℕ → List ℕ
pack_int8 v out =
    emplace (twos_complement 8 v) (if is_tag_like v then emplace (underlying Tag.int8) out else out)

unfoldable pub pack_int16 : ℤ → List ℕ → List ℕ
pack_int16 v out =
    if ltb (magnitude v) 128
    then pack_int8 v out
    else emplace_be 2 (twos_complement 16 v) (emplace (underlying Tag.int16) out)

-- `none` for the least value, which is packed as whatever its overflowing `std::abs` leads to.
unfoldable pub pack_int32 : ℤ → List ℕ → Option (List ℕ)
pack_int32 v out =
    if leb (2 ^ 31) (magnitude v)
    then none
    else if ltb (magnitude v) 32768
    then some (pack_int16 v out)
    else some (emplace_be 4 (twos_complement 32 v) (emplace (underlying Tag.int32) out))

-- `<` of signed numbers.
abbrev pub less : ℤ → ℤ → Bool
less (pos m) (pos n) = ltb m n
less (pos m) (negsuc n) = false
less (negsuc m) (pos n) = true
less (negsuc m) (negsuc n) = ltb n m

-- `std::numeric_limits<intw_t>::min()`
abbrev pub least : ℕ → ℤ
least w = negsuc (2 ^ (w - 1) - 1)

abbrev pub is_least : ℕ → ℤ → Bool
is_least w (pos n) = false
is_least w (negsuc n) = leb (2 ^ (w - 1)) (n + 1)

-- `std::abs` in `w` bits with wrap-around: the negation of the least number is that number.
abbrev pub wrapped_abs : ℕ → ℤ → ℤ
wrapped_abs w (pos n) = pos n
wrapped_abs w (negsuc n) = if is_least w (negsuc n) then least w else pos (n + 1)

-- The right side of the test is `std::abs` of the least `int`: the subtraction from 0 overflows, and
-- as compiled it wraps around, to a negative number.
unfoldable pub pack_int64 : ℤ → List ℕ → Option (List ℕ)
pack_int64 v out =
    if less (wrapped_abs 64 v) (wrapped_abs 32 (least 32)) && not (is_least 64 v)
    then pack_int32 v out
    else some (emplace_be 8 (twos_complement 64 v) (emplace (underlying Tag.int64) out))

unfoldable pub pack_null : List ℕ → List ℕ
pack_null out = emplace (underlying Tag.null) out

unfoldable pub pack_bool : Bool → List ℕ → List ℕ
pack_bool v out =
    if v then emplace (underlying Tag.true_bool) out else emplace (underlying Tag.false_bool) out

-- A size in the forms of 8, 16 and 32 bits behind a tag; `none` if it is too large for them.
unfoldable pub pack_str_size : ℕ → List ℕ → Option (List ℕ)
pack_str_size n out =
    if ltb n 32
    then some (emplace (bit_or (n % 256) 0b10100000 % 256) out)
    else if ltb n 255
    then some (emplace (n % 256) (emplace (underlying Tag.str8) out))
    else if ltb n 65535
    then some (emplace_be 2 n (emplace (underlying Tag.str16) out))
    else if ltb n 4294967295
    then some (emplace_be 4 n (emplace (underlying Tag.str32) out))
    else none

-- "Give up if string is too long": nothing is packed.
unfoldable pub pack_string : List ℕ → List ℕ → List ℕ
pack_string str out = elim (pack_str_size (length str) out) [ none ↦ out | some head ↦ head ++ str ]

unfoldable pub pack_bin_size : ℕ → List ℕ → Option (List ℕ)
pack_bin_size n out =
    if ltb n 255
    then some (emplace (n % 256) (emplace (underlying Tag.bin8) out))
    else if ltb n 65535
    then some (emplace_be 2 n (emplace (underlying Tag.bin16) out))
    else if ltb n 4294967295
    then some (emplace_be 4 n (emplace (underlying Tag.bin32) out))
    else none

-- `pack(const std::vector<uint8_t> &)`
unfoldable pub pack_bytes : List ℕ → List ℕ → List ℕ
pack_bytes bytes out = elim (pack_bin_size (length bytes) out) [
  | none ↦ out
  | some head ↦ head ++ bytes
]

-- The head of `pack_array` and of `pack_map`: a mask for less than 16 items, or one of two tags.
unfoldable pub pack_count : ℕ → Tag → Tag → ℕ → List ℕ → Option (List ℕ)
pack_count size_mask tag16 tag32 n out =
    if ltb n 16
    then some (emplace (bit_or n size_mask % 256) out)
    else if ltb n 65535
    then some (emplace_be 2 n (emplace (underlying tag16) out))
    else if ltb n 4294967295
    then some (emplace_be 4 n (emplace (underlying tag32) out))
    else none

module _ {A : Type 0} (pack : A → List ℕ → List ℕ) where
  unfoldable pub pack_each : List A → List ℕ → List ℕ
  pack_each [] out = out
  pack_each (x ∷ xs) out = pack_each xs (pack x out)

  unfoldable pub pack_array : List A → List ℕ → List ℕ
  pack_array items out = elim (pack_count 0b10010000 Tag.array16 Tag.array32 (length items) out) [
    | none ↦ out
    | some head ↦ pack_each items head
  ]

-- The entries of a map, in its order.
module _ {K V : Type 0} (pack_key : K → List ℕ → List ℕ) (pack_value : V → List ℕ → List ℕ) where
  unfoldable pub pack_entry : K × V → List ℕ → List ℕ
  pack_entry (k, v) out = pack_value v (pack_key k out)

  unfoldable pub pack_map : List (K × V) → List ℕ → List ℕ
  unfolding pack_entry
  pack_map entries out = elim (pack_count 0b10000000 Tag.map16 Tag.map32 (length entries) out) [
    | none ↦ out
    | some head ↦ pack_each pack_entry entries head
  ]
