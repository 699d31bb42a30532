-- ===== src/Rpc/Unpacker.antt =====
-- `Unpacker` of framework/core/src/net/rpc/unpacker.cc and
-- framework/core/include/plain/net/rpc/unpacker.h: a cursor in a string of bytes. An `unpack`
-- returns the value and the moved cursor.
use plain.Prelude.{
  ℕ, zero, suc, ◌+◌, ◌-◌, ◌*◌, ◌%◌, ◌^◌, bit_and, bit_or, Bool, true, false, List, [], ◌∷◌, ◌++◌,
  length, get_or, take, drop, ltb, leb, ◌==◌, if◌then◌else◌,
}
use plain.Prelude.Int.{ℤ, pos, negsuc}
use plain.Rpc.Tag.{Tag, underlying}

-- `data_` is `bytes` plus `position`, and `data_end_` is `bytes` plus their number. `failed` says
-- that `error_` is `OutOfRange`.
pub record Unpacker : Type 0 where
  pub bytes : List ℕ
  pub position : ℕ
  pub failed : Bool

unfoldable pub unpacker : List ℕ → Unpacker
unpacker bytes = record { bytes = bytes; position = 0; failed = false }

unfoldable pub set_data : Unpacker → List ℕ → Unpacker
set_data u bytes = record u { bytes = bytes; position = 0 }

-- `data()`: the byte under the cursor, 0 and an error at the end.
unfoldable pub peek_byte : Unpacker → ℕ × Unpacker
peek_byte u =
    if ltb u.position (length u.bytes)
    then (get_or u.bytes u.position 0, u)
    else (0, record u { failed = true })

unfoldable pub increment : ℕ → Unpacker → Unpacker
increment n u =
    if leb (u.position + n) (length u.bytes)
    then record u { position = u.position + n }
    else record u { failed = true }

-- `value = data(); increment();`
unfoldable pub take_byte : Unpacker → ℕ × Unpacker
take_byte u = let (b, u') = peek_byte u in (b, increment 1 u')

-- The loop `value += data() << 8 * (i - 1); increment();` for i from `k` down to 1, in `w` bits.
unfoldable pub sum_be : ℕ → ℕ → ℕ → Unpacker → ℕ × Unpacker
sum_be w zero value u = (value, u)
sum_be w (suc i) value u =
    let (b, u') = peek_byte u in sum_be w i ((value + b * 2 ^ (8 * i)) % 2 ^ w) (increment 1 u')

-- The same with `bits |= ...` on a bitset of `w` bits.
unfoldable pub or_be : ℕ → ℕ → ℕ → Unpacker → ℕ × Unpacker
or_be w zero bits u = (bits, u)
or_be w (suc i) bits u =
    let (b, u') = peek_byte u in or_be w i (bit_or bits (b * 2 ^ (8 * i) % 2 ^ w)) (increment 1 u')

unfoldable pub unpack_uint8 : Unpacker → ℕ × Unpacker
unpack_uint8 u =
    let (b, u') = peek_byte u in
    if b == underlying Tag.uint8 then take_byte (increment 1 u') else take_byte u'

-- The wider unsigned `unpack` add to the `value` that the caller's variable has.
unfoldable pub unpack_uint16 : ℕ → Unpacker → ℕ × Unpacker
unpack_uint16 value u =
    let (b, u') = peek_byte u in
    if b == underlying Tag.uint16
    then sum_be 16 2 value (increment 1 u')
    else if b == underlying Tag.uint8
    then take_byte (increment 1 u')
    else take_byte u'

unfoldable pub unpack_uint32 : ℕ → Unpacker → ℕ × Unpacker
unpack_uint32 value u =
    let (b, u') = peek_byte u in
    if b == underlying Tag.uint32
    then sum_be 32 4 value (increment 1 u')
    else if b == underlying Tag.uint16
    then sum_be 32 2 value (increment 1 u')
    else if b == underlying Tag.uint8
    then take_byte (increment 1 u')
    else take_byte u'

-- `data_++` with no test
unfoldable pub skip : ℕ × Unpacker → ℕ × Unpacker
skip (v, u) = (v, record u { position = u.position + 1 })

unfoldable pub unpack_uint64 : ℕ → Unpacker → ℕ × Unpacker
unpack_uint64 value u =
    let (b, u') = peek_byte u in
    if b == underlying Tag.uint64
    then sum_be 64 8 value (increment 1 u')
    else if b == underlying Tag.uint32
    then skip (sum_be 64 4 value (increment 1 u'))
    else if b == underlying Tag.uint16
    then sum_be 64 2 value (increment 1 u')
    else if b == underlying Tag.uint8
    then take_byte (increment 1 u')
    else take_byte u'

-- A pattern of `w` bits as a signed integer: `-1 * (~bits + 1)` if the top bit is set.
abbrev pub signed : ℕ → ℕ → ℤ
signed w bits = if ltb bits (2 ^ (w - 1)) then pos bits else negsuc (2 ^ w - 1 - bits)

-- `value = v` with a result of another type
abbrev pub as_signed : ℕ → ℕ × Unpacker → ℤ × Unpacker
as_signed w (bits, u) = (signed w bits, u)

abbrev pub as_pos : ℕ × Unpacker → ℤ × Unpacker
as_pos (n, u) = (pos n, u)

-- A byte that goes into an `int8_t` keeps its bits.
unfoldable pub unpack_int8 : Unpacker → ℤ × Unpacker
unpack_int8 u =
    let (b, u') = peek_byte u in
    if b == underlying Tag.int8
    then as_signed 8 (take_byte (increment 1 u'))
    else as_signed 8 (take_byte u')

-- The wider signed `unpack` put an untagged byte into their value as an unsigned number.
unfoldable pub unpack_int16 : Unpacker → ℤ × Unpacker
unpack_int16 u =
    let (b, u') = peek_byte u in
    if b == underlying Tag.int16
    then as_signed 16 (or_be 16 2 0 (increment 1 u'))
    else if b == underlying Tag.int8
    then unpack_int8 u'
    else as_pos (take_byte u')

unfoldable pub unpack_int32 : Unpacker → ℤ × Unpacker
unpack_int32 u =
    let (b, u') = peek_byte u in
    if b == underlying Tag.int32
    then as_signed 32 (or_be 32 4 0 (increment 1 u'))
    else if b == underlying Tag.int16
    then unpack_int16 u'
    else if b == underlying Tag.int8
    then unpack_int8 u'
    else as_pos (take_byte u')

unfoldable pub unpack_int64 : Unpacker → ℤ × Unpacker
unpack_int64 u =
    let (b, u') = peek_byte u in
    if b == underlying Tag.int64
    then as_signed 64 (or_be 64 8 0 (increment 1 u'))
    else if b == underlying Tag.int32
    then unpack_int32 u'
    else if b == underlying Tag.int16
    then unpack_int16 u'
    else if b == underlying Tag.int8
    then unpack_int8 u'
    else as_pos (take_byte u')

unfoldable pub unpack_null : Unpacker → Unpacker
unpack_null u = increment 1 u

unfoldable pub unpack_bool : Unpacker → Bool × Unpacker
unpack_bool u = let (b, u') = peek_byte u in (b == underlying Tag.true_bool, increment 1 u')

-- The size of a string, and that of a vector of bytes.
unfoldable pub unpack_str_size : Unpacker → ℕ × Unpacker
unpack_str_size u =
    let (b, u') = peek_byte u in
    if b == underlying Tag.str32
    then sum_be 64 4 0 (increment 1 u')
    else if b == underlying Tag.str16
    then sum_be 64 2 0 (increment 1 u')
    else if b == underlying Tag.str8
    then sum_be 64 1 0 (increment 1 u')
    else (bit_and b 0b00011111, increment 1 u')

unfoldable pub unpack_bin_size : Unpacker → ℕ × Unpacker
unpack_bin_size u =
    let (b, u') = peek_byte u in
    if b == underlying Tag.bin32
    then sum_be 64 4 0 (increment 1 u')
    else if b == underlying Tag.bin16
    then sum_be 64 2 0 (increment 1 u')
    else sum_be 64 1 0 (increment 1 u')

-- The bytes behind a size, if the string has them; else the caller's value stays.
unfoldable pub take_bytes : List ℕ → ℕ × Unpacker → List ℕ × Unpacker
take_bytes value (n, u) =
    if leb (u.position + n) (length u.bytes)
    then (take n (drop u.position u.bytes), increment n u)
    else (value, record u { failed = true })

unfoldable pub unpack_string : List ℕ → Unpacker → List ℕ × Unpacker
unpack_string value u = take_bytes value (unpack_str_size u)

unfoldable pub unpack_bytes : List ℕ → Unpacker → List ℕ × Unpacker
unpack_bytes value u = take_bytes value (unpack_bin_size u)

-- The number of items of an array or a map.
unfoldable pub unpack_count : Tag → Tag → Unpacker → ℕ × Unpacker
unpack_count tag16 tag32 u =
    let (b, u') = peek_byte u in
    if b == underlying tag32
    then sum_be 64 4 0 (increment 1 u')
    else if b == underlying tag16
    then sum_be 64 2 0 (increment 1 u')
    else (bit_and b 0b00001111, increment 1 u')

module _ {A : Type 0} (unpack : Unpacker → A × Unpacker) where
  unfoldable pub unpack_each : ℕ → List A → Unpacker → List A × Unpacker
  unpack_each zero array u = (array, u)
  unpack_each (suc n) array u = let (x, u') = unpack u in unpack_each n (array ++ (x ∷ [])) u'

  -- The items go behind those of the caller's container.
  unfoldable pub unpack_array : List A → Unpacker → List A × Unpacker
  unpack_array array u =
      let (n, u') = unpack_count Tag.array16 Tag.array32 u in unpack_each n array u'

-- A map takes the entries that `unpack_each` gives, in this order, by `insert_or_assign`.
module _ {K V : Type 0} (unpack_key : Unpacker → K × Unpacker)
    (unpack_value : Unpacker → V × Unpacker) where
  unfoldable pub unpack_entry : Unpacker → (K × V) × Unpacker
  unpack_entry u = let (k, u') = unpack_key u in let (v, u'') = unpack_value u' in ((k, v), u'')

  -- `insert_or_assign` is that of the map type `M`.
  module _ {M : Type 0} (insert_or_assign : K → V → M → M) where
    unfoldable pub assign_each : ℕ → M → Unpacker → M × Unpacker
    unfolding unpack_entry
    assign_each zero map u = (map, u)
    assign_each (suc n) map u =
        let (entry, u') = unpack_entry u in assign_each n (insert_or_assign entry.0 entry.1 map) u'

    unfoldable pub unpack_map : M → Unpacker → M × Unpacker
    unpack_map map u = let (n, u') = unpack_count Tag.map16 Tag.map32 u in assign_each n map u'
