-- ===== src/Rpc/UnsignedTrip.antt =====
-- Reading an unsigned integer back, for each width, and the values for which that fails.
use plain.Prelude.{
  ℕ, ◌+◌, ◌^◌, ◌<◌, ◌≡◌, ◌≢◌, ◌∙◌, sym, ap, List, [], ◌∷◌, ◌++◌, length, ltb, leb, ◌&&◌,
  if◌then◌else◌, arith,
}
use plain.Endian.{be_bytes}
use plain.Rpc.Packer.{pack_uint8, pack_uint16, pack_uint32, pack_uint64}
use plain.Rpc.Unpacker.{Unpacker, skip, unpack_uint8, unpack_uint16, unpack_uint32, unpack_uint64}
use plain.Rpc.Cursor.{ahead, moved, moved_add, peek_ahead}
use plain.Rpc.Unsigned.{
  form, pack_uint8-form, pack_uint16-form, pack_uint32-form, pack_uint64-form, tagged_byte,
  read_alone, read_8, read_16, read_32, read_64,
}
use native.Mathlib.Decide.{dec_lt}

-- How many bytes the shortest form has.
abbrev pub form_size : ℕ → ℕ
form_size v =
    if leb v 127
    then 1
    else if leb v 255
    then 2
    else if leb v 65535
    then 3
    else if leb v 4294967295
    then 5
    else 9

pub length-form : (v : ℕ) → length (form v) ≡ form_size v
unfolding form be_bytes
length-form v = ground arith

module _ (u : Unpacker) (v : ℕ) (rest : List ℕ) (e : ahead u ≡ form v ++ rest) where
  unpack_uint8-form : v < 2 ^ 8 → v ≢ 2 → unpack_uint8 u ≡ (v, moved u (form_size v))
  unfolding unpack_uint8
  unpack_uint8-form h no_tag = elim (dec_lt 127 v) [
    | yes l ↦ ground (arith, read_8 u v rest e l (omega arith))
    | no l ↦ ground (arith, read_alone u v rest e (omega arith))
  ]

  unpack_uint16-form : v < 2 ^ 16 → v ≢ 2 → v ≢ 4 → unpack_uint16 0 u ≡ (v, moved u (form_size v))
  unfolding unpack_uint16
  unpack_uint16-form h no_tag no_tag' = elim (dec_lt 127 v) [
    | yes l ↦ elim (dec_lt 255 v) [
      | yes l' ↦ ground (arith, read_16 u v rest e 16 h l' (omega arith))
      | no l' ↦ ground (arith, read_8 u v rest e l (omega arith))
    ]
    | no l ↦ ground (arith, read_alone u v rest e (omega arith))
  ]

  unpack_uint32-form :
      v < 2 ^ 32 → v ≢ 2 → v ≢ 4 → v ≢ 6 → unpack_uint32 0 u ≡ (v, moved u (form_size v))
  unfolding unpack_uint32
  unpack_uint32-form h no_tag no_tag' no_tag'' = elim (dec_lt 127 v) [
    | yes l ↦ elim (dec_lt 255 v) [
      | yes l' ↦ elim (dec_lt 65535 v) [
        | yes l'' ↦ ground (arith, read_32 u v rest e 32 h l'' (omega arith))
        | no l'' ↦ ground (arith, read_16 u v rest e 32 h l' (omega arith))
      ]
      | no l' ↦ ground (arith, read_8 u v rest e l (omega arith))
    ]
    | no l ↦ ground (arith, read_alone u v rest e (omega arith))
  ]

  unpack_uint64-form :
      v < 2 ^ 64
      → v ≢ 2
      → v ≢ 4
      → v ≢ 6
      → v ≢ 8
      → unpack_uint64 0 u
        ≡ (v, moved u (form_size v + (if ltb 65535 v && leb v 4294967295 then 1 else 0)))
  unfolding unpack_uint64 skip
  unpack_uint64-form h no_tag no_tag' no_tag'' no_tag''' = elim (dec_lt 127 v) [
    | yes l ↦ elim (dec_lt 255 v) [
      | yes l' ↦ elim (dec_lt 65535 v) [
        | yes l'' ↦ elim (dec_lt 4294967295 v) [
          | yes l''' ↦ ground (arith, read_64 u v rest e h l''')
          | no l''' ↦ ground (arith, read_32 u v rest e 64 h l'' (omega arith), moved_add u 5 1)
        ]
        | no l'' ↦ ground (arith, read_16 u v rest e 64 h l' (omega arith))
      ]
      | no l' ↦ ground (arith, read_8 u v rest e l (omega arith))
    ]
    | no l ↦ ground (arith, read_alone u v rest e (omega arith))
  ]

-- Behind what was packed, by the length of the packed bytes.
packed_size : (v : ℕ) (packed : List ℕ) → packed ≡ form v → form_size v ≡ length packed
packed_size v packed e = sym (length-form v) ∙ ap length (sym e)

-- An 8-bit number but 2, the tag of its type, is read back, with the cursor behind its bytes.
pub unpack_uint8-pack_uint8 :
    (u : Unpacker) (v : ℕ) (rest : List ℕ)
    → ahead u ≡ pack_uint8 v [] ++ rest
    → v < 2 ^ 8
    → v ≢ 2
    → unpack_uint8 u ≡ (v, moved u (length (pack_uint8 v [])))
unpack_uint8-pack_uint8 u v rest e h t2 =
    let packed = pack_uint8-form v [] h in
    unpack_uint8-form u v rest (e ∙ ap (λ t. t ++ rest) packed) h t2
    ∙ ap (λ n. (v, moved u (n))) (packed_size v (pack_uint8 v []) packed)

-- A 16-bit number but 2 and 4, the tags of two types, is read back into a variable that is 0,
-- with the cursor behind its bytes.
pub unpack_uint16-pack_uint16 :
    (u : Unpacker) (v : ℕ) (rest : List ℕ)
    → ahead u ≡ pack_uint16 v [] ++ rest
    → v < 2 ^ 16
    → v ≢ 2
    → v ≢ 4
    → unpack_uint16 0 u ≡ (v, moved u (length (pack_uint16 v [])))
unpack_uint16-pack_uint16 u v rest e h t2 t4 =
    let packed = pack_uint16-form v [] h in
    unpack_uint16-form u v rest (e ∙ ap (λ t. t ++ rest) packed) h t2 t4
    ∙ ap (λ n. (v, moved u (n))) (packed_size v (pack_uint16 v []) packed)

-- A 32-bit number but 2, 4 and 6, the tags of three types, is read back into a variable that is
-- 0, with the cursor behind its bytes.
pub unpack_uint32-pack_uint32 :
    (u : Unpacker) (v : ℕ) (rest : List ℕ)
    → ahead u ≡ pack_uint32 v [] ++ rest
    → v < 2 ^ 32
    → v ≢ 2
    → v ≢ 4
    → v ≢ 6
    → unpack_uint32 0 u ≡ (v, moved u (length (pack_uint32 v [])))
unpack_uint32-pack_uint32 u v rest e h t2 t4 t6 =
    let packed = pack_uint32-form v [] h in
    unpack_uint32-form u v rest (e ∙ ap (λ t. t ++ rest) packed) h t2 t4 t6
    ∙ ap (λ n. (v, moved u (n))) (packed_size v (pack_uint32 v []) packed)

-- A 64-bit number but 2, 4, 6 and 8, the tags of four types, is read back into a variable that is
-- 0. The cursor is behind its bytes, or for 65536 up to 2^32 - 1 a byte too far.
pub unpack_uint64-pack_uint64 :
    (u : Unpacker) (v : ℕ) (rest : List ℕ)
    → ahead u ≡ pack_uint64 v [] ++ rest
    → v < 2 ^ 64
    → v ≢ 2
    → v ≢ 4
    → v ≢ 6
    → v ≢ 8
    → unpack_uint64 0 u ≡ (
      v,
      moved u (length (pack_uint64 v []) + (if ltb 65535 v && leb v 4294967295 then 1 else 0)),
    )
unpack_uint64-pack_uint64 u v rest e h t2 t4 t6 t8 =
    let packed = pack_uint64-form v [] h in
    unpack_uint64-form u v rest (e ∙ ap (λ t. t ++ rest) packed) h t2 t4 t6 t8
    ∙ ap (λ n. (v, moved u (n + (if ltb 65535 v && leb v 4294967295 then 1 else 0))))
        (packed_size v (pack_uint64 v []) packed)

-- The 8-bit number 2 is packed as this one byte, which `unpack` takes for the tag of its own type:
-- what it reads is the byte that follows, whatever that is.
pub unpack_uint8_takes_tag :
    (u : Unpacker) (next : ℕ) (rest : List ℕ)
    → ahead u ≡ pack_uint8 2 [] ++ (next ∷ rest)
    → unpack_uint8 u ≡ (next, moved u 2)
unfolding pack_uint8 unpack_uint8
unpack_uint8_takes_tag u next rest e =
    rw (peek_ahead u 2 (next ∷ rest) e) (tagged_byte u 2 next rest e)
