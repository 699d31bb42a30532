-- ===== src/Rpc/Tests.antt =====
-- Packing and unpacking concrete values, behind a byte that was read before.
use plain.Prelude.{
  ℕ, ◌+◌, ◌≡◌, refl, false, ◌&&◌, some, List, [], ◌∷◌, ◌++◌, length, ltb, leb, if◌then◌else◌, arith,
}
use plain.Prelude.Int.{negsuc}
use plain.Endian.{be_bytes}
use plain.Rpc.Packer.{
  emplace_be, pack_uint8, pack_uint16, pack_uint32, pack_uint64, pack_int8, pack_int64,
  twos_complement,
}
use plain.Rpc.Unpacker.{Unpacker, unpack_uint64, unpack_int64}
use plain.Rpc.Cursor.{ahead, moved}
use plain.Rpc.UnsignedTrip.{unpack_uint64-pack_uint64}
use plain.Rpc.Signed.{packed8}
use plain.Rpc.SignedTrip.{int_form, unpack_int64-pack_int64}

-- A cursor in front of these bytes.
abbrev at_bytes : List ℕ → Unpacker
at_bytes bytes = record { bytes = 99 ∷ bytes; position = 1; failed = false }

ahead_uint8 : ahead (at_bytes (2 ∷ 200 ∷ 42 ∷ [])) ≡ pack_uint8 200 [] ++ (42 ∷ [])
unfolding pack_uint8
ahead_uint8 = refl

ahead_uint16 : ahead (at_bytes (4 ∷ 1 ∷ 44 ∷ 42 ∷ [])) ≡ pack_uint16 300 [] ++ (42 ∷ [])
unfolding pack_uint8 pack_uint16 emplace_be
ahead_uint16 = refl

ahead_uint32 : ahead (at_bytes (6 ∷ 0 ∷ 1 ∷ 17 ∷ 112 ∷ 42 ∷ [])) ≡ pack_uint32 70000 [] ++ (42 ∷ [])
unfolding pack_uint8 pack_uint16 pack_uint32 emplace_be
ahead_uint32 = refl

ahead_uint64 : ahead (at_bytes (6 ∷ 0 ∷ 1 ∷ 17 ∷ 112 ∷ 42 ∷ [])) ≡ pack_uint64 70000 [] ++ (42 ∷ [])
unfolding pack_uint8 pack_uint16 pack_uint32 pack_uint64 emplace_be
ahead_uint64 = refl

unpack_uint64-pack_uint64_example : unpack_uint64 0 (at_bytes (6 ∷ 0 ∷ 1 ∷ 17 ∷ 112 ∷ 42 ∷ [])) ≡ (
  70000,
  moved
      (at_bytes (6 ∷ 0 ∷ 1 ∷ 17 ∷ 112 ∷ 42 ∷ []))
      (length (pack_uint64 70000 []) + (if ltb 65535 70000 && leb 70000 4294967295 then 1 else 0)),
)
unpack_uint64-pack_uint64_example =
    unpack_uint64-pack_uint64 (at_bytes (6 ∷ 0 ∷ 1 ∷ 17 ∷ 112 ∷ 42 ∷ [])) 70000 (42 ∷ [])
      ahead_uint64 (omega arith) (omega arith) (omega arith) (omega arith) (omega arith)

ahead_tag : ahead (at_bytes (2 ∷ 42 ∷ [])) ≡ pack_uint8 2 [] ++ (42 ∷ [])
unfolding pack_uint8
ahead_tag = refl

ahead_int8 : ahead (at_bytes (251 ∷ 42 ∷ [])) ≡ pack_int8 (negsuc 4) [] ++ (42 ∷ [])
unfolding pack_int8
ahead_int8 = refl

ahead_int16 : ahead (at_bytes (251 ∷ 42 ∷ [])) ≡ int_form (negsuc 4) ++ (42 ∷ [])
unfolding int_form packed8
ahead_int16 = refl

ahead_int32 : ahead (at_bytes (3 ∷ 254 ∷ 212 ∷ 42 ∷ [])) ≡ int_form (negsuc 299) ++ (42 ∷ [])
unfolding int_form be_bytes
ahead_int32 = refl

-- -70000 in eight bytes.
abbrev wide_bytes : List ℕ
wide_bytes = 7 ∷ 255 ∷ 255 ∷ 255 ∷ 255 ∷ 255 ∷ 254 ∷ 238 ∷ 144 ∷ []

wide_bytes_test : 7 ∷ be_bytes 8 (twos_complement 64 (negsuc 69999)) ≡ wide_bytes
unfolding be_bytes
wide_bytes_test = refl

ahead_int64 :
    ahead (at_bytes (wide_bytes ++ (42 ∷ [])))
    ≡ (7 ∷ be_bytes 8 (twos_complement 64 (negsuc 69999))) ++ (42 ∷ [])
unfolding be_bytes
ahead_int64 = refl

unpack_int64-pack_int64_example :
    (pack_int64 (negsuc 69999) [] ≡ some (7 ∷ be_bytes 8 (twos_complement 64 (negsuc 69999))))
    × (unpack_int64 (at_bytes (wide_bytes ++ (42 ∷ [])))
        ≡ (negsuc 69999, moved (at_bytes (wide_bytes ++ (42 ∷ []))) 9))
unpack_int64-pack_int64_example =
    unpack_int64-pack_int64 (at_bytes (wide_bytes ++ (42 ∷ []))) (negsuc 69999) (42 ∷ [])
      (omega arith) ahead_int64
