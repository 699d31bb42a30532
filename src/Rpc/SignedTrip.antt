-- ===== src/Rpc/SignedTrip.antt =====
-- Signed integers of 16, 32 and 64 bits: reading them back, and the negative numbers that come back wrong.
use plain.Prelude.{
  ℕ, ◌+◌, ◌-◌, ◌*◌, ◌^◌, ◌≤◌, ◌<◌, ◌≡◌, ◌∙◌, refl, sym, ap, ap₂, some, List, [], ◌∷◌, ◌++◌, length,
  ltb, if◌then◌else◌, inl, inr, Bool-cases, arith,
}
use plain.Prelude.Int.{ℤ, pos, negsuc}
use plain.Endian.{be_bytes}
use plain.Rpc.Packer.{magnitude, twos_complement, is_least, pack_int16, pack_int32, pack_int64}
use plain.Rpc.Unpacker.{
  Unpacker, as_signed, peek_byte, increment, or_be, unpack_int16, unpack_int32, unpack_int64,
}
use plain.Rpc.Cursor.{emplace_be-be_bytes, ahead, moved, peek_ahead, low_value}
use native.Mathlib.Decide.{dec_lt}
use plain.Rpc.Signed.{
  IsInt, tagged_or, signed16, signed32, signed64, packed8, pack_int8_lem, misread, small16, small32,
}

abbrev wide_form : ℕ → ℕ → ℕ → ℤ → List ℕ
wide_form tag k w v = tag ∷ be_bytes k (twos_complement w v)

pack_int16_small : (v : ℤ) → magnitude v < 128 → pack_int16 v [] ≡ packed8 v
unfolding pack_int16
pack_int16_small v h = ground (arith, pack_int8_lem v)

pack_int16_wide : (v : ℤ) → 128 ≤ magnitude v → pack_int16 v [] ≡ wide_form 3 2 16 v
unfolding pack_int16
pack_int16_wide v h = ground (arith, emplace_be-be_bytes 2 (twos_complement 16 v) (3 ∷ []))

misread_wide : (v : ℤ) → 128 ≤ magnitude v → misread v ≡ v
misread_wide (pos n) h = refl
misread_wide (negsuc n) h = ground arith

-- A tagged number of `k` bytes, read through a bitset.
or_form :
    (u : Unpacker) (tag k w : ℕ) (v : ℤ) (rest : List ℕ)
    → ahead u ≡ wide_form tag k w v ++ rest
    → 8 * k ≤ w
    → (peek_byte u ≡ (tag, u))
      × (or_be w k 0 (increment 1 u) ≡ (low_value k (twos_complement w v), moved u (1 + k)))
or_form u tag k w v rest e h = (
  peek_ahead u tag (be_bytes k (twos_complement w v) ++ rest) e,
  tagged_or u tag w k (twos_complement w v) rest e h,
)

wide16 :
    (u : Unpacker) (v : ℤ) (rest : List ℕ)
    → IsInt 16 v
    → ahead u ≡ wide_form 3 2 16 v ++ rest
    → (peek_byte u ≡ (3, u)) × (unpack_int16 u ≡ (v, moved u 3))
unfolding unpack_int16
wide16 u v rest h e =
    (t.0, rw (t.0) (ap (as_signed 16) t.1 ∙ ap (λ a. (a, moved u 3)) (signed16 v h)))
  where
    t :
        (peek_byte u ≡ (3, u))
        × (or_be 16 2 0 (increment 1 u) ≡ (low_value 2 (twos_complement 16 v), moved u 3))
    t = or_form u 3 2 16 v rest e (omega arith)

wide32 :
    (u : Unpacker) (v : ℤ) (rest : List ℕ)
    → IsInt 32 v
    → ahead u ≡ wide_form 5 4 32 v ++ rest
    → (peek_byte u ≡ (5, u)) × (unpack_int32 u ≡ (v, moved u 5))
unfolding unpack_int32
wide32 u v rest h e =
    (t.0, rw (t.0) (ap (as_signed 32) t.1 ∙ ap (λ a. (a, moved u 5)) (signed32 v h)))
  where
    t :
        (peek_byte u ≡ (5, u))
        × (or_be 32 4 0 (increment 1 u) ≡ (low_value 4 (twos_complement 32 v), moved u (1 + 4)))
    t = or_form u 5 4 32 v rest e (omega arith)

wide64 :
    (u : Unpacker) (v : ℤ) (rest : List ℕ)
    → IsInt 64 v
    → ahead u ≡ wide_form 7 8 64 v ++ rest
    → unpack_int64 u ≡ (v, moved u 9)
unfolding unpack_int64
wide64 u v rest h e = rw (t.0) (ap (as_signed 64) t.1 ∙ ap (λ a. (a, moved u 9)) (signed64 v h))
  where
    t :
        (peek_byte u ≡ (7, u))
        × (or_be 64 8 0 (increment 1 u) ≡ (low_value 8 (twos_complement 64 v), moved u (1 + 8)))
    t = or_form u 7 8 64 v rest e (omega arith)

-- The shortest form of a signed number, by its absolute value.
unfoldable pub int_form : ℤ → List ℕ
int_form v =
    if ltb (magnitude v) 128
    then packed8 v
    else if ltb (magnitude v) 32768
    then wide_form 3 2 16 v
    else if ltb (magnitude v) (2 ^ 31)
    then wide_form 5 4 32 v
    else wide_form 7 8 64 v

module _ (v : ℤ) where
  int_form_8 : magnitude v < 128 → int_form v ≡ packed8 v
  unfolding int_form
  int_form_8 h = ground arith

  int_form_16 : 128 ≤ magnitude v → magnitude v < 32768 → int_form v ≡ wide_form 3 2 16 v
  unfolding int_form
  int_form_16 l h = ground arith

  int_form_32 : 32768 ≤ magnitude v → magnitude v < 2 ^ 31 → int_form v ≡ wide_form 5 4 32 v
  unfolding int_form
  int_form_32 l h = ground arith

  pack_int16_form : magnitude v < 32768 → pack_int16 v [] ≡ int_form v
  pack_int16_form h = elim (dec_lt (magnitude v) 128) [
    | yes p ↦ pack_int16_small v p ∙ sym (int_form_8 p)
    | no p ↦ pack_int16_wide v (omega arith) ∙ sym (int_form_16 (omega arith) h)
  ]

  pack_int32_form : magnitude v < 2 ^ 31 → pack_int32 v [] ≡ some (int_form v)
  unfolding pack_int32
  pack_int32_form h = elim (dec_lt (magnitude v) 32768) [
    | yes p ↦ ground (arith, pack_int16_form p)
    | no p ↦
        ground (
          arith,
          int_form_32 (omega arith) h,
          emplace_be-be_bytes 4 (twos_complement 32 v) (5 ∷ []),
        )
  ]

IsInt-of_magnitude : (w : ℕ) (v : ℤ) → magnitude v < 2 ^ (w - 1) → IsInt w v
IsInt-of_magnitude w (pos n) h = h
IsInt-of_magnitude w (negsuc n) h = omega arith

module _ (u : Unpacker) (v : ℤ) (rest : List ℕ) (e : ahead u ≡ int_form v ++ rest) where
  ahead_form : (xs : List ℕ) → int_form v ≡ xs → ahead u ≡ xs ++ rest
  ahead_form xs q = e ∙ ap (λ t. t ++ rest) q

  -- The bytes of a form give its number back, with the cursor behind them.
  rest_of :
      (result : ℤ × Unpacker) (xs : List ℕ)
      → int_form v ≡ xs
      → 128 ≤ magnitude v
      → result ≡ (v, moved u (length xs))
      → result ≡ (misread v, moved u (length (int_form v)))
  rest_of result xs q l r =
      r ∙ ap₂ (λ a t. (a, moved u (length t))) (sym (misread_wide v l)) (sym q)

  -- A 16-bit number above -32768 is packed in its shortest form, and read back from it with the
  -- cursor behind its bytes, but for the numbers from -127 to -1, which come back 256 larger.
  pub unpack_int16-pack_int16 :
      magnitude v < 32768
      → (pack_int16 v [] ≡ int_form v)
        × (unpack_int16 u ≡ (misread v, moved u (length (int_form v))))
  unfolding be_bytes
  unpack_int16-pack_int16 h = (
    pack_int16_form v h,
    elim (dec_lt (magnitude v) 128) [
      | yes p ↦
          small16 u v rest p (ahead_form (packed8 v) (int_form_8 v p))
          ∙ ap (λ t. (misread v, moved u (length t))) (sym (int_form_8 v p))
      | no p ↦
          let q : int_form v ≡ wide_form 3 2 16 v = int_form_16 v (omega arith) h in
          rest_of (unpack_int16 u) (wide_form 3 2 16 v) q (omega arith)
            (wide16 u v rest (IsInt-of_magnitude 16 v h) (ahead_form (wide_form 3 2 16 v) q)).1
    ],
  )

  -- A 32-bit number above the least is packed in its shortest form, and read back from it with
  -- the cursor behind its bytes, but for the numbers from -127 to -1, which come back 256 larger.
  pub unpack_int32-pack_int32 :
      magnitude v < 2 ^ 31
      → (pack_int32 v [] ≡ some (int_form v))
        × (unpack_int32 u ≡ (misread v, moved u (length (int_form v))))
  unfolding unpack_int32 be_bytes
  unpack_int32-pack_int32 h = (
    pack_int32_form v h,
    elim (dec_lt (magnitude v) 128) [
      | yes p ↦
          small32 u v rest p (ahead_form (packed8 v) (int_form_8 v p))
          ∙ ap (λ t. (misread v, moved u (length t))) (sym (int_form_8 v p))
      | no p ↦ elim (dec_lt (magnitude v) 32768) [
        | yes p' ↦
            let q : int_form v ≡ wide_form 3 2 16 v = int_form_16 v (omega arith) p' in
            let t : (peek_byte u ≡ (3, u)) × (unpack_int16 u ≡ (v, moved u 3)) =
              wide16 u v rest (IsInt-of_magnitude 16 v p') (ahead_form (wide_form 3 2 16 v) q) in
            rest_of (unpack_int32 u) (wide_form 3 2 16 v) q (omega arith) (rw (t.0, t.1) refl)
        | no p' ↦
            let q : int_form v ≡ wide_form 5 4 32 v = int_form_32 v (omega arith) h in
            rest_of (unpack_int32 u) (wide_form 5 4 32 v) q (omega arith)
              (wide32 u v rest (IsInt-of_magnitude 32 v h) (ahead_form (wide_form 5 4 32 v) q)).1
      ]
    ],
  )

-- A 64-bit number is packed as a tag and eight bytes, however small it is: the test for a shorter
-- form is never met.
pack_int64_wide : (v : ℤ) → IsInt 64 v → pack_int64 v [] ≡ some (wide_form 7 8 64 v)
unfolding pack_int64
pack_int64_wide (pos n) h = ap some (emplace_be-be_bytes 8 (twos_complement 64 (pos n)) (7 ∷ []))
pack_int64_wide (negsuc n) h = elim (Bool-cases (is_least 64 (negsuc n))) [
  | inl lowest ↦
      rw lowest (ap some (emplace_be-be_bytes 8 (twos_complement 64 (negsuc n)) (7 ∷ [])))
  | inr above ↦ rw above (ap some (emplace_be-be_bytes 8 (twos_complement 64 (negsuc n)) (7 ∷ [])))
]

-- A 64-bit number is packed as the tag 7 and its two's complement in eight bytes, highest first,
-- also when it fits in fewer; from a cursor in front of these bytes it is read back, the least
-- and the negative ones included, with the cursor behind them.
pub unpack_int64-pack_int64 :
    (u : Unpacker) (v : ℤ) (rest : List ℕ)
    → IsInt 64 v
    → ahead u ≡ (7 ∷ be_bytes 8 (twos_complement 64 v)) ++ rest
    → (pack_int64 v [] ≡ some (7 ∷ be_bytes 8 (twos_complement 64 v)))
      × (unpack_int64 u ≡ (v, moved u 9))
unpack_int64-pack_int64 u v rest h e = (pack_int64_wide v h, wide64 u v rest h e)
