-- ===== src/Rpc/Signed.antt =====
-- Signed integers: reading them back for each width, and the negative numbers that come back wrong.
use plain.Prelude.{
  ℕ, ◌+◌, ◌-◌, ◌*◌, ◌^◌, ◌≤◌, ◌<◌, ◌≡◌, ◌≢◌, ◌∙◌, refl, sym, ap, ap₂, true, false, List, [], ◌∷◌,
  ◌++◌, length, ltb, Bool-cases, if◌then◌else◌, ◌⊎◌, inl, inr, arith,
}
use plain.Prelude.Int.{ℤ, pos, negsuc}
use plain.Endian.{be_bytes}
use plain.Rpc.Packer.{magnitude, twos_complement, is_tag_like, pack_int8}
use plain.Rpc.Unpacker.{
  Unpacker, as_signed, as_pos, peek_byte, increment, take_byte, or_be, signed, unpack_int8,
  unpack_int16, unpack_int32,
}
use plain.Rpc.Cursor.{
  ahead, moved, moved_add, peek_ahead, increment_ahead, ahead-moved, take_ahead, or_be-ahead,
  low_value,
}
use plain.Rpc.Unsigned.{tagged_byte}

-- The values of a signed integer of `w` bits.
abbrev pub IsInt : ℕ → ℤ → Type 0
IsInt w (pos n) = n < 2 ^ (w - 1)
IsInt w (negsuc n) = n < 2 ^ (w - 1)

pub tagged_or :
    (u : Unpacker) (tag w k v : ℕ) (rest : List ℕ)
    → ahead u ≡ tag ∷ (be_bytes k v ++ rest)
    → 8 * k ≤ w
    → or_be w k 0 (increment 1 u) ≡ (low_value k v, moved u (1 + k))
tagged_or u tag w k v rest e h = step ∙ ap (λ t. (t, moved u (1 + k))) (omega arith)
  where
    none_yet : 0 ≡ 0 * 2 ^ (8 * k)
    none_yet = omega arith

    step : or_be w k 0 (increment 1 u) ≡ (0 * 2 ^ (8 * k) + low_value k v, moved u (1 + k))
    step =
        ap (λ t. or_be w k t (increment 1 u)) none_yet
        ∙ rw (increment_ahead u tag (be_bytes k v ++ rest) e) (
            or_be-ahead w k v 0 (moved u 1) rest (ahead-moved u tag (be_bytes k v ++ rest) e) h
            ∙ ap (λ t. (0 * 2 ^ (8 * k) + low_value k v, t)) (moved_add u 1 k))

-- Two's complement is undone.
pub signed16 : (v : ℤ) → IsInt 16 v → signed 16 (low_value 2 (twos_complement 16 v)) ≡ v
signed16 (pos n) h = ground arith
signed16 (negsuc n) h = ground arith

pub signed32 : (v : ℤ) → IsInt 32 v → signed 32 (low_value 4 (twos_complement 32 v)) ≡ v
signed32 (pos n) h = ground arith
signed32 (negsuc n) h = ground arith

pub signed64 : (v : ℤ) → IsInt 64 v → signed 64 (low_value 8 (twos_complement 64 v)) ≡ v
signed64 (pos n) h = ground arith
signed64 (negsuc n) h = ground arith

-- The bytes of an 8-bit number, with its tag if it could be taken for one.
unfoldable pub packed8 : ℤ → List ℕ
packed8 v = if is_tag_like v then 1 ∷ twos_complement 8 v ∷ [] else twos_complement 8 v ∷ []

pub pack_int8_lem : (v : ℤ) → pack_int8 v [] ≡ packed8 v
unfolding pack_int8 packed8
pack_int8_lem v = ground arith

unpack_int8_tagged :
    (u : Unpacker) (b : ℕ) (rest : List ℕ)
    → ahead u ≡ 1 ∷ b ∷ rest
    → unpack_int8 u ≡ (signed 8 b, moved u 2)
unfolding unpack_int8
unpack_int8_tagged u b rest e =
    rw (peek_ahead u 1 (b ∷ rest) e) (ap (as_signed 8) (tagged_byte u 1 b rest e))

unpack_int8_alone :
    (u : Unpacker) (b : ℕ) (rest : List ℕ)
    → ahead u ≡ b ∷ rest
    → b ≢ 1
    → unpack_int8 u ≡ (signed 8 b, moved u 1)
unfolding unpack_int8
unpack_int8_alone u b rest e h = ground (arith, peek_ahead u b rest e, take_ahead u b rest e)

signed8 : (v : ℤ) → IsInt 8 v → signed 8 (twos_complement 8 v) ≡ v
signed8 (pos n) h = ground arith
signed8 (negsuc n) h = ground arith

-- Only the number 1 has the bits of that tag.
not_tag : (v : ℤ) → IsInt 8 v → is_tag_like v ≡ false → twos_complement 8 v ≢ 1
not_tag (pos n) h e = grind arith
not_tag (negsuc n) h e = omega arith

-- An 8-bit number is read back, and the cursor moves behind its bytes.
pub unpack_int8-pack_int8 :
    (u : Unpacker) (v : ℤ) (rest : List ℕ)
    → IsInt 8 v
    → ahead u ≡ pack_int8 v [] ++ rest
    → unpack_int8 u ≡ (v, moved u (length (pack_int8 v [])))
unpack_int8-pack_int8 u v rest h e = elim (Bool-cases (is_tag_like v)) [
  | inl tag ↦
      let packed : pack_int8 v [] ≡ 1 ∷ twos_complement 8 v ∷ [] =
        pack_int8_lem v ∙ (unfold packed8 in rw tag refl) in
      unpack_int8_tagged u (twos_complement 8 v) rest (e ∙ ap (λ t. t ++ rest) packed)
      ∙ ap₂ (λ a n. (a, moved u n)) (signed8 v h) (sym (ap length packed))
  | inr raw ↦
      let packed : pack_int8 v [] ≡ twos_complement 8 v ∷ [] =
        pack_int8_lem v ∙ (unfold packed8 in rw raw refl) in
      unpack_int8_alone u (twos_complement 8 v) rest (e ∙ ap (λ t. t ++ rest) packed)
        (not_tag v h raw)
      ∙ ap₂ (λ a n. (a, moved u n)) (signed8 v h) (sym (ap length packed))
]

-- What a wider signed type makes of a small number: the 127 least negative ones come back 256 larger.
abbrev pub misread : ℤ → ℤ
misread (pos n) = pos n
misread (negsuc n) = if ltb n 127 then pos (255 - n) else negsuc n

-- The byte of a small number that needs no tag is none of the four tags, and misread by the rule.
abbrev IsUntagged : ℤ → ℕ → Type 0
IsUntagged v b = (misread v ≡ pos b) × (b ≢ 1) × (b ≢ 3) × (b ≢ 5) × (b ≢ 7)

raw_byte : (v : ℤ) → magnitude v < 128 → is_tag_like v ≡ false → IsUntagged v (twos_complement 8 v)
raw_byte (pos n) h e = (ap pos (omega arith), grind arith, grind arith, grind arith, grind arith)
raw_byte (negsuc n) h e = (ground arith, omega arith, omega arith, omega arith, omega arith)

tagged_sound :
    (v : ℤ) → magnitude v < 128 → is_tag_like v ≡ true → signed 8 (twos_complement 8 v) ≡ misread v
tagged_sound (pos n) h e = signed8 (pos n) h
tagged_sound (negsuc n) h e = ground arith

-- A small number, whatever the width that reads it.
module _ (u : Unpacker) (v : ℤ) (rest : List ℕ) (small : magnitude v < 128)
    (e : ahead u ≡ packed8 v ++ rest) where
  split_small :
      ((is_tag_like v ≡ true)
        × (peek_byte u ≡ (1, u))
        × (unpack_int8 u ≡ (misread v, moved u (length (packed8 v)))))
      ⊎ (IsUntagged v (twos_complement 8 v)
          × (peek_byte u ≡ (twos_complement 8 v, u))
          × (as_pos (take_byte u) ≡ (misread v, moved u (length (packed8 v)))))
  split_small = elim (Bool-cases (is_tag_like v)) [
    | inl tag ↦
        let shape : packed8 v ≡ 1 ∷ twos_complement 8 v ∷ [] = unfold packed8 in rw tag refl in
        let e' : ahead u ≡ 1 ∷ twos_complement 8 v ∷ rest = e ∙ ap (λ t. t ++ rest) shape in
        inl (
          tag,
          peek_ahead u 1 (twos_complement 8 v ∷ rest) e',
          unpack_int8_tagged u (twos_complement 8 v) rest e'
              ∙ ap₂ (λ a n. (a, moved u n)) (tagged_sound v small tag) (sym (ap length shape)),
        )
    | inr raw ↦
        let shape : packed8 v ≡ twos_complement 8 v ∷ [] = unfold packed8 in rw raw refl in
        let e' : ahead u ≡ twos_complement 8 v ∷ rest = e ∙ ap (λ t. t ++ rest) shape in
        inr (
          raw_byte v small raw,
          peek_ahead u (twos_complement 8 v) rest e',
          ap as_pos (take_ahead u (twos_complement 8 v) rest e')
              ∙ ap₂ (λ a n. (a, moved u n)) (sym (raw_byte v small raw).0) (sym (ap length shape)),
        )
  ]

  pub small16 : unpack_int16 u ≡ (misread v, moved u (length (packed8 v)))
  unfolding unpack_int16
  small16 = elim split_small [ inl t ↦ ground (arith, t) | inr t ↦ ground (arith, t) ]

  pub small32 : unpack_int32 u ≡ (misread v, moved u (length (packed8 v)))
  unfolding unpack_int32
  small32 = elim split_small [ inl t ↦ ground (arith, t) | inr t ↦ ground (arith, t) ]
