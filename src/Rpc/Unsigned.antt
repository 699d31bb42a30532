-- ===== src/Rpc/Unsigned.antt =====
-- Unsigned integers: the bytes that the four widths share, and reading them back.
use plain.Prelude.{
  ℕ, ◌+◌, ◌%◌, ◌^◌, ◌≤◌, ◌<◌, ◌≡◌, ◌∙◌, ap, List, [], ◌∷◌, ◌++◌, append_assoc, leb, if◌then◌else◌,
  arith,
}
use plain.Endian.{be_bytes}
use plain.Rpc.Packer.{emplace, pack_uint8, pack_uint16, pack_uint32, pack_uint64}
use plain.Rpc.Unpacker.{Unpacker, peek_byte, increment, take_byte, sum_be}
use plain.Rpc.Cursor.{
  emplace_be-be_bytes, ahead, moved, moved_add, peek_ahead, increment_ahead, ahead-moved,
  take_ahead, sum_be-ahead, low_value,
}
use native.Mathlib.Decide.{dec_lt}
use native.Mathlib.Nat.{one-le-pow, mod-eq_of_lt}

-- The shortest form of a number: alone up to 127, else behind the tag of its width.
unfoldable pub form : ℕ → List ℕ
form v =
    if leb v 127
    then v ∷ []
    else if leb v 255
    then 2 ∷ v ∷ []
    else if leb v 65535
    then 4 ∷ be_bytes 2 v
    else if leb v 4294967295
    then 6 ∷ be_bytes 4 v
    else 8 ∷ be_bytes 8 v

pub pack_uint8-form : (v : ℕ) (out : List ℕ) → v < 2 ^ 8 → pack_uint8 v out ≡ out ++ form v
unfolding pack_uint8 form
pack_uint8-form v out h = ground (arith, append_assoc out (2 ∷ []) (v ∷ []))

pub pack_uint16-form : (v : ℕ) (out : List ℕ) → v < 2 ^ 16 → pack_uint16 v out ≡ out ++ form v
unfolding pack_uint16
pack_uint16-form v out h = elim (dec_lt 255 v) [
  | yes p ↦ ground (
    arith,
    emplace_be-be_bytes 2 v (emplace 4 out),
    append_assoc out (4 ∷ []) (be_bytes 2 v),
    wide p,
  )
  | no p ↦ ground (arith, pack_uint8-form v out (omega arith), low p)
]
  where
    wide : 255 < v → form v ≡ 4 ∷ be_bytes 2 v
    wide p = unfold form in ground arith

    low : ¬ (255 < v) → v % 2 ^ 8 ≡ v
    low p = omega arith

pub pack_uint32-form : (v : ℕ) (out : List ℕ) → v < 2 ^ 32 → pack_uint32 v out ≡ out ++ form v
unfolding pack_uint32
pack_uint32-form v out h = elim (dec_lt 65535 v) [
  | yes p ↦ ground (
    arith,
    emplace_be-be_bytes 4 v (emplace 6 out),
    append_assoc out (6 ∷ []) (be_bytes 4 v),
    wide p,
  )
  | no p ↦ ground (arith, pack_uint16-form v out (omega arith), low p)
]
  where
    wide : 65535 < v → form v ≡ 6 ∷ be_bytes 4 v
    wide p = unfold form in ground arith

    low : ¬ (65535 < v) → v % 2 ^ 16 ≡ v
    low p = omega arith

-- Packing an unsigned integer of any width appends its shortest form.
pub pack_uint64-form : (v : ℕ) (out : List ℕ) → v < 2 ^ 64 → pack_uint64 v out ≡ out ++ form v
unfolding pack_uint64
pack_uint64-form v out h = elim (dec_lt 4294967295 v) [
  | yes p ↦ ground (
    arith,
    emplace_be-be_bytes 8 v (emplace 8 out),
    append_assoc out (8 ∷ []) (be_bytes 8 v),
    wide p,
  )
  | no p ↦ ground (arith, pack_uint32-form v out (omega arith), low p)
]
  where
    wide : 4294967295 < v → form v ≡ 8 ∷ be_bytes 8 v
    wide p = unfold form in ground arith

    low : ¬ (4294967295 < v) → v % 2 ^ 32 ≡ v
    low p = omega arith

-- Reading behind a tag.
module _ (u : Unpacker) (tag : ℕ) where
  pub tagged_byte :
      (b : ℕ) (rest : List ℕ)
      → ahead u ≡ tag ∷ b ∷ rest
      → take_byte (increment 1 u) ≡ (b, moved u 2)
  tagged_byte b rest e = rw (increment_ahead u tag (b ∷ rest) e) (
      take_ahead (moved u 1) b rest (ahead-moved u tag (b ∷ rest) e)
      ∙ ap (λ t. (b, t)) (moved_add u 1 1))

  pub tagged_sum :
      (w k v : ℕ) (rest : List ℕ)
      → ahead u ≡ tag ∷ (be_bytes k v ++ rest)
      → sum_be w k 0 (increment 1 u) ≡ ((0 + low_value k v) % 2 ^ w, moved u (1 + k))
  tagged_sum w k v rest e = rw (increment_ahead u tag (be_bytes k v ++ rest) e) (
      sum_be-ahead w k v 0 (moved u 1) rest (ahead-moved u tag (be_bytes k v ++ rest) e)
        (one-le-pow w 2 (omega arith))
      ∙ ap (λ t. ((0 + low_value k v) % 2 ^ w, t)) (moved_add u 1 k))

-- The cases of `form`, with the bytes ahead of a cursor.
module _ (u : Unpacker) (v : ℕ) (rest : List ℕ) (e : ahead u ≡ form v ++ rest) where
  ahead_alone : v ≤ 127 → ahead u ≡ v ∷ rest
  ahead_alone h = e ∙ ap (λ t. t ++ rest) {x = form v} {y = v ∷ []} (unfold form in ground arith)

  ahead_8 : 127 < v → v ≤ 255 → ahead u ≡ 2 ∷ v ∷ rest
  ahead_8 l h = e ∙ ap (λ t. t ++ rest) {x = form v} {y = 2 ∷ v ∷ []} (unfold form in ground arith)

  ahead_16 : 255 < v → v ≤ 65535 → ahead u ≡ 4 ∷ (be_bytes 2 v ++ rest)
  ahead_16 l h =
      e ∙ ap (λ t. t ++ rest) {x = form v} {y = 4 ∷ be_bytes 2 v} (unfold form in ground arith)

  ahead_32 : 65535 < v → v ≤ 4294967295 → ahead u ≡ 6 ∷ (be_bytes 4 v ++ rest)
  ahead_32 l h =
      e ∙ ap (λ t. t ++ rest) {x = form v} {y = 6 ∷ be_bytes 4 v} (unfold form in ground arith)

  ahead_64 : 4294967295 < v → ahead u ≡ 8 ∷ (be_bytes 8 v ++ rest)
  ahead_64 l =
      e ∙ ap (λ t. t ++ rest) {x = form v} {y = 8 ∷ be_bytes 8 v} (unfold form in ground arith)

  pub read_alone : v ≤ 127 → (peek_byte u ≡ (v, u)) × (take_byte u ≡ (v, moved u 1))
  read_alone h = (peek_ahead u v rest (ahead_alone h), take_ahead u v rest (ahead_alone h))

  pub read_8 :
      127 < v → v ≤ 255 → (peek_byte u ≡ (2, u)) × (take_byte (increment 1 u) ≡ (v, moved u 2))
  read_8 l h = (peek_ahead u 2 (v ∷ rest) (ahead_8 l h), tagged_byte u 2 v rest (ahead_8 l h))

  -- A sum in `w` bits, at least as many as the number has.
  pub read_16 :
      (w : ℕ)
      → v < 2 ^ w
      → 255 < v
      → v ≤ 65535
      → (peek_byte u ≡ (4, u)) × (sum_be w 2 0 (increment 1 u) ≡ (v, moved u 3))
  read_16 w hw l h = (
    peek_ahead u 4 (be_bytes 2 v ++ rest) (ahead_16 l h),
    tagged_sum u 4 w 2 v rest (ahead_16 l h)
        ∙ ap (λ t. (t, moved u 3))
            (ap (λ t. t % 2 ^ w) {x = 0 + low_value 2 v} {y = v} (omega arith) ∙ mod-eq_of_lt hw),
  )

  pub read_32 :
      (w : ℕ)
      → v < 2 ^ w
      → 65535 < v
      → v ≤ 4294967295
      → (peek_byte u ≡ (6, u)) × (sum_be w 4 0 (increment 1 u) ≡ (v, moved u 5))
  read_32 w hw l h = (
    peek_ahead u 6 (be_bytes 4 v ++ rest) (ahead_32 l h),
    tagged_sum u 6 w 4 v rest (ahead_32 l h)
        ∙ ap (λ t. (t, moved u 5))
            (ap (λ t. t % 2 ^ w) {x = 0 + low_value 4 v} {y = v} (omega arith) ∙ mod-eq_of_lt hw),
  )

  pub read_64 :
      v < 2 ^ 64
      → 4294967295 < v
      → (peek_byte u ≡ (8, u)) × (sum_be 64 8 0 (increment 1 u) ≡ (v, moved u 9))
  read_64 hw l = (
    peek_ahead u 8 (be_bytes 8 v ++ rest) (ahead_64 l),
    tagged_sum u 8 64 8 v rest (ahead_64 l)
        ∙ ap (λ t. (t, moved u 9))
            (ap (λ t. t % 2 ^ 64) {x = 0 + low_value 8 v} {y = v} (omega arith) ∙ mod-eq_of_lt hw),
  )
