-- ===== src/Rpc/Text.antt =====
-- Strings and vectors of bytes: the heads that give their sizes, and reading them back.
use plain.Prelude.{
  ℕ, ◌+◌, ◌%◌, ◌≤◌, ◌<◌, bit_or, ◌≡◌, ◌∙◌, refl, sym, ap, true, some, List, [], ◌∷◌, ◌++◌,
  append_assoc, length, length-append, length-drop, take, drop, take-append_length, drop-add,
  drop-append_length, ltb, ◌==◌, ==_iff, if◌then◌else◌, arith,
}
use plain.Prelude.Bits.{bit_and-mask, holds_below, holds_below_lem}
use plain.Endian.{be_bytes}
use plain.Rpc.Packer.{emplace, pack_str_size, pack_string, pack_bin_size, pack_bytes}
use plain.Rpc.Unpacker.{
  Unpacker, peek_byte, increment, sum_be, unpack_str_size, unpack_bin_size, take_bytes,
  unpack_string, unpack_bytes,
}
use plain.Rpc.Cursor.{
  emplace_be-be_bytes, ahead, moved, moved_add, peek_ahead, increment_ahead, low_value,
}
use plain.Rpc.Unsigned.{tagged_sum}
use native.Mathlib.Decide.{dec_lt}

-- A size behind a tag for its width, from 8 bits up.
abbrev size_form : ℕ → ℕ → ℕ → ℕ → List ℕ
size_form tag8 tag16 tag32 n =
    if ltb n 255
    then tag8 ∷ n ∷ []
    else if ltb n 65535
    then tag16 ∷ be_bytes 2 n
    else tag32 ∷ be_bytes 4 n

-- The head of a string of `n` bytes: up to 31 the size is in one byte.
unfoldable pub str_head : ℕ → List ℕ
str_head n = if ltb n 32 then (160 + n) ∷ [] else size_form 19 20 21 n

-- The head of a vector of `n` bytes.
unfoldable pub bin_head : ℕ → List ℕ
bin_head n = size_form 13 14 15 n

masked_sizes : holds_below 32 (λ n. bit_or (n % 256) 160 % 256 == 160 + n) ≡ true
unfolding holds_below
masked_sizes = refl

masked_size : (n : ℕ) → n < 32 → bit_or (n % 256) 160 % 256 ≡ 160 + n
masked_size n h =
    (==_iff (bit_or (n % 256) 160 % 256) (160 + n)).0
      (holds_below_lem 32 (λ n. bit_or (n % 256) 160 % 256 == 160 + n) masked_sizes n h)

pack_str_size_lem :
    (n : ℕ) (out : List ℕ) → n < 4294967295 → pack_str_size n out ≡ some (out ++ str_head n)
unfolding pack_str_size str_head
pack_str_size_lem n out h = ground (
  arith,
  masked_size n,
  append_assoc out (19 ∷ []) (n ∷ []),
  append_assoc out (20 ∷ []) (be_bytes 2 n),
  append_assoc out (21 ∷ []) (be_bytes 4 n),
  emplace_be-be_bytes 2 n (emplace 20 out),
  emplace_be-be_bytes 4 n (emplace 21 out),
)

pack_bin_size_lem :
    (n : ℕ) (out : List ℕ) → n < 4294967295 → pack_bin_size n out ≡ some (out ++ bin_head n)
unfolding pack_bin_size bin_head
pack_bin_size_lem n out h = ground (
  arith,
  append_assoc out (13 ∷ []) (n ∷ []),
  append_assoc out (14 ∷ []) (be_bytes 2 n),
  append_assoc out (15 ∷ []) (be_bytes 4 n),
  emplace_be-be_bytes 2 n (emplace 14 out),
  emplace_be-be_bytes 4 n (emplace 15 out),
)

-- The head of a size, at the cursor.
module _ (u : Unpacker) (n : ℕ) (rest : List ℕ) (h : n < 4294967295) where
  ahead_as : (xs ys : List ℕ) → ahead u ≡ xs ++ rest → xs ≡ ys → ahead u ≡ ys ++ rest
  ahead_as xs ys e q = e ∙ ap (λ t. t ++ rest) q

  tagged_size :
      (tag k : ℕ)
      → ahead u ≡ tag ∷ (be_bytes k n ++ rest)
      → low_value k n ≡ n
      → (peek_byte u ≡ (tag, u)) × (sum_be 64 k 0 (increment 1 u) ≡ (n, moved u (1 + k)))
  tagged_size tag k e q = (
    peek_ahead u tag (be_bytes k n ++ rest) e,
    tagged_sum u tag 64 k n rest e ∙ ap (λ t. (t, moved u (1 + k))) (omega (arith, q)),
  )

  -- The size behind its tag, for the three tags of a type.
  sized_8 :
      (tag8 tag16 tag32 : ℕ)
      → n < 255
      → ahead u ≡ size_form tag8 tag16 tag32 n ++ rest
      → (peek_byte u ≡ (tag8, u))
        × (sum_be 64 1 0 (increment 1 u) ≡ (n, moved u 2))
        × (length (size_form tag8 tag16 tag32 n) ≡ 2)
  unfolding be_bytes
  sized_8 tag8 tag16 tag32 p e =
      let shape : size_form tag8 tag16 tag32 n ≡ tag8 ∷ be_bytes 1 n = ground arith in
      let t : (peek_byte u ≡ (tag8, u)) × (sum_be 64 1 0 (increment 1 u) ≡ (n, moved u 2)) =
        tagged_size tag8 1 (e ∙ ap (λ t. t ++ rest) shape) (omega arith) in
      (t.0, t.1, ap length shape)

  sized_16 :
      (tag8 tag16 tag32 : ℕ)
      → 255 ≤ n
      → n < 65535
      → ahead u ≡ size_form tag8 tag16 tag32 n ++ rest
      → (peek_byte u ≡ (tag16, u))
        × (sum_be 64 2 0 (increment 1 u) ≡ (n, moved u 3))
        × (length (size_form tag8 tag16 tag32 n) ≡ 3)
  unfolding be_bytes
  sized_16 tag8 tag16 tag32 l p e =
      let shape : size_form tag8 tag16 tag32 n ≡ tag16 ∷ be_bytes 2 n = ground arith in
      let t : (peek_byte u ≡ (tag16, u)) × (sum_be 64 2 0 (increment 1 u) ≡ (n, moved u 3)) =
        tagged_size tag16 2 (e ∙ ap (λ t. t ++ rest) shape) (omega arith) in
      (t.0, t.1, ap length shape)

  sized_32 :
      (tag8 tag16 tag32 : ℕ)
      → 65535 ≤ n
      → ahead u ≡ size_form tag8 tag16 tag32 n ++ rest
      → (peek_byte u ≡ (tag32, u))
        × (sum_be 64 4 0 (increment 1 u) ≡ (n, moved u 5))
        × (length (size_form tag8 tag16 tag32 n) ≡ 5)
  unfolding be_bytes
  sized_32 tag8 tag16 tag32 l e =
      let shape : size_form tag8 tag16 tag32 n ≡ tag32 ∷ be_bytes 4 n = ground arith in
      let t : (peek_byte u ≡ (tag32, u)) × (sum_be 64 4 0 (increment 1 u) ≡ (n, moved u 5)) =
        tagged_size tag32 4 (e ∙ ap (λ t. t ++ rest) shape) (omega arith) in
      (t.0, t.1, ap length shape)

  unpack_bin_size-bin_head :
      ahead u ≡ bin_head n ++ rest → unpack_bin_size u ≡ (n, moved u (length (bin_head n)))
  unfolding unpack_bin_size bin_head
  unpack_bin_size-bin_head e = elim (dec_lt n 255) [
    | yes p ↦ let t = sized_8 13 14 15 p e in rw (t.0, t.2) t.1
    | no p ↦ elim (dec_lt n 65535) [
      | yes p' ↦ let t = sized_16 13 14 15 (omega arith) p' e in rw (t.0, t.2) t.1
      | no p' ↦ let t = sized_32 13 14 15 (omega arith) e in rw (t.0, t.2) t.1
    ]
  ]

  unpack_str_size-str_head :
      ahead u ≡ str_head n ++ rest → unpack_str_size u ≡ (n, moved u (length (str_head n)))
  unfolding unpack_str_size
  unpack_str_size-str_head e = elim (dec_lt n 32) [
    | yes p ↦
        let shape : str_head n ≡ (160 + n) ∷ [] = unfold str_head in ground arith in
        let e' : ahead u ≡ (160 + n) ∷ rest = e ∙ ap (λ t. t ++ rest) shape in
        ground (
          arith,
          peek_ahead u (160 + n) rest e',
          increment_ahead u (160 + n) rest e',
          bit_and-mask 5 (160 + n),
          shape,
        )
    | no p ↦
        let shape : str_head n ≡ size_form 19 20 21 n = unfold str_head in ground arith in
        let e' : ahead u ≡ size_form 19 20 21 n ++ rest = e ∙ ap (λ t. t ++ rest) shape in
        elim (dec_lt n 255) [
          | yes p' ↦ let t = sized_8 19 20 21 p' e' in rw (t.0, shape, t.2) t.1
          | no p' ↦ elim (dec_lt n 65535) [
            | yes p'' ↦ let t = sized_16 19 20 21 (omega arith) p'' e' in rw (t.0, shape, t.2) t.1
            | no p'' ↦ let t = sized_32 19 20 21 (omega arith) e' in rw (t.0, shape, t.2) t.1
          ]
        ]
  ]

-- The bytes behind a head are taken, if they are there.
module _ (u : Unpacker) (old head xs rest : List ℕ) (e : ahead u ≡ head ++ (xs ++ rest))
    (some_head : 0 < length head) where
  behind : ahead (moved u (length head)) ≡ xs ++ rest
  behind =
      drop-add u.position (length head) u.bytes
      ∙ ap (drop (length head)) e
      ∙ drop-append_length head (xs ++ rest)

  within : u.position + length head + length xs ≤ length u.bytes
  within = omega (
    arith,
    length-drop u.position u.bytes,
    ap length e,
    length-append head (xs ++ rest),
    length-append xs rest,
  )

  take_behind :
      take_bytes old (length xs, moved u (length head)) ≡ (xs, moved u (length (head ++ xs)))
  unfolding take_bytes increment
  take_behind = ground (
    arith,
    within,
    ap (take (length xs)) behind ∙ take-append_length xs rest,
    moved_add u (length head) (length xs),
    length-append head xs,
  )

str_head_some : (n : ℕ) → 0 < length (str_head n)
unfolding str_head be_bytes
str_head_some n = ground arith

bin_head_some : (n : ℕ) → 0 < length (bin_head n)
unfolding bin_head be_bytes
bin_head_some n = ground arith

pack_string_lem :
    (str out : List ℕ)
    → length str < 4294967295
    → pack_string str out ≡ out ++ (str_head (length str) ++ str)
unfolding pack_string
pack_string_lem str out h =
    rw (pack_string, pack_str_size_lem (length str) out h)
      (append_assoc out (str_head (length str)) str)

pack_bytes_lem :
    (bytes out : List ℕ)
    → length bytes < 4294967295
    → pack_bytes bytes out ≡ out ++ (bin_head (length bytes) ++ bytes)
unfolding pack_bytes
pack_bytes_lem bytes out h =
    rw (pack_bytes, pack_bin_size_lem (length bytes) out h)
      (append_assoc out (bin_head (length bytes)) bytes)

-- A string of less than 2^32 - 1 bytes is read back, whatever the variable had, and the cursor
-- moves behind its bytes.
pub unpack_string-pack_string :
    (u : Unpacker) (old str rest : List ℕ)
    → length str < 4294967295
    → ahead u ≡ pack_string str [] ++ rest
    → unpack_string old u ≡ (str, moved u (length (pack_string str [])))
unfolding unpack_string
unpack_string-pack_string u old str rest h e =
    ap (take_bytes old) (unpack_str_size-str_head u (length str) (str ++ rest) h e')
    ∙ take_behind u old (str_head (length str)) str rest e' (str_head_some (length str))
    ∙ ap (λ t. (str, moved u (length t))) (sym (pack_string_lem str [] h))
  where
    e' : ahead u ≡ str_head (length str) ++ (str ++ rest)
    e' =
        e
        ∙ ap (λ t. t ++ rest) (pack_string_lem str [] h)
        ∙ append_assoc (str_head (length str)) str rest

-- A vector of less than 2^32 - 1 bytes is read back, whatever the variable had, and the cursor
-- moves behind its bytes.
pub unpack_bytes-pack_bytes :
    (u : Unpacker) (old bytes rest : List ℕ)
    → length bytes < 4294967295
    → ahead u ≡ pack_bytes bytes [] ++ rest
    → unpack_bytes old u ≡ (bytes, moved u (length (pack_bytes bytes [])))
unfolding unpack_bytes
unpack_bytes-pack_bytes u old bytes rest h e =
    ap (take_bytes old) (unpack_bin_size-bin_head u (length bytes) (bytes ++ rest) h e')
    ∙ take_behind u old (bin_head (length bytes)) bytes rest e' (bin_head_some (length bytes))
    ∙ ap (λ t. (bytes, moved u (length t))) (sym (pack_bytes_lem bytes [] h))
  where
    e' : ahead u ≡ bin_head (length bytes) ++ (bytes ++ rest)
    e' =
        e
        ∙ ap (λ t. t ++ rest) (pack_bytes_lem bytes [] h)
        ∙ append_assoc (bin_head (length bytes)) bytes rest
