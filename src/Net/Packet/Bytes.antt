-- ===== src/Net/Packet/Bytes.antt =====
-- Writing into a packet and reading back: the bytes behind the offset are a queue.
use plain.Prelude.{
  ℕ, zero, suc, ◌+◌, ◌-◌, ◌%◌, ◌^◌, ◌≤◌, ◌<◌, ◌≡◌, ◌∙◌, refl, sym, ap, Bool, true, false, not, List,
  [], ◌∷◌, ◌++◌, append_assoc, length, length-append, length-drop, drop, drop-add, drop_all, ap₂,
  append-nil, bit_and, take-append_length, drop-append_length, ltb, ◌==◌, arith,
}
use plain.Endian.{be_bytes}
use plain.Endian.Swap.{memory-hton32, ntoh32-be_bytes}
use plain.Net.Packet.{
  Packet, readable_flag, writeable_flag, have_flag, write_raw, put32, write_bytes, read_raw, get32,
  read_joined, read_bytes, read_string,
}

-- The bytes that are still to be read.
abbrev pub pending : Packet → List ℕ
pending p = drop p.offset p.data_bytes

drop_in {ℓ} :
    {A : Type ℓ} (n : ℕ) (xs ys : List A) → n ≤ length xs → drop n (xs ++ ys) ≡ drop n xs ++ ys
drop_in zero xs ys h = refl
drop_in (suc n) [] ys h = absurd (omega arith)
drop_in (suc n) (x ∷ xs) ys h = drop_in n xs ys (omega arith)

length-be_bytes : (k n : ℕ) → length (be_bytes k n) ≡ k
unfolding be_bytes
length-be_bytes zero n = refl
length-be_bytes (suc k) n = ap suc (length-be_bytes k n)

-- The packet with more bytes behind the others.
abbrev pub extended : Packet → List ℕ → Packet
extended p bytes = record p { data_bytes = p.data_bytes ++ bytes }

pub write_raw_on :
    (p : Packet) (bytes : List ℕ)
    → have_flag p writeable_flag ≡ true
    → write_raw p bytes ≡ (length bytes, extended p bytes)
unfolding write_raw
write_raw_on p bytes w = rw w

module _ (p : Packet) (big : Bool) (w : have_flag p writeable_flag ≡ true) where
  pub put32_on : (n : ℕ) → n < 2 ^ 32 → put32 big p n ≡ extended p (be_bytes 4 n)
  unfolding put32
  put32_on n h =
      ap (λ t. (write_raw p t).1) (memory-hton32 big n h)
      ∙ ap (λ t. t.1) (write_raw_on p (be_bytes 4 n) w)

  write_bytes_on :
      (bytes : List ℕ)
      → write_bytes big p bytes
        ≡ (length bytes, extended (extended p (be_bytes 4 (length bytes % 2 ^ 32))) bytes)
  unfolding write_bytes
  write_bytes_on bytes = rw (put32_on (length bytes % 2 ^ 32) (omega arith), w)

  -- Writing bytes to a writeable packet puts their number, in 32 bits and highest byte first, and
  -- then the bytes behind what is to be read, returns their number, and moves neither the offset
  -- nor a flag.
  pub write_bytes-pending :
      (bytes : List ℕ)
      → p.offset ≤ length p.data_bytes
      → let (n, q) = write_bytes big p bytes in
        (n ≡ length bytes)
        × (pending q ≡ pending p ++ (be_bytes 4 (length bytes % 2 ^ 32) ++ bytes))
        × (q.offset ≡ p.offset)
        × (q.flag ≡ p.flag)
  write_bytes-pending bytes inside = rw (write_bytes_on bytes) (
    refl,
    ap (drop p.offset) (append_assoc p.data_bytes head bytes)
        ∙ drop_in p.offset p.data_bytes (head ++ bytes) inside,
    refl,
    refl,
  )
    where
      head : List ℕ
      head = be_bytes 4 (length bytes % 2 ^ 32)

-- Reading from a packet whose next bytes are `front`.
module _ (p : Packet) (readable : have_flag p readable_flag ≡ true) (front rest : List ℕ)
    (ahead : pending p ≡ front ++ rest) where
  left_ahead : length p.data_bytes - p.offset ≡ length front + length rest
  left_ahead =
      omega (arith, length-drop p.offset p.data_bytes, ap length ahead, length-append front rest)

  read_raw_front :
      read_raw p (length front) ≡ (front, record p { offset = p.offset + length front })
  unfolding read_raw
  read_raw_front =
      let enough : ltb (length p.data_bytes - p.offset) (length front) ≡ false =
        ground (arith, left_ahead) in
      rw (readable, enough, ahead, take-append_length front rest) refl

  pending_behind : drop (p.offset + length front) p.data_bytes ≡ rest
  pending_behind =
      drop-add p.offset (length front) p.data_bytes
      ∙ ap (drop (length front)) ahead
      ∙ drop-append_length front rest

-- Reading a number.
module _ (p : Packet) (big : Bool) (readable : have_flag p readable_flag ≡ true) (n : ℕ)
    (rest : List ℕ) (small : n < 2 ^ 32) (ahead : pending p ≡ be_bytes 4 n ++ rest) where
  pub get32_number : get32 big p ≡ (n, record p { offset = p.offset + 4 })
  unfolding get32
  get32_number =
      let four_read : read_raw p 4 ≡ (be_bytes 4 n, record p { offset = p.offset + 4 }) =
        ap (read_raw p) (sym (length-be_bytes 4 n))
        ∙ read_raw_front p readable (be_bytes 4 n) rest ahead
        ∙ ap (λ k. (be_bytes 4 n, record p { offset = p.offset + k })) (length-be_bytes 4 n) in
      rw (four_read, length-be_bytes 4 n, ntoh32-be_bytes big n small) refl

  pub pending_number : drop (p.offset + 4) p.data_bytes ≡ rest
  pending_number =
      ap (λ k. drop (p.offset + k) p.data_bytes) (sym (length-be_bytes 4 n))
      ∙ pending_behind p readable (be_bytes 4 n) rest ahead

module _ (p : Packet) (big : Bool) (readable : have_flag p readable_flag ≡ true)
    (bytes rest : List ℕ) (short : length bytes < 2 ^ 32)
    (ahead : pending p ≡ be_bytes 4 (length bytes) ++ (bytes ++ rest)) where
  get32_front : get32 big p ≡ (length bytes, record p { offset = p.offset + 4 })
  get32_front = get32_number p big readable (length bytes) (bytes ++ rest) short ahead

  behind : drop (p.offset + 4) p.data_bytes ≡ bytes ++ rest
  behind =
      ap (λ k. drop (p.offset + k) p.data_bytes) (sym (length-be_bytes 4 (length bytes)))
      ∙ pending_behind p readable (be_bytes 4 (length bytes)) (bytes ++ rest) ahead

  read_joined_front :
      (join : List ℕ → List ℕ → List ℕ) (out : List ℕ)
      → 0 < length bytes
      → read_joined join big p out ≡ (
        length (join out bytes),
        join out bytes,
        record p { offset = p.offset + 4 + length bytes },
      )
  unfolding read_joined
  read_joined_front join out some_bytes =
      let left = length p.data_bytes - (p.offset + 4) in
      let count : left ≡ length bytes + length rest = omega (
        arith,
        length-drop (p.offset + 4) p.data_bytes,
        ap length behind,
        length-append bytes rest,
      ) in
      let enough : ltb left (length bytes) ≡ false = ground (arith, count) in
      let filled : (length bytes == 0) ≡ false = ground arith in
      rw (get32_front, readable, filled, enough, behind, take-append_length bytes rest) refl

  -- Reading bytes from a readable packet whose next bytes are a number in 32 bits, not 0, and at
  -- least so many bytes, puts just these in front of the target (`read_string`: behind it), returns
  -- the length of the target, and leaves what follows to be read.
  pub read_bytes_front :
      (out : List ℕ)
      → 0 < length bytes
      → let (n, result, q) = read_bytes big p out in
        (n ≡ length (bytes ++ out))
        × (result ≡ bytes ++ out)
        × (pending q ≡ rest)
        × ((read_string big p out).1 ≡ out ++ bytes)
  unfolding read_bytes read_string
  read_bytes_front out some_bytes =
      rw
        (
          read_joined_front (λ o b. b ++ o) out some_bytes,
          read_joined_front (λ o b. o ++ b) out some_bytes,
        )
        (
          refl,
          refl,
          drop-add (p.offset + 4) (length bytes) p.data_bytes
              ∙ ap (drop (length bytes)) behind
              ∙ drop-append_length bytes rest,
          refl,
        )

have_flag-eq : (p q : Packet) (type : ℕ) → q.flag ≡ p.flag → have_flag q type ≡ have_flag p type
unfolding have_flag
have_flag-eq p q type e = ap (λ f. not (bit_and f (2 ^ type) == 0)) e

-- What was written is read back: at a packet that is writeable and readable and has nothing left
-- to read, writing bytes, 1 to 2^32 - 1 of them, and then reading into an empty target gives just
-- these bytes, and nothing is left to read.
pub read_bytes-write_bytes :
    (p : Packet) (big : Bool) (bytes : List ℕ)
    → have_flag p writeable_flag ≡ true
    → have_flag p readable_flag ≡ true
    → p.offset ≡ length p.data_bytes
    → 0 < length bytes
    → length bytes < 2 ^ 32
    → let (n, result, q) = read_bytes big (write_bytes big p bytes).1 [] in
      (n ≡ length bytes) × (result ≡ bytes) × (pending q ≡ [])
read_bytes-write_bytes p big bytes w r all_read some_bytes short =
    let (_, written, _, flags) = write_bytes-pending p big w bytes (omega arith) in
    let q = (write_bytes big p bytes).1 in
    let readable : have_flag q readable_flag ≡ true = have_flag-eq p q readable_flag flags ∙ r in
    let nothing : pending p ≡ [] = drop_all p.offset p.data_bytes (omega arith) in
    let ahead : pending q ≡ be_bytes 4 (length bytes) ++ (bytes ++ []) =
      written
      ∙ ap (λ t. t ++ (be_bytes 4 (length bytes % 2 ^ 32) ++ bytes)) nothing
      ∙ ap₂ (λ n t. be_bytes 4 n ++ t) {x = length bytes % 2 ^ 32} {y = length bytes} (omega arith)
          (sym (append-nil bytes)) in
    let (count, result, rest, _) =
      read_bytes_front q big readable bytes [] short ahead [] some_bytes in
    (count ∙ ap length (append-nil bytes), result ∙ append-nil bytes, rest)
