-- ===== src/Endian/Swap.antt =====
-- `bswap` reverses the bytes, and what `hton` puts into memory does not depend on the host.
use plain.Prelude.{
  ℕ, ◌+◌, ◌*◌, ◌/◌, ◌%◌, ◌^◌, ◌<◌, ◌≡◌, ◌∙◌, bit_or, refl, ap, ap₂, Bool, true, false, [], ◌∷◌,
  arith,
}
use plain.Prelude.Bits.{bit_or_disjoint}
use plain.Endian.{
  bswap16, bswap32, bswap64, Width, one, two, four, eight, byteswap, hton, ntoh, be_bytes, be_value,
  le_value, to_memory, from_memory,
}

pub bswap16_lem : (n : ℕ) → n < 2 ^ 16 → bswap16 n ≡ n % 256 * 256 + n / 256
unfolding bswap16
bswap16_lem n h = omega (arith, bit_or_disjoint 8 n (n / 2 ^ 8) (omega arith))

pub bswap32_lem :
    (n : ℕ)
    → n < 2 ^ 32
    → bswap32 n ≡ n % 256 * 2 ^ 24 + n / 256 % 256 * 2 ^ 16 + n / 2 ^ 16 % 256 * 256 + n / 2 ^ 24
unfolding bswap32
bswap32_lem n h =
    let low = bswap16_lem (n % 2 ^ 16) (omega arith) in
    let high = bswap16_lem (n / 2 ^ 16 % 2 ^ 16) (omega arith) in
    omega (
      arith,
      low,
      high,
      ap (λ t. bit_or t (bswap16 (n / 2 ^ 16 % 2 ^ 16)))
          {x = bswap16 (n % 2 ^ 16) * 2 ^ 16 % 2 ^ 32} {y = bswap16 (n % 2 ^ 16) * 2 ^ 16}
          (omega (arith, low)),
      bit_or_disjoint 16 (bswap16 (n % 2 ^ 16)) (bswap16 (n / 2 ^ 16 % 2 ^ 16))
          (omega (arith, high)),
    )

pub bswap64_lem :
    (n : ℕ) → n < 2 ^ 64 → bswap64 n ≡ bswap32 (n % 2 ^ 32) * 2 ^ 32 + bswap32 (n / 2 ^ 32)
unfolding bswap64
bswap64_lem n h =
    let low = bswap32_lem (n % 2 ^ 32) (omega arith) in
    let high = bswap32_lem (n / 2 ^ 32) (omega arith) in
    let same : n / 2 ^ 32 % 2 ^ 32 ≡ n / 2 ^ 32 = omega arith in
    rw same (
      omega (
        arith,
        low,
        high,
        ap (λ t. bit_or t (bswap32 (n / 2 ^ 32))) {x = bswap32 (n % 2 ^ 32) * 2 ^ 32 % 2 ^ 64}
            {y = bswap32 (n % 2 ^ 32) * 2 ^ 32} (omega (arith, low)),
        bit_or_disjoint 32 (bswap32 (n % 2 ^ 32)) (bswap32 (n / 2 ^ 32)) (omega (arith, high)),
      ))

-- The value that fits a width.
abbrev pub bytes_of : Width → ℕ
bytes_of one = 1
bytes_of two = 2
bytes_of four = 4
bytes_of eight = 8

bswap32-bswap32 : (n : ℕ) → n < 2 ^ 32 → bswap32 (bswap32 n) ≡ n
bswap32-bswap32 n h =
    omega (arith, bswap32_lem n h, bswap32_lem (bswap32 n) (omega (arith, bswap32_lem n h)))

bswap32-lt : (n : ℕ) → n < 2 ^ 32 → bswap32 n < 2 ^ 32
bswap32-lt n h = omega (arith, bswap32_lem n h)

bswap64-bswap64 : (n : ℕ) → n < 2 ^ 64 → bswap64 (bswap64 n) ≡ n
bswap64-bswap64 n h =
    let low = bswap32-lt (n % 2 ^ 32) (omega arith) in
    let high = bswap32-lt (n / 2 ^ 32) (omega arith) in
    let once = bswap64_lem n h in
    omega (
      arith,
      once,
      low,
      high,
      bswap64_lem (bswap64 n) (omega (arith, once, low, high)),
      ap bswap32 {x = bswap64 n % 2 ^ 32} {y = bswap32 (n / 2 ^ 32)}
          (omega (arith, once, low, high)),
      ap bswap32 {x = bswap64 n / 2 ^ 32} {y = bswap32 (n % 2 ^ 32)}
          (omega (arith, once, low, high)),
      bswap32-bswap32 (n % 2 ^ 32) (omega arith),
      bswap32-bswap32 (n / 2 ^ 32) (omega arith),
    )

-- `byteswap` of an unsigned integer of any of the four widths undoes itself.
pub byteswap-byteswap : (w : Width) (n : ℕ) → n < 256 ^ bytes_of w → byteswap w (byteswap w n) ≡ n
unfolding byteswap
byteswap-byteswap one n h = refl
byteswap-byteswap two n h =
    omega (arith, bswap16_lem n h, bswap16_lem (bswap16 n) (omega (arith, bswap16_lem n h)))
byteswap-byteswap four n h = bswap32-bswap32 n h
byteswap-byteswap eight n h = bswap64-bswap64 n h

pub memory-hton16 :
    (big : Bool) (n : ℕ) → n < 2 ^ 16 → to_memory big 2 (hton big two n) ≡ be_bytes 2 n
unfolding to_memory hton
memory-hton16 true n h = refl
memory-hton16 false n h =
    let e = bswap16_lem n h in ap₂ (λ a b. a ∷ b ∷ []) (omega (arith, e)) (omega (arith, e))

-- What `hton` makes of a 32-bit integer lies in memory highest byte first, on every host.
pub memory-hton32 :
    (big : Bool) (n : ℕ) → n < 2 ^ 32 → to_memory big 4 (hton big four n) ≡ be_bytes 4 n
unfolding to_memory hton
memory-hton32 true n h = refl
memory-hton32 false n h =
    let e = bswap32_lem n h in
    ap₂ (λ a t. a ∷ t) (omega (arith, e))
      (ap₂ (λ a t. a ∷ t) (omega (arith, e))
        (ap₂ (λ a b. a ∷ b ∷ []) (omega (arith, e)) (omega (arith, e))))

-- What `ntoh` makes of bytes read into an integer: their value, highest byte first.
pub ntoh16-memory :
    (big : Bool) (a b : ℕ)
    → a < 256
    → b < 256
    → ntoh big two (from_memory big (a ∷ b ∷ [])) ≡ be_value 0 (a ∷ b ∷ [])
unfolding from_memory ntoh
ntoh16-memory true a b ha hb = refl
ntoh16-memory false a b ha hb = omega (
  arith,
  bswap16_lem (b * 256 + a) (omega arith),
  bswap16_lem (a + 256 * (b + 256 * 0)) (omega arith),
)

pub ntoh32-memory :
    (big : Bool) (a b c d : ℕ)
    → a < 256
    → b < 256
    → c < 256
    → d < 256
    → ntoh big four (from_memory big (a ∷ b ∷ c ∷ d ∷ [])) ≡ be_value 0 (a ∷ b ∷ c ∷ d ∷ [])
unfolding from_memory ntoh
ntoh32-memory true a b c d ha hb hc hd = refl
ntoh32-memory false a b c d ha hb hc hd =
    omega (arith, bswap32_lem (le_value (a ∷ b ∷ c ∷ d ∷ [])) (omega arith))

pub be_value-be_bytes4 : (n : ℕ) → n < 2 ^ 32 → be_value 0 (be_bytes 4 n) ≡ n
unfolding be_value be_bytes
be_value-be_bytes4 n h = omega arith

pub be_value-be_bytes2 : (n : ℕ) → n < 2 ^ 16 → be_value 0 (be_bytes 2 n) ≡ n
unfolding be_value be_bytes
be_value-be_bytes2 n h = omega arith

pub ntoh16-be_bytes :
    (big : Bool) (n : ℕ) → n < 2 ^ 16 → ntoh big two (from_memory big (be_bytes 2 n)) ≡ n
unfolding be_bytes
ntoh16-be_bytes big n h =
    ntoh16-memory big (n / 2 ^ (8 * 1) % 256) (n / 2 ^ (8 * 0) % 256) (omega arith) (omega arith)
    ∙ be_value-be_bytes2 n h

-- `ntoh` of the integer that the host reads from the bytes of a 32-bit integer, highest byte
-- first, is that integer, on every host.
pub ntoh32-be_bytes :
    (big : Bool) (n : ℕ) → n < 2 ^ 32 → ntoh big four (from_memory big (be_bytes 4 n)) ≡ n
unfolding be_bytes
ntoh32-be_bytes big n h =
    ntoh32-memory big (n / 2 ^ (8 * 3) % 256) (n / 2 ^ (8 * 2) % 256) (n / 2 ^ (8 * 1) % 256)
      (n / 2 ^ (8 * 0) % 256) (omega arith) (omega arith) (omega arith) (omega arith)
    ∙ be_value-be_bytes4 n h
