-- ===== src/Utility/Hex.antt =====
-- Bytes as hexadecimal digits, and numbers of 64 bits as two halves.
use plain.Prelude.{
  ℕ, ◌+◌, ◌*◌, ◌/◌, ◌%◌, ◌^◌, ◌<◌, bit_and, bit_or, ◌≡◌, ◌≢◌, ◌∙◌, refl, ap, true, none, List, [],
  ◌∷◌, ◌==◌, ==_iff, arith,
}
use plain.Prelude.Bits.{bit_and-mask, bit_or_disjoint, holds_below, holds_below_lem}
use plain.Utility.{
  value_toascii, ascii_tovalue, to_hex_loop, binary_tostring, digits_value, from_hex_loop,
  string_tobinary, touint64, get_highsection, get_lowsection,
}

-- The digit for the low half of a byte is a question mark, whatever the byte.
low_digits : holds_below 256 (λ c. value_toascii (bit_and c 0xf0) == 63) ≡ true
unfolding holds_below value_toascii
low_digits = refl

low_digit : (c : ℕ) → c < 256 → value_toascii (bit_and c 0xf0) ≡ 63
low_digit c h =
    (==_iff (value_toascii (bit_and c 0xf0)) 63).0
      (holds_below_lem 256 (λ c. value_toascii (bit_and c 0xf0) == 63) low_digits c h)

value_toascii_some : (c : ℕ) → value_toascii c ≢ 0
unfolding value_toascii
value_toascii_some c = ground arith

no_value : (a : ℕ) → digits_value a 63 ≡ none
unfolding digits_value ascii_tovalue
no_value a = ground arith

first_pair :
    (c out_limit : ℕ) (input : List ℕ)
    → c < 256
    → from_hex_loop 0 out_limit (to_hex_loop (c ∷ input)) ≡ none
unfolding from_hex_loop to_hex_loop
first_pair c out_limit [] h = ground (
  arith,
  low_digit c h,
  value_toascii_some (bit_and c 0xf0 / 2 ^ 4),
  no_value (value_toascii (bit_and c 0xf0 / 2 ^ 4)),
)
first_pair c out_limit (d ∷ input) h = ground (
  arith,
  low_digit c h,
  value_toascii_some (bit_and c 0xf0 / 2 ^ 4),
  no_value (value_toascii (bit_and c 0xf0 / 2 ^ 4)),
)

-- What `binary_tostring` makes of at least one byte, `string_tobinary` does not read back: its
-- assertion fails, since `binary_tostring` puts a question mark for the low half of each byte.
pub string_tobinary-binary_tostring :
    (c out_limit : ℕ) (input : List ℕ)
    → c < 256
    → string_tobinary (binary_tostring (c ∷ input)).1 out_limit ≡ none
unfolding string_tobinary binary_tostring to_hex_loop
string_tobinary-binary_tostring c out_limit input h = ground (arith, first_pair c out_limit input h)

-- `touint64` joins two halves of 32 bits into the number from which the halves can be taken.
pub sections-touint64 :
    (high low : ℕ)
    → high < 2 ^ 32
    → low < 2 ^ 32
    → (touint64 high low ≡ high * 2 ^ 32 + low)
      × (get_highsection (touint64 high low) ≡ high)
      × (get_lowsection (touint64 high low) ≡ low)
unfolding touint64 get_highsection get_lowsection
sections-touint64 high low hh hl = rw joined (
  refl,
  omega (arith, bit_and-mask 32 ((high * 2 ^ 32 + low) / 2 ^ 32)),
  omega (arith, bit_and-mask 32 (high * 2 ^ 32 + low)),
)
  where
    joined : bit_or (high * 2 ^ 32 % 2 ^ 64) low ≡ high * 2 ^ 32 + low
    joined =
        ap (λ t. bit_or t low) {x = high * 2 ^ 32 % 2 ^ 64} {y = high * 2 ^ 32} (omega arith)
        ∙ bit_or_disjoint 32 high low hl
