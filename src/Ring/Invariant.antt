-- ===== src/Ring/Invariant.antt =====
-- The representation invariant of a ring, the items that it holds, and what the index mask does.
use plain.Prelude.{ℕ, ◌-◌, ◌%◌, ◌^◌, ◌≤◌, ◌<◌, bit_and, ◌≡◌, sym, ap, ◌∙◌, List, length, arith}
use plain.Prelude.Words.{sub64}
use plain.Prelude.Bits.{bit_and-mask, mod-pow_word}
use plain.Ring.{Ring}
use plain.Ring.Window.{window, length-window}
use native.Mathlib.Nat.{one-le-pow, pow-le-pow_right, mod-lt}

-- The size is a power of two and has a cell for each index; head and tail are words that count
-- all items ever written and read, and are at most `size` apart.
pub record IsValid {ℓ} {A : Type ℓ} (r : Ring A) : Type 0 where
  pub order : ℕ
  pub small : order ≤ 63
  pub power : r.size ≡ 2 ^ order
  pub masked : r.mask ≡ 2 ^ order - 1
  pub cells : r.size ≤ length r.buffer
  pub head_in : r.head < 2 ^ 64
  pub tail_in : r.tail < 2 ^ 64
  pub within : sub64 r.head r.tail ≤ r.size

-- The items between tail and head, oldest first.
abbrev pub contents {ℓ} : {A : Type ℓ} → A → Ring A → List A
contents blank r = window blank r.buffer r.size r.tail (sub64 r.head r.tail)

module _ {ℓ} {A : Type ℓ} {r : Ring A} (v : IsValid r) where
  pub size_bounds : (1 ≤ r.size) × (r.size ≤ 2 ^ 63)
  size_bounds =
      let bottom = one-le-pow v.order 2 (omega arith) in
      let top = pow-le-pow_right {n = 2} (omega arith) v.small in
      let p = v.power in (omega (arith, bottom, p), omega (arith, top, p))

  -- Masking an index finds its cell.
  pub masked_index : (i : ℕ) → bit_and i r.mask ≡ i % r.size
  masked_index i = ap (bit_and i) v.masked ∙ bit_and-mask v.order i ∙ ap (λ s. i % s) (sym v.power)

  -- The wrap-around of the index counter does not change the cell.
  pub wrapped_index : (i : ℕ) → i % 2 ^ 64 % r.size ≡ i % r.size
  wrapped_index i =
      ap (λ s. i % 2 ^ 64 % s) v.power
      ∙ mod-pow_word v.order i v.small
      ∙ ap (λ s. i % s) (sym v.power)

  -- The masked index is a cell of the buffer.
  pub masked_in : (i : ℕ) → bit_and i r.mask < length r.buffer
  masked_in i =
      let (low, _) = size_bounds in
      let c = v.cells in omega (arith, masked_index i, mod-lt i {m = r.size} low, c)

pub length-contents {ℓ} :
    {A : Type ℓ} (blank : A) (r : Ring A) → length (contents blank r) ≡ sub64 r.head r.tail
length-contents blank r = length-window blank r.buffer r.size r.tail (sub64 r.head r.tail)
