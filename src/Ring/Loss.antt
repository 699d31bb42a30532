-- ===== src/Ring/Loss.antt =====
-- Growing a ring whose items go round the end of its cells loses items.
use plain.Prelude.{ℕ, ◌+◌, ◌-◌, ◌%◌, ◌<◌, ◌≡◌, ◌∙◌, ap, length, get_or, arith, get_or_beyond}
use plain.Prelude.Words.{sub64}
use plain.Ring.{Ring, dynamic, resize}
use plain.Ring.Window.{get_or-window}
use plain.Ring.Invariant.{IsValid, contents}
use plain.Ring.Grow.{resized, resize-dynamic, get_or-resize_vector}
use native.Mathlib.Nat.{mod-eq_of_lt, mod_self}

module _ {ℓ} {A : Type ℓ} (blank : A) {r : Ring A} (v : IsValid r) where
  -- In a valid `DynamicRing` of exactly `size` cells whose items go round the end, the item in
  -- the first cell is the one at `size - tail`. After `resize` to a larger size a blank
  -- stands in its place: an item that is no blank is lost.
  pub resize_loses :
      {initial : ℕ} (n : ℕ)
      → r.storage ≡ dynamic initial
      → length r.buffer ≡ r.size
      → r.tail < r.size
      → r.size < r.tail + sub64 r.head r.tail
      → r.size < n
      → let s = (resize blank r n).1 in
        (get_or (contents blank r) (r.size - r.tail) blank ≡ get_or r.buffer 0 blank)
        × (get_or (contents blank s) (r.size - r.tail) blank ≡ blank)
  resize_loses n e cells tail_in wrapped larger =
      rw (resize-dynamic blank r n e (omega arith)) (before, after)
    where
      place : r.tail + (r.size - r.tail) ≡ r.size
      place = omega arith

      before : get_or (contents blank r) (r.size - r.tail) blank ≡ get_or r.buffer 0 blank
      before =
          get_or-window blank r.buffer r.size r.tail (sub64 r.head r.tail) (r.size - r.tail)
            (omega arith)
          ∙ ap (λ i. get_or r.buffer i blank) (ap (λ i. i % r.size) place ∙ mod_self r.size)

      after : get_or (contents blank (resized blank r n)) (r.size - r.tail) blank ≡ blank
      after =
          get_or-window blank (resized blank r n).buffer n r.tail (sub64 r.head r.tail)
            (r.size - r.tail) (omega arith)
          ∙ ap (λ i. get_or (resized blank r n).buffer i blank)
              (ap (λ i. i % n) place ∙ mod-eq_of_lt larger)
          ∙ get_or-resize_vector blank r.buffer n r.size larger
          ∙ get_or_beyond r.buffer r.size blank (omega arith)
