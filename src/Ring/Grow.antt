-- ===== src/Ring/Grow.antt =====
-- `DynamicRing::resize` and the loop of `write` that chooses the new size.
use plain.Prelude.{
  ℕ, zero, suc, ◌+◌, ◌-◌, ◌*◌, ◌^◌, ◌≤◌, ◌<◌, ◌≡◌, refl, sym, ap, ◌∙◌, inl, inr, Bool, true, List,
  [], ◌∷◌, ◌++◌, length, length-append, length-take, length-replicate, get_or, get_or-replicate,
  take, replicate, Bool-cases, leb, arith,
}
use plain.Prelude.Words.{sub64, shl64}
use plain.Ring.{
  Ring, fixed, dynamic, set_buffer, grow_size, resize_vector, resize_dynamic, resize_by, resize,
}
use plain.Ring.Window.{window_agree}
use plain.Ring.Invariant.{IsValid, contents}
use native.Mathlib.Nat.{pow-suc, one-le-pow, pow-le-pow_right, mod-eq_of_lt}
use native.Mathlib.Decide.{dec_lt}

-- Started at a power of two, 99 doublings find a power of two with room, if 2^63 cells are enough.
pub grow_size_lem :
    (rounds m used count size : ℕ)
    → size ≡ 2 ^ m
    → m ≤ 63
    → used ≤ size
    → used + count ≤ 2 ^ 63
    → 63 ≤ m + rounds
    → (k : ℕ) × (k ≤ 63)
      × (grow_size rounds used count size ≡ 2 ^ k)
      × (size ≤ 2 ^ k)
      × (used + count ≤ 2 ^ k)
unfolding grow_size
grow_size_lem zero m used count size e h hu hc hr =
    let top : 2 ^ m ≡ 2 ^ 63 = ap (λ k. 2 ^ k) {x = m} {y = 63} (omega arith) in
    (m, h, e, omega (arith, e), omega (arith, top))
grow_size_lem (suc rounds) m used count size e h hu hc hr =
    elim (Bool-cases (leb count (sub64 size used))) [
      | inl fits ↦ (m, h, rw fits e, omega (arith, e), omega (arith, e, room fits, top))
      | inr small ↦
          let (k, hk, f, lo, hi) =
            grow_size_lem rounds (m + 1) used count (shl64 size)
              (omega (arith, doubled, shifted small)) (below small) (omega (arith, shifted small))
              hc (omega arith) in
          (k, hk, rw small f, omega (arith, shifted small), hi)
    ]
  where
    top : 2 ^ m ≤ 2 ^ 63
    top = pow-le-pow_right {n = 2} (omega arith) h

    doubled : 2 ^ (m + 1) ≡ 2 ^ m * 2
    doubled = ap (λ k. 2 ^ k) {x = m + 1} {y = suc m} (omega arith) ∙ pow-suc 2 m

    room : leb count (sub64 size used) ≡ true → used + count ≤ size
    room fits = ground (arith, e, top)

    below : leb count (sub64 size used) ≡ Bool.false → m + 1 ≤ 63
    below small = elim (dec_lt m 63) [
      | yes p ↦ omega arith
      | no p ↦
          let at_top : 2 ^ m ≡ 2 ^ 63 = ap (λ k. 2 ^ k) {x = m} {y = 63} (omega arith) in
          absurd (ground (arith, e, at_top, small))
    ]

    shifted : leb count (sub64 size used) ≡ Bool.false → shl64 size ≡ size * 2
    shifted small =
        let half : 2 ^ (m + 1) ≤ 2 ^ 63 = pow-le-pow_right {n = 2} (omega arith) (below small) in
        omega (arith, e, doubled, half)

module _ {ℓ} {A : Type ℓ} (blank : A) where
  pub length-resize_vector : (cells : List A) (n : ℕ) → length (resize_vector blank cells n) ≡ n
  unfolding resize_vector
  length-resize_vector cells n = omega (
    arith,
    length-append (take n cells) (replicate (n - length cells) blank),
    length-take n cells,
    length-replicate (n - length cells) blank,
  )

  pub get_or-resize_vector :
      (cells : List A) (n i : ℕ)
      → i < n
      → get_or (resize_vector blank cells n) i blank ≡ get_or cells i blank
  unfolding resize_vector
  get_or-resize_vector cells zero i h = absurd (omega arith)
  get_or-resize_vector [] (suc n) i h = get_or-replicate (suc n - 0) i blank
  get_or-resize_vector (x ∷ cells) (suc n) zero h = refl
  get_or-resize_vector (x ∷ cells) (suc n) (suc i) h =
      ap (λ k. get_or (take n cells ++ replicate k blank) i blank) {x = suc n - suc (length cells)}
        {y = n - length cells} (omega arith)
      ∙ get_or-resize_vector cells n i (omega arith)

  -- What `DynamicRing::resize` makes of a ring at a size that is not 0.
  abbrev pub resized : Ring A → ℕ → Ring A
  resized r n = record r { buffer = resize_vector blank r.buffer n; size = n; mask = sub64 n 1 }

  pub resize-dynamic :
      (r : Ring A) {initial : ℕ} (n : ℕ)
      → r.storage ≡ dynamic initial
      → 0 < n
      → resize blank r n ≡ (true, resized r n)
  unfolding resize
  resize-dynamic r {initial} n e h = ap (λ s. resize_by blank s r n) e ∙ chosen
    where
      chosen : resize_by blank (dynamic initial) r n ≡ (true, resized r n)
      chosen = unfold resize_by resize_dynamic set_buffer in ground arith

  pub resize-fixed : (r : Ring A) (n : ℕ) → r.storage ≡ fixed → resize blank r n ≡ (Bool.false, r)
  unfolding resize resize_by
  resize-fixed r n e = ap (λ s. resize_by blank s r n) e

  module _ {r : Ring A} (v : IsValid r) where
    pub resized-IsValid : (k : ℕ) → k ≤ 63 → r.size ≤ 2 ^ k → IsValid (resized r (2 ^ k))
    resized-IsValid k hk h = record {
      order = k;
      small = hk;
      power = refl;
      masked =
          omega (arith, one-le-pow k 2 (omega arith), pow-le-pow_right {n = 2} (omega arith) hk);
      cells = omega (arith, length-resize_vector r.buffer (2 ^ k));
      head_in = v.head_in;
      tail_in = v.tail_in;
      within = omega arith;
    }

    -- Growing keeps the items, if none stands before tail in the cells.
    pub contents-resized :
        (n : ℕ)
        → r.tail + sub64 r.head r.tail ≤ r.size
        → r.size ≤ n
        → contents blank (resized r n) ≡ contents blank r
    contents-resized n linear h =
        window_agree blank (resize_vector blank r.buffer n) r.buffer n r.size r.tail
          (sub64 r.head r.tail)
          λ i lo hi.
            ap (λ j. get_or (resize_vector blank r.buffer n) j blank) (mod-eq_of_lt (omega arith))
            ∙ get_or-resize_vector r.buffer n i (omega arith)
            ∙ ap (λ j. get_or r.buffer j blank) (sym (mod-eq_of_lt (omega arith)))
