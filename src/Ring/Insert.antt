-- ===== src/Ring/Insert.antt =====
-- `insert`, the constructors, and the operations that empty a ring.
use plain.Prelude.{
  ℕ, ◌+◌, ◌-◌, ◌^◌, ◌≤◌, ◌<◌, ◌≡◌, refl, true, false, [], ◌∷◌, ◌++◌, length-replicate, ◌==◌, arith,
}
use plain.Prelude.Words.{sub64, shl64}
use plain.Ring.{Ring, fixed, store, can_insert, insert, fixed_ring, dynamic_ring}
use plain.Ring.Window.{window}
use plain.Ring.Invariant.{IsValid, contents}
use plain.Ring.Store.{appended-IsValid, contents-appended}
use plain.Ring.Grow.{length-resize_vector, resize-fixed}
use native.Mathlib.Nat.{one-le-pow, pow-le-pow_right}

module _ {ℓ} {A : Type ℓ} (blank : A) {r : Ring A} (v : IsValid r) where
  -- `insert` into a valid ring with a free cell succeeds, adds the item behind the others, and
  -- leaves a valid ring.
  pub insert_appends :
      (x : A)
      → sub64 r.head r.tail < r.size
      → let (done, s) = insert blank r x in
        (done ≡ true) × (contents blank s ≡ contents blank r ++ (x ∷ [])) × IsValid s
  unfolding insert can_insert store
  insert_appends x room =
      let free : (sub64 r.head r.tail == r.size) ≡ false = ground arith in
      rw free (
        refl,
        contents-appended v blank (x ∷ []) (omega arith),
        appended-IsValid v (x ∷ []) (omega arith),
      )

  -- `insert` into a valid `FixedRing` with no free cell fails and changes nothing.
  pub insert_refused :
      (x : A) → r.storage ≡ fixed → sub64 r.head r.tail ≡ r.size → insert blank r x ≡ (false, r)
  unfolding insert can_insert
  insert_refused x e no_room =
      let taken : (sub64 r.head r.tail == r.size) ≡ true = ground arith in
      rw (taken, resize-fixed blank r (shl64 r.size) e) refl

module _ {ℓ} {A : Type ℓ} (blank : A) where
  -- A `FixedRing` and a `DynamicRing` of 2^k cells, for k up to 63, start valid and empty.
  pub start-IsValid :
      (k : ℕ)
      → k ≤ 63
      → IsValid (fixed_ring blank (2 ^ k))
        × (contents blank (fixed_ring blank (2 ^ k)) ≡ [])
        × IsValid (dynamic_ring blank (2 ^ k))
        × (contents blank (dynamic_ring blank (2 ^ k)) ≡ [])
  unfolding fixed_ring dynamic_ring window
  start-IsValid k h = (
    record {
      order = k;
      small = h;
      power = refl;
      masked = below;
      cells = omega (arith, length-replicate (2 ^ k + 1) blank);
      head_in = omega arith;
      tail_in = omega arith;
      within = omega arith;
    },
    refl,
    record {
      order = k;
      small = h;
      power = refl;
      masked = below;
      cells = omega (arith, length-resize_vector blank [] (2 ^ k));
      head_in = omega arith;
      tail_in = omega arith;
      within = omega arith;
    },
    refl,
  )
    where
      below : sub64 (2 ^ k) 1 ≡ 2 ^ k - 1
      below = omega (arith, one-le-pow k 2 (omega arith), pow-le-pow_right {n = 2} (omega arith) h)
