-- ===== src/Ring/Write.antt =====
-- `write`: how many items it takes, and what the ring holds afterwards.
use plain.Prelude.{
  ℕ, suc, ◌*◌, ◌+◌, ◌-◌, ◌^◌, ◌≤◌, ◌<◌, ◌≡◌, ◌∙◌, refl, ap, Bool, true, false, List, ◌++◌, length,
  length-take, take, take_all, if◌then◌else◌, arith,
}
use plain.Prelude.Words.{sub64, shl64}
use plain.Ring.{Ring, fixed, dynamic, grow_size, reserve, write}
use plain.Ring.Invariant.{IsValid, contents, size_bounds}
use plain.Ring.Store.{appended, appended-IsValid, contents-appended}
use plain.Ring.Grow.{
  grow_size_lem, resize-dynamic, resize-fixed, resized, resized-IsValid, contents-resized,
}
use native.Mathlib.Nat.{pow-suc, pow-le-pow_right}
use native.Mathlib.Decide.{dec_lt}

module _ {ℓ} {A : Type ℓ} (blank : A) {r : Ring A} (v : IsValid r) where
  -- With room, nothing is resized.
  pub reserve_room :
      (count : ℕ)
      → sub64 r.head r.tail + count ≤ r.size
      → reserve blank r count ≡ (r.size - sub64 r.head r.tail, r)
  unfolding reserve
  reserve_room count h = ground (arith, (size_bounds v).1)

  -- Without room, a `FixedRing` stays, and a `DynamicRing` doubles until there is room.
  pub reserve_fixed :
      (count : ℕ) → r.storage ≡ fixed → reserve blank r count ≡ (r.size - sub64 r.head r.tail, r)
  unfolding reserve
  reserve_fixed count e = ground (
    arith,
    (size_bounds v).1,
    v.within,
    resize-fixed blank r (grow_size 99 (sub64 r.head r.tail) count (shl64 r.size)) e,
  )

  pub reserve_grow :
      {initial : ℕ} (count : ℕ)
      → r.storage ≡ dynamic initial
      → r.size < sub64 r.head r.tail + count
      → sub64 r.head r.tail + count ≤ 2 ^ 63
      → (k : ℕ) × (k ≤ 63)
        × (r.size ≤ 2 ^ k)
        × (sub64 r.head r.tail + count ≤ 2 ^ k)
        × (reserve blank r count ≡ (2 ^ k - sub64 r.head r.tail, resized blank r (2 ^ k)))
  unfolding reserve
  reserve_grow count e small fits =
      let (k, hk, found, lo, hi) =
        grow_size_lem 99 (v.order + 1) (sub64 r.head r.tail) count (shl64 r.size) doubled below
          (omega (arith, doubled, twice, v.power)) fits (omega arith) in
      let wide : 2 ^ k ≤ 2 ^ 63 = pow-le-pow_right {n = 2} (omega arith) hk in
      let done = resize-dynamic blank r (2 ^ k) e (omega arith) in
      (
        k,
        hk,
        omega (arith, doubled, twice, v.power, lo),
        hi,
        rw (found, done) (ground (arith, (size_bounds v).1)),
      )
    where
      twice : 2 ^ (v.order + 1) ≡ 2 ^ v.order * 2
      twice = ap (λ k. 2 ^ k) {x = v.order + 1} {y = suc v.order} (omega arith) ∙ pow-suc 2 v.order

      below : v.order + 1 ≤ 63
      below = elim (dec_lt v.order 63) [
        | yes p ↦ omega arith
        | no p ↦
            let top : 2 ^ v.order ≡ 2 ^ 63 =
              ap (λ k. 2 ^ k) {x = v.order} {y = 63} (omega (arith, v.small)) in
            absurd (omega (arith, v.power, top))
      ]

      doubled : shl64 r.size ≡ 2 ^ (v.order + 1)
      doubled =
          let top : 2 ^ (v.order + 1) ≤ 2 ^ 63 = pow-le-pow_right {n = 2} (omega arith) below in
          omega (arith, v.power, twice, top)

module _ {ℓ} {A : Type ℓ} (blank : A) (r s : Ring A) where
  -- What `write` does with the outcome of `reserve`: all items fit, or only some.
  pub write_all :
      (xs : List A) {room : ℕ} (all : Bool)
      → reserve blank r (length xs) ≡ (room, s)
      → s.head ≡ r.head
      → length xs ≤ room
      → write blank r xs all ≡ (length xs, appended s xs)
  unfolding write
  write_all xs all e h fits = rw (e, ← h) (ground (arith, take_all (length xs) xs (omega arith)))

  pub write_some :
      (xs : List A) {room : ℕ} (all : Bool)
      → reserve blank r (length xs) ≡ (room, s)
      → s.head ≡ r.head
      → room < length xs
      → write blank r xs all ≡ (if all then (0, s) else (room, appended s (take room xs)))
  unfolding write
  write_some xs all e h short = rw (e, ← h) (ground arith)

module _ {ℓ} {A : Type ℓ} (blank : A) {r : Ring A} (v : IsValid r) where
  -- A write of a valid ring that has room takes all items: it returns their number, appends them
  -- in order to what the ring holds, and leaves a valid ring.
  pub write_appends :
      (xs : List A) (all : Bool)
      → sub64 r.head r.tail + length xs ≤ r.size
      → let (n, s) = write blank r xs all in
        (n ≡ length xs) × IsValid s × (contents blank s ≡ contents blank r ++ xs)
  write_appends xs all room =
      rw (write_all blank r r xs all (reserve_room blank v (length xs) room) refl (omega arith))
        (refl, appended-IsValid v xs room, contents-appended v blank xs room)

  -- A write that does not fit makes a valid `DynamicRing` grow, up to 2^63 cells. If no item stands
  -- before tail in the cells, it returns the number of the items, appends them in order to what
  -- the ring holds, and leaves a valid ring.
  pub write_grows :
      {initial : ℕ} (xs : List A) (all : Bool)
      → r.storage ≡ dynamic initial
      → r.size < sub64 r.head r.tail + length xs
      → sub64 r.head r.tail + length xs ≤ 2 ^ 63
      → r.tail + sub64 r.head r.tail ≤ r.size
      → let (n, s) = write blank r xs all in
        (n ≡ length xs) × IsValid s × (contents blank s ≡ contents blank r ++ xs)
  write_grows xs all e small fits linear =
      let (k, hk, lo, hi, found) = reserve_grow blank v (length xs) e small fits in
      let grown = resized-IsValid blank v k hk lo in
      rw (write_all blank r (resized blank r (2 ^ k)) xs all found refl (omega arith)) (
        refl,
        appended-IsValid grown xs hi,
        contents-appended grown blank xs hi
            ∙ ap (λ w. w ++ xs) (contents-resized blank v (2 ^ k) linear lo),
      )

  -- Also where items stand before tail, growing leaves a valid ring.
  pub write_grows-IsValid :
      {initial : ℕ} (xs : List A) (all : Bool)
      → r.storage ≡ dynamic initial
      → r.size < sub64 r.head r.tail + length xs
      → sub64 r.head r.tail + length xs ≤ 2 ^ 63
      → IsValid (write blank r xs all).1
  write_grows-IsValid xs all e small fits =
      let (k, hk, lo, hi, found) = reserve_grow blank v (length xs) e small fits in
      rw (write_all blank r (resized blank r (2 ^ k)) xs all found refl (omega arith))
        (appended-IsValid (resized-IsValid blank v k hk lo) xs hi)

  -- A write that does not fit in a valid `FixedRing` returns 0 and changes nothing if all items
  -- are asked for; else it returns the number of free cells, appends that many of the first items,
  -- and leaves a valid ring.
  pub write_fills :
      (xs : List A)
      → r.storage ≡ fixed
      → r.size < sub64 r.head r.tail + length xs
      → let room = r.size - sub64 r.head r.tail in
        let (n, s) = write blank r xs false in
        (write blank r xs true ≡ (0, r))
        × (n ≡ room)
        × IsValid s
        × (contents blank s ≡ contents blank r ++ take room xs)
  write_fills xs e small =
      let room = r.size - sub64 r.head r.tail in
      let found = reserve_fixed blank v (length xs) e in
      let fits : sub64 r.head r.tail + length (take room xs) ≤ r.size =
        omega (arith, length-take room xs, v.within) in
      let (count, valid, items) = some_fit found fits in
      (write_some blank r r xs true found refl (omega (arith, v.within)), count, valid, items)
    where
      room : ℕ
      room = r.size - sub64 r.head r.tail

      some_fit :
          reserve blank r (length xs) ≡ (room, r)
          → sub64 r.head r.tail + length (take room xs) ≤ r.size
          → let (n, s) = write blank r xs false in
            (n ≡ room) × IsValid s × (contents blank s ≡ contents blank r ++ take room xs)
      some_fit found fits =
          rw (write_some blank r r xs false found refl (omega (arith, v.within))) (
            refl,
            appended-IsValid v (take room xs) fits,
            contents-appended v blank (take room xs) fits,
          )
