-- ===== src/Ring/Read.antt =====
-- `read`, `remove` and the other operations of the consumer, and the accessors.
use plain.Prelude.{
  ℕ, zero, suc, ◌+◌, ◌-◌, ◌%◌, ◌^◌, ◌≤◌, ◌<◌, min, bit_and, ◌≡◌, ◌∙◌, sym, refl, ap, ap₂, true,
  false, none, some, List, [], ◌∷◌, length, get_or, get_elem?, take, drop, take_all, drop_all, ltb,
  ◌==◌, if◌then◌else◌, arith,
}
use plain.Prelude.Words.{add64, sub64}
use plain.Ring.{Ring, load, read, remove, remove_count, at}
use plain.Ring.Window.{window, window_mod, take-window, drop-window}
use plain.Ring.Invariant.{IsValid, contents, length-contents, masked_index, wrapped_index}
use native.Mathlib.Decide.{dec_lt, ℕ_discrete}

module _ {ℓ} {A : Type ℓ} (blank : A) (size mask : ℕ) (masks : (i : ℕ) → bit_and i mask ≡ i % size)
    (wraps : (i : ℕ) → i % 2 ^ 64 % size ≡ i % size) where
  -- The copy loop of `read` copies a window out.
  load-window :
      (n tail : ℕ) (cells : List A)
      → (load blank mask tail n cells).0 ≡ window blank cells size tail n
  unfolding load window
  load-window zero tail cells = refl
  load-window (suc n) tail cells = ap₂ ◌∷◌ (ap (λ i. get_or cells i blank) (masks tail)) (
      load-window n (add64 tail 1) cells
      ∙ window_mod blank cells size (add64 tail 1) (tail + 1) n (wraps (tail + 1)))

tail-load {ℓ} :
    {A : Type ℓ} (blank : A) (mask n tail : ℕ) (cells : List A)
    → tail < 2 ^ 64
    → (load blank mask tail n cells).1 ≡ add64 tail n
unfolding load
tail-load blank mask zero tail cells h = omega arith
tail-load blank mask (suc n) tail cells h =
    omega (arith, tail-load blank mask n (add64 tail 1) cells (omega arith))

-- The ring after its first `n` items are gone.
abbrev dropped {ℓ} : {A : Type ℓ} → Ring A → ℕ → Ring A
dropped r n = record r { tail = add64 r.tail n }

abbrev drained {ℓ} : {A : Type ℓ} → Ring A → Ring A
drained r = record r { head = 0; tail = 0 }

module _ {ℓ} {A : Type ℓ} (blank : A) {r : Ring A} (v : IsValid r) where
  drained-IsValid : IsValid (drained r)
  drained-IsValid = record {
    order = v.order;
    small = v.small;
    power = v.power;
    masked = v.masked;
    cells = v.cells;
    head_in = omega arith;
    tail_in = omega arith;
    within = omega arith;
  }

  contents-drained : contents blank (drained r) ≡ []
  unfolding window
  contents-drained = refl

  used-dropped :
      (n : ℕ) → n ≤ sub64 r.head r.tail → sub64 r.head (add64 r.tail n) ≡ sub64 r.head r.tail - n
  used-dropped n h = omega arith

  dropped-IsValid : (n : ℕ) → n ≤ sub64 r.head r.tail → IsValid (dropped r n)
  dropped-IsValid n h = record {
    order = v.order;
    small = v.small;
    power = v.power;
    masked = v.masked;
    cells = v.cells;
    head_in = v.head_in;
    tail_in = omega arith;
    within = omega (arith, used-dropped n h, v.within);
  }

  contents-dropped :
      (n : ℕ) → n ≤ sub64 r.head r.tail → contents blank (dropped r n) ≡ drop n (contents blank r)
  contents-dropped n h =
      ap (window blank r.buffer r.size (add64 r.tail n)) (used-dropped n h)
      ∙ window_mod blank r.buffer r.size (add64 r.tail n) (r.tail + n) (sub64 r.head r.tail - n)
          (wrapped_index v (r.tail + n))
      ∙ sym (drop-window blank r.buffer r.size r.tail (sub64 r.head r.tail) n h)

  copied :
      (n : ℕ)
      → n ≤ sub64 r.head r.tail
      → (load blank r.mask r.tail n r.buffer).0 ≡ take n (contents blank r)
  copied n h =
      load-window blank r.size r.mask (masked_index v) (wrapped_index v) n r.tail r.buffer
      ∙ sym (take-window blank r.buffer r.size r.tail (sub64 r.head r.tail) n h)

  read_everything :
      (count : ℕ)
      → sub64 r.head r.tail ≤ count
      → (read blank r count false ≡ (contents blank r, drained r))
        × (read blank r count true ≡ (contents blank r, r))
  unfolding read
  read_everything count h =
      let used = sub64 r.head r.tail in
      let all : (if ltb used count then used else count) ≡ used = ground arith in
      let same : (used == used) ≡ true = ground arith in
      let short : length (contents blank r) ≤ used = omega (arith, length-contents blank r) in
      rw (all, same, copied used (omega arith), take_all used (contents blank r) short) (refl, refl)

  read_part :
      (count : ℕ)
      → count < sub64 r.head r.tail
      → (read blank r count false ≡ (take count (contents blank r), dropped r count))
        × (read blank r count true ≡ (take count (contents blank r), r))
  unfolding read
  read_part count h =
      ground
        (arith, copied count (omega arith), tail-load blank r.mask count r.tail r.buffer v.tail_in)

  -- `read` of a valid ring copies the first `count` items, or all if there are fewer. With the
  -- flag `read_only` it changes nothing; else it removes just those items and leaves a valid ring.
  pub read_takes :
      (count : ℕ)
      → let (items, s) = read blank r count false in
        (read blank r count true ≡ (take count (contents blank r), r))
        × (items ≡ take count (contents blank r))
        × (contents blank s ≡ drop count (contents blank r))
        × IsValid s
  read_takes count = elim (dec_lt count (sub64 r.head r.tail)) [
    | yes part ↦
        let (taken, seen) = read_part count part in
        rw taken
          (seen, refl, contents-dropped count (omega arith), dropped-IsValid count (omega arith))
    | no whole ↦
        let (taken, seen) = read_everything count (omega arith) in
        let short : length (contents blank r) ≤ count = omega (arith, length-contents blank r) in
        rw (taken, take_all count (contents blank r) short, drop_all count (contents blank r) short)
          (seen, refl, contents-drained, drained-IsValid)
  ]

  -- `remove(count)` of a valid ring removes the first `count` items, or all if there are fewer,
  -- returns how many went, and leaves a valid ring.
  pub remove_count_drops :
      (count : ℕ)
      → let (n, s) = remove_count r count in
        (n ≡ min count (length (contents blank r)))
        × (contents blank s ≡ drop count (contents blank r))
        × IsValid s
  unfolding remove_count
  remove_count_drops count = elim (dec_lt count (sub64 r.head r.tail)) [
    | yes part ↦
        let moved : remove_count r count ≡ (count, dropped r count) = ground arith in
        rw moved (
          omega (arith, length-contents blank r),
          contents-dropped count (omega arith),
          dropped-IsValid count (omega arith),
        )
    | no whole ↦
        let used = sub64 r.head r.tail in
        let all : (if ltb used count then used else count) ≡ used = ground arith in
        let same : (used == used) ≡ true = ground arith in
        let short : length (contents blank r) ≤ count = omega (arith, length-contents blank r) in
        rw (all, same, drop_all count (contents blank r) short)
          (omega (arith, length-contents blank r), contents-drained, drained-IsValid)
  ]

get_elem?-window {ℓ} :
    {A : Type ℓ} (blank : A) (cells : List A) (size t n i : ℕ)
    → get_elem? (window blank cells size t n) i
      ≡ (if ltb i n then some (get_or cells ((t + i) % size) blank) else none)
unfolding window
get_elem?-window blank cells size t zero i = ground arith
get_elem?-window blank cells size t (suc n) zero =
    ap (λ j. some (get_or cells (j % size) blank)) {x = t} {y = t + 0} (omega arith) ∙ ground arith
get_elem?-window blank cells size t (suc n) (suc i) =
    get_elem?-window blank cells size (t + 1) n i
    ∙ ap (λ j. if ltb i n then some (get_or cells (j % size) blank) else none) {x = t + 1 + i}
        {y = t + suc i} (omega arith)
    ∙ ground arith

module _ {ℓ} {A : Type ℓ} (blank : A) {r : Ring A} (v : IsValid r) where
  -- `at` of a valid ring gives the item at the index, and nullptr from the number of items on.
  pub at_reads :
      (index : ℕ) → index < 2 ^ 64 → at blank r index ≡ get_elem? (contents blank r) index
  unfolding at
  at_reads index h = ground (
    arith,
    get_elem?-window blank r.buffer r.size r.tail (sub64 r.head r.tail) index,
    masked_index v (add64 r.tail index),
    wrapped_index v (r.tail + index),
  )

  -- `remove(data)` of a valid ring takes the oldest item out, or fails and changes nothing if there
  -- is none; what is left are the other items in a valid ring.
  pub remove_pops :
      let (x, s) = remove blank r in
      (x ≡ get_elem? (contents blank r) 0)
      × (contents blank s ≡ drop 1 (contents blank r))
      × IsValid s
  unfolding remove window
  remove_pops = elim (ℕ_discrete r.tail r.head) [
    | yes e ↦
        let nothing : sub64 r.head r.tail ≡ 0 = omega (arith, v.head_in, v.tail_in) in
        let same : (r.tail == r.head) ≡ true = ground arith in
        let drained : contents blank r ≡ [] = ap (window blank r.buffer r.size r.tail) nothing in
        rw (same, drained) (refl, refl, v)
    | no ne ↦
        let some_in : 1 ≤ sub64 r.head r.tail = omega (arith, v.head_in, v.tail_in) in
        let differ : (r.tail == r.head) ≡ false = ground arith in
        let has : ltb 0 (sub64 r.head r.tail) ≡ true = ground arith in
        let first : get_elem? (contents blank r) 0
            ≡ some (get_or r.buffer (bit_and r.tail r.mask) blank) =
          get_elem?-window blank r.buffer r.size r.tail (sub64 r.head r.tail) 0
          ∙ rw has (
              ap (λ i. some (get_or r.buffer i blank))
                (ap (λ i. i % r.size) {x = r.tail + 0} {y = r.tail} (omega arith)
                  ∙ sym (masked_index v r.tail))) in
        rw differ (sym first, contents-dropped blank v 1 some_in, dropped-IsValid blank v 1 some_in)
  ]
