-- ===== src/Ring/Store.antt =====
-- The copy loop of `write`: what it leaves in the cells, and that a ring with room stays valid.
use plain.Prelude.{
  ℕ, suc, ◌+◌, ◌%◌, ◌^◌, ◌≤◌, ◌<◌, bit_and, ◌≡◌, refl, sym, ap, ap₂, ◌∙◌, List, [], ◌∷◌, ◌++◌,
  append-nil, append_assoc, length, get_or, set, length-set, get_or-set_self, arith,
}
use plain.Prelude.Words.{add64, sub64}
use plain.Ring.{Ring, store}
use plain.Ring.Window.{window, window-set, window_snoc}
use plain.Ring.Invariant.{IsValid, contents, masked_index, wrapped_index, size_bounds}
use native.Mathlib.Nat.{mod-lt, mod-add-mod}

module _ {ℓ} {A : Type ℓ} where
  pub length-store :
      (mask head : ℕ) (xs cells : List A) → length (store mask head xs cells).1 ≡ length cells
  unfolding store
  length-store mask head [] cells = refl
  length-store mask head (x ∷ xs) cells =
      length-store mask (add64 head 1) xs (set cells (bit_and head mask) x)
      ∙ length-set cells (bit_and head mask) x

  pub head-store :
      (mask head : ℕ) (xs cells : List A)
      → head < 2 ^ 64
      → (store mask head xs cells).0 ≡ add64 head (length xs)
  unfolding store
  head-store mask head [] cells h = omega arith
  head-store mask head (x ∷ xs) cells h =
      omega
        (arith, head-store mask (add64 head 1) xs (set cells (bit_and head mask) x) (omega arith))

module _ {ℓ} {A : Type ℓ} (blank : A) (size mask : ℕ) (masks : (i : ℕ) → bit_and i mask ≡ i % size)
    (wraps : (i : ℕ) → i % 2 ^ 64 % size ≡ i % size) where
  -- The loop appends its items to a window that has room for them.
  pub window-store :
      (t n head : ℕ) (xs cells : List A)
      → head % size ≡ (t + n) % size
      → size ≤ length cells
      → n + length xs ≤ size
      → window blank (store mask head xs cells).1 size t (n + length xs)
        ≡ window blank cells size t n ++ xs
  unfolding store
  window-store t n head [] cells e hc hn =
      ap (window blank cells size t) {x = n + 0} {y = n} (omega arith) ∙ sym (append-nil _)
  window-store t n head (x ∷ xs) cells e hc hn =
      ap (window blank (store mask head (x ∷ xs) cells).1 size t) {x = n + suc (length xs)}
        {y = n + 1 + length xs} (omega arith)
      ∙ window-store t (n + 1) (add64 head 1) xs cells' next
          (rw (length-set cells (bit_and head mask) x) hc) (omega arith)
      ∙ ap (λ w. w ++ xs) one
      ∙ append_assoc (window blank cells size t n) (x ∷ []) xs
    where
      cells' : List A
      cells' = set cells (bit_and head mask) x

      place : bit_and head mask ≡ (t + n) % size
      place = masks head ∙ e

      next : add64 head 1 % size ≡ (t + (n + 1)) % size
      next =
          wraps (head + 1)
          ∙ sym (mod-add-mod head size 1)
          ∙ ap (λ i. (i + 1) % size) e
          ∙ mod-add-mod (t + n) size 1
          ∙ ap (λ i. i % size) (omega arith)

      one : window blank cells' size t (n + 1) ≡ window blank cells size t n ++ (x ∷ [])
      one =
          window_snoc blank cells' size t n
          ∙ ap₂ (λ w y. w ++ (y ∷ []))
              (window-set blank cells size t n (bit_and head mask) x (omega arith) place)
              (ap (λ i. get_or cells' i blank) (sym place)
                ∙ get_or-set_self cells (bit_and head mask) x blank
                    (omega (arith, place, mod-lt (t + n) {m = size} (omega arith))))

-- The ring that the copy loop leaves.
abbrev pub appended {ℓ} : {A : Type ℓ} → Ring A → List A → Ring A
appended r xs = record r {
  head = (store r.mask r.head xs r.buffer).0;
  buffer = (store r.mask r.head xs r.buffer).1;
}

module _ {ℓ} {A : Type ℓ} {r : Ring A} (v : IsValid r) where
  -- Head is as many items past tail, up to the wrap-around.
  head_cell : r.head % r.size ≡ (r.tail + sub64 r.head r.tail) % r.size
  head_cell = ap (λ i. i % r.size) (omega arith) ∙ wrapped_index v (r.tail + sub64 r.head r.tail)

  used-appended :
      (xs : List A)
      → sub64 r.head r.tail + length xs ≤ r.size
      → sub64 (appended r xs).head r.tail ≡ sub64 r.head r.tail + length xs
  used-appended xs room =
      omega (arith, (size_bounds v).1, head-store r.mask r.head xs r.buffer v.head_in)

  pub appended-IsValid :
      (xs : List A) → sub64 r.head r.tail + length xs ≤ r.size → IsValid (appended r xs)
  appended-IsValid xs room = record {
    order = v.order;
    small = v.small;
    power = v.power;
    masked = v.masked;
    cells = rw (length-store r.mask r.head xs r.buffer) v.cells;
    head_in = omega (arith, head-store r.mask r.head xs r.buffer v.head_in);
    tail_in = v.tail_in;
    within = rw (used-appended xs room) room;
  }

  pub contents-appended :
      (blank : A) (xs : List A)
      → sub64 r.head r.tail + length xs ≤ r.size
      → contents blank (appended r xs) ≡ contents blank r ++ xs
  contents-appended blank xs room = rw (used-appended xs room) (
      window-store blank r.size r.mask (masked_index v) (wrapped_index v) r.tail
        (sub64 r.head r.tail) r.head xs r.buffer head_cell v.cells room)
