-- ===== src/File/Ini/Values.antt =====
-- Maps from strings, and the buffer of the values.
use plain.Prelude.{
  ℕ, zero, suc, ◌+◌, ◌*◌, ◌≤◌, ◌<◌, ◌≡◌, ◌≢◌, ◌∙◌, refl, sym, ap, ap₂, ◌⊎◌, inl, inr, true, false,
  ◌||◌, Option, none, some, List, [], ◌∷◌, ◌++◌, length, length-append, set, drop,
  drop-append_length, leb, ltb, ◌==◌, ==_iff, if◌then◌else◌, Bool-cases, arith,
}
use plain.Prelude.Sets.{has}
use plain.File.Ini.{
  ok, Valueset, Ini, same_text, find_text, insert_text, add_bufferstring, buffer_resize, set_at,
  text_at,
}
use mathlib.Core.Bool.{false≢true}
use mathlib.Core.Option.{none-ne-some}

abbrev pub or_else {ℓ} : {A : Type ℓ} → Option A → Option A → Option A
or_else none o = o
or_else (some x) o = some x

pub same_text-eq : (xs ys : List ℕ) → same_text xs ys ≡ true → xs ≡ ys
same_text-eq [] [] h = refl
same_text-eq [] (y ∷ ys) h = absurd (false≢true h)
same_text-eq (x ∷ xs) [] h = absurd (false≢true h)
same_text-eq (x ∷ xs) (y ∷ ys) h = elim (Bool-cases (x == y)) [
  | inl same ↦ ap₂ ◌∷◌ ((==_iff x y).0 same) (same_text-eq xs ys (rw same at h))
  | inr other ↦ absurd (false≢true (rw other at h))
]

pub same_text_self : (xs : List ℕ) → same_text xs xs ≡ true
same_text_self [] = refl
same_text_self (x ∷ xs) = ground (arith, same_text_self xs)

-- Strings are equal or not.
pub text_discrete : (xs ys : List ℕ) → Dec (xs ≡ ys)
text_discrete xs ys = elim (Bool-cases (same_text xs ys)) [
  | inl same ↦ yes (same_text-eq xs ys same)
  | inr differs ↦ no (λ e. false≢true (sym differs ∙ ap (same_text xs) (sym e) ∙ same_text_self xs))
]

pub Option-cases {ℓ} : {A : Type ℓ} → (o : Option A) → (o ≡ none) ⊎ ((x : A) × (o ≡ some x))
Option-cases none = inl refl
Option-cases (some x) = inr (x, refl)

find_text-append :
    (k n : List ℕ) (v : ℕ) (es : List (List ℕ × ℕ))
    → find_text k (es ++ (n, v) ∷ [])
      ≡ or_else (find_text k es) (if same_text k n then some v else none)
find_text-append k n v [] = refl
find_text-append k n v (e ∷ es) = elim (Bool-cases (same_text k e.0)) [
  | inl same ↦ rw same refl
  | inr other ↦ rw other (find_text-append k n v es)
]

-- What is there stays.
pub find_text-insert_text :
    (k n : List ℕ) (v : ℕ) (es : List (List ℕ × ℕ))
    → find_text k (insert_text n v es)
      ≡ or_else (find_text k es) (if same_text k n then some v else none)
find_text-insert_text k n v es = elim (Option-cases (find_text n es)) [
  | inl absent ↦ rw (insert_text, absent) (find_text-append k n v es)
  | inr (u, there) ↦
      rw (insert_text, there)
        (elim (Option-cases (find_text k es)) [
          | inl nowhere ↦ elim (Bool-cases (same_text k n)) [
            | inl same ↦ absurd (
                none-ne-some u
                  (sym nowhere ∙ ap (λ t. find_text t es) (same_text-eq k n same) ∙ there))
            | inr other ↦ rw (other, nowhere) refl
          ]
          | inr (w, found) ↦ rw found refl
        ])
]

-- A new set is as empty as one that is not there.
pub set_at-append : (sets : List Valueset) (p : ℕ) → set_at (sets ++ [] ∷ []) p ≡ set_at sets p
set_at-append [] zero = refl
set_at-append [] (suc p) = refl
set_at-append (s ∷ sets) zero = refl
set_at-append (s ∷ sets) (suc p) = set_at-append sets p

pub set_at-last : (sets : List Valueset) → set_at (sets ++ [] ∷ []) (length sets) ≡ []
set_at-last [] = refl
set_at-last (s ∷ sets) = set_at-last sets

pub set_at-set_self :
    (sets : List Valueset) (p : ℕ) (v : Valueset) → p < length sets → set_at (set sets p v) p ≡ v
set_at-set_self [] p v h = absurd (omega arith)
set_at-set_self (s ∷ sets) zero v h = refl
set_at-set_self (s ∷ sets) (suc p) v h = set_at-set_self sets p v (omega arith)

pub set_at-set_ne :
    (sets : List Valueset) (p q : ℕ) (v : Valueset)
    → p ≢ q
    → set_at (set sets p v) q ≡ set_at sets q
set_at-set_ne [] p q v h = refl
set_at-set_ne (s ∷ sets) zero zero v h = absurd (h refl)
set_at-set_ne (s ∷ sets) zero (suc q) v h = refl
set_at-set_ne (s ∷ sets) (suc p) zero v h = refl
set_at-set_ne (s ∷ sets) (suc p) (suc q) v h = set_at-set_ne sets p q v (λ e. h (ap suc e))

-- A string that has ended is not changed by what comes behind it.
text_at-append : (xs ys : List ℕ) → has 0 xs ≡ true → text_at (xs ++ ys) ≡ text_at xs
text_at-append [] ys h = absurd (false≢true h)
text_at-append (x ∷ xs) ys h = elim (Bool-cases (x == 0)) [
  | inl same ↦ rw same refl
  | inr other ↦ rw other (ap (λ t. x ∷ t) (text_at-append xs ys (ground (arith, h, other))))
]

-- A string with its NUL reads back.
pub text_at-ended : (v ys : List ℕ) → has 0 v ≡ false → text_at (v ++ 0 ∷ ys) ≡ v
text_at-ended [] ys h = refl
text_at-ended (x ∷ v) ys h = elim (Bool-cases (x == 0)) [
  | inl same ↦ absurd (false≢true (sym h ∙ ground (arith, same)))
  | inr other ↦ rw other (ap (λ t. x ∷ t) (text_at-ended v ys (ground (arith, h))))
]

pub drop-append : (n : ℕ) (xs ys : List ℕ) → n ≤ length xs → drop n (xs ++ ys) ≡ drop n xs ++ ys
drop-append zero xs ys h = refl
drop-append (suc n) [] ys h = absurd (omega arith)
drop-append (suc n) (x ∷ xs) ys h = drop-append n xs ys (omega arith)

pub has-append : (k : ℕ) (xs ys : List ℕ) → has k (xs ++ ys) ≡ (has k xs || has k ys)
has-append k [] ys = refl
has-append k (x ∷ xs) ys = ground (arith, has-append k xs ys)

-- A position from which the buffer has a whole string.
abbrev pub Ended : List ℕ → ℕ → Type 0
Ended buffer pos = (pos < length buffer) × (has 0 (drop pos buffer) ≡ true)

pub Ended-append :
    (buffer more : List ℕ) (pos : ℕ)
    → Ended buffer pos
    → Ended (buffer ++ more) pos × (text_at (drop pos (buffer ++ more)) ≡ text_at (drop pos buffer))
Ended-append buffer more pos (inside, ends) =
    let e = drop-append pos buffer more (omega arith) in
    (
      (
        omega (arith, length-append buffer more),
        rw e (ground (arith, has-append 0 (drop pos buffer) more, ends)),
      ),
      ap text_at e ∙ text_at-append (drop pos buffer) more ends,
    )

pub Ended-new :
    (buffer v : List ℕ)
    → has 0 v ≡ false
    → Ended (buffer ++ (v ++ 0 ∷ [])) (length buffer)
      × (text_at (drop (length buffer) (buffer ++ (v ++ 0 ∷ []))) ≡ v)
Ended-new buffer v h =
    let e = drop-append_length buffer (v ++ 0 ∷ []) in
    (
      (
        omega (arith, length-append buffer (v ++ 0 ∷ []), length-append v (0 ∷ [])),
        rw e (ground (arith, has-append 0 v (0 ∷ []))),
      ),
      ap text_at e ∙ text_at-ended v [] h,
    )

-- One doubling is enough for the value of a line.
pub add_bufferstring-ok :
    (v : List ℕ) (f : Ini)
    → length v < 512
    → 1024 ≤ f.capacity
    → length f.buffer ≤ f.capacity
    → (c : ℕ) × (add_bufferstring v f
        ≡ ok (record f { capacity = c; buffer = f.buffer ++ (v ++ 0 ∷ []) }, length f.buffer))
      × (1024 ≤ c)
      × (length (f.buffer ++ (v ++ 0 ∷ [])) ≤ c)
unfolding add_bufferstring buffer_resize
add_bufferstring-ok v f short large fits =
    let long : length (f.buffer ++ (v ++ 0 ∷ [])) ≡ length f.buffer + (length v + 1) =
      length-append f.buffer (v ++ 0 ∷ [])
      ∙ ap (λ t. length f.buffer + t) (length-append v (0 ∷ [])) in
    elim (Bool-cases (leb f.capacity (length f.buffer + (length v + 1)))) [
      | inl full ↦
          let room : ltb (f.capacity * 2) (length f.buffer + (length v + 1)) ≡ false =
            ground arith in
          (f.capacity * 2, simp (full, room) refl, omega arith, omega (arith, long))
      | inr free ↦
          let room : ltb f.capacity (length f.buffer + (length v + 1)) ≡ false =
            ground (arith, free) in
          (f.capacity, simp (free, room) refl, omega arith, ground (arith, long, free))
    ]
