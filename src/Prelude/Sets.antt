-- ===== src/Prelude/Sets.antt =====
-- Finite sets of numbers, `std::set`: lists in ascending order without repetition.
use plain.Prelude.{
  ℕ, suc, ◌≡◌, refl, ap, ◌∙◌, inl, inr, Bool, true, false, not, ◌&&◌, ◌||◌, List, [], ◌∷◌, length,
  ltb, ◌==◌, ==_iff, if◌then◌else◌, ◌≢◌, sym, Bool-cases, arith,
}
use mathlib.Core.Bool.{false≢true}

abbrev pub has : ℕ → List ℕ → Bool
has k [] = false
has k (x ∷ xs) = (k == x) || has k xs

-- A number in its place, before the first that is larger.
abbrev pub place : ℕ → List ℕ → List ℕ
place k [] = k ∷ []
place k (x ∷ xs) = let rest = place k xs in if ltb k x then k ∷ x ∷ xs else x ∷ rest

abbrev pub emplace_id : ℕ → List ℕ → List ℕ
emplace_id k xs = if has k xs then xs else place k xs

abbrev pub erase_id : ℕ → List ℕ → List ℕ
erase_id k [] = []
erase_id k (x ∷ xs) = let rest = erase_id k xs in if k == x then rest else x ∷ rest

abbrev pub IsDistinct : List ℕ → Type 0
IsDistinct [] = Unit
IsDistinct (x ∷ xs) = (has x xs ≡ false) × IsDistinct xs

pub has-place : (j k : ℕ) (xs : List ℕ) → has j (place k xs) ≡ ((j == k) || has j xs)
has-place j k [] = refl
has-place j k (x ∷ xs) = ground (arith, has-place j k xs)

pub has-emplace_id : (j k : ℕ) (xs : List ℕ) → has j (emplace_id k xs) ≡ ((j == k) || has j xs)
has-emplace_id j k xs = elim (Bool-cases (has k xs)) [
  | inl old ↦ rw old (elim (Bool-cases (j == k)) [
    | inl same ↦ rw same (ap (λ t. has t xs) ((==_iff j k).0 same) ∙ old)
    | inr other ↦ rw other refl
  ])
  | inr new ↦ rw new (has-place j k xs)
]

pub has-erase_id : (j k : ℕ) (xs : List ℕ) → has j (erase_id k xs) ≡ (has j xs && not (j == k))
has-erase_id j k [] = refl
has-erase_id j k (x ∷ xs) = ground (arith, has-erase_id j k xs)

length-place : (k : ℕ) (xs : List ℕ) → length (place k xs) ≡ suc (length xs)
length-place k [] = refl
length-place k (x ∷ xs) = ground (arith, length-place k xs)

pub length-emplace_id :
    (k : ℕ) (xs : List ℕ) → has k xs ≡ false → length (emplace_id k xs) ≡ suc (length xs)
length-emplace_id k xs h = ground (arith, length-place k xs, h)

pub erase_id_absent : (k : ℕ) (xs : List ℕ) → has k xs ≡ false → erase_id k xs ≡ xs
erase_id_absent k [] h = refl
erase_id_absent k (x ∷ xs) h = ground (arith, h, λ (q : has k xs ≡ false). erase_id_absent k xs q)

pub length-erase_id :
    (k : ℕ) (xs : List ℕ)
    → IsDistinct xs
    → has k xs ≡ true
    → suc (length (erase_id k xs)) ≡ length xs
length-erase_id k [] d h = ground (arith, h)
length-erase_id k (x ∷ xs) d h = elim (Bool-cases (k == x)) [
  | inl same ↦
      let gone : erase_id k xs ≡ xs =
        ap (λ t. erase_id t xs) ((==_iff k x).0 same) ∙ erase_id_absent x xs d.0 in
      rw (same, gone) refl
  | inr other ↦ ground (arith, other, h, λ (q : has k xs ≡ true). length-erase_id k xs d.1 q)
]

place-IsDistinct :
    (k : ℕ) (xs : List ℕ) → IsDistinct xs → has k xs ≡ false → IsDistinct (place k xs)
place-IsDistinct k [] d h = (refl, tt)
place-IsDistinct k (x ∷ xs) d h =
    ground (arith, h, d, has-place x k xs, λ (q : has k xs ≡ false). place-IsDistinct k xs d.1 q)

pub emplace_id-IsDistinct : (k : ℕ) (xs : List ℕ) → IsDistinct xs → IsDistinct (emplace_id k xs)
emplace_id-IsDistinct k xs d = elim (Bool-cases (has k xs)) [
  | inl old ↦ rw old d
  | inr new ↦ rw new (place-IsDistinct k xs d new)
]

pub erase_id-IsDistinct : (k : ℕ) (xs : List ℕ) → IsDistinct xs → IsDistinct (erase_id k xs)
erase_id-IsDistinct k [] d = tt
erase_id-IsDistinct k (x ∷ xs) d =
    ground (arith, d, has-erase_id x k xs, erase_id-IsDistinct k xs d.1)

pub has-nowhere : (k x : ℕ) (xs : List ℕ) → has k (x ∷ xs) ≡ false → (x ≢ k) × (has k xs ≡ false)
has-nowhere k x xs h = elim (Bool-cases (k == x)) [
  | inl same ↦ absurd (false≢true (sym (rw same at h)))
  | inr other ↦ (λ q. ground (arith, q, other), rw other at h)
]
