-- ===== src/Ring/Window.antt =====
-- The items that a ring of `size` cells holds, read from cell `t % size` on, going round at the end.
use plain.Prelude.{
  ℕ, zero, suc, ◌+◌, ◌-◌, ◌%◌, ◌≤◌, ◌<◌, ◌≡◌, ◌≢◌, refl, sym, ap, ap₂, ◌∙◌, List, [], ◌∷◌, ◌++◌,
  length, get_or, set, take, drop, arith, get_or-set_ne,
}
use native.Mathlib.Decide.{dec_lt}
use native.Mathlib.Nat.{mod-lt, mod-eq_of_lt, mod-eq-sub-mod, mod-add-mod, add-zero}

module _ {ℓ} {A : Type ℓ} (blank : A) where
  unfoldable pub window : List A → ℕ → ℕ → ℕ → List A
  window cells size t zero = []
  window cells size t (suc n) = get_or cells (t % size) blank ∷ window cells size (t + 1) n

-- Fewer than `size` steps from a cell do not come back to it.
step-ne : (size r d : ℕ) → r < size → 0 < d → d < size → (r + d) % size ≢ r
step-ne size r d hr hd hs = elim (dec_lt (r + d) size) [
  | yes below ↦ omega (arith, mod-eq_of_lt below)
  | no beyond ↦ omega (
    arith,
    mod-eq-sub-mod {n = r + d} {m = size} (omega arith),
    mod-eq_of_lt {n = r + d - size} {m = size} (omega arith),
  )
]

pub cells-ne : (size t i n : ℕ) → i < n → n < size → t % size ≢ (t + n) % size
cells-ne size t i n hi hn e =
    step-ne size (t % size) n (mod-lt t (omega arith)) (omega arith) hn
      (mod-add-mod t size n ∙ sym e)

module _ {ℓ} {A : Type ℓ} (blank : A) where
  pub length-window : (cells : List A) (size t n : ℕ) → length (window blank cells size t n) ≡ n
  unfolding window
  length-window cells size t zero = refl
  length-window cells size t (suc n) = ap suc (length-window cells size (t + 1) n)

  -- A write just past a window leaves it alone.
  pub window-set :
      (cells : List A) (size t n j : ℕ) (x : A)
      → n < size
      → j ≡ (t + n) % size
      → window blank (set cells j x) size t n ≡ window blank cells size t n
  unfolding window
  window-set cells size t zero j x h e = refl
  window-set cells size t (suc n) j x h e =
      ap₂ ◌∷◌
        (get_or-set_ne cells j (t % size) x blank
          (λ p. cells-ne size t 0 (suc n) (omega arith) h (sym p ∙ e)))
        (window-set cells size (t + 1) n j x (omega arith) (e ∙ moved))
    where
      moved : (t + suc n) % size ≡ (t + 1 + n) % size
      moved = ap (λ i. i % size) (omega arith)

  -- The last item of a window stands alone.
  pub window_snoc :
      (cells : List A) (size t n : ℕ)
      → window blank cells size t (n + 1)
        ≡ window blank cells size t n ++ (get_or cells ((t + n) % size) blank ∷ [])
  unfolding window
  window_snoc cells size t zero =
      rw add-zero (ap (window blank cells size t) {x = zero + 1} {y = 1} (omega arith))
  window_snoc cells size t (suc n) =
      ap (window blank cells size t) {x = suc n + 1} {y = suc (n + 1)} (omega arith)
      ∙ ap (λ w. get_or cells (t % size) blank ∷ w) (window_snoc cells size (t + 1) n ∙ moved)
    where
      moved :
          window blank cells size (t + 1) n ++ (get_or cells ((t + 1 + n) % size) blank ∷ [])
          ≡ window blank cells size (t + 1) n ++ (get_or cells ((t + suc n) % size) blank ∷ [])
      moved =
          ap (λ i. window blank cells size (t + 1) n ++ (get_or cells (i % size) blank ∷ []))
            {x = t + 1 + n} {y = t + suc n} (omega arith)

  pub take-window :
      (cells : List A) (size t n k : ℕ)
      → k ≤ n
      → take k (window blank cells size t n) ≡ window blank cells size t k
  unfolding window
  take-window cells size t n zero h = refl
  take-window cells size t zero (suc k) h = absurd (omega arith)
  take-window cells size t (suc n) (suc k) h =
      ap (λ w. get_or cells (t % size) blank ∷ w) (take-window cells size (t + 1) n k (omega arith))

  pub drop-window :
      (cells : List A) (size t n k : ℕ)
      → k ≤ n
      → drop k (window blank cells size t n) ≡ window blank cells size (t + k) (n - k)
  unfolding window
  drop-window cells size t n zero h =
      ap₂ (window blank cells size) {x = t} {y = t + 0} {u = n} {v = n - 0} (omega arith)
        (omega arith)
  drop-window cells size t zero (suc k) h = absurd (omega arith)
  drop-window cells size t (suc n) (suc k) h =
      drop-window cells size (t + 1) n k (omega arith)
      ∙ ap₂ (window blank cells size) {x = t + 1 + k} {y = t + suc k} {u = n - k}
          {v = suc n - suc k} (omega arith) (omega arith)

  -- Only the first cell's place counts.
  pub window_mod :
      (cells : List A) (size t u n : ℕ)
      → t % size ≡ u % size
      → window blank cells size t n ≡ window blank cells size u n
  unfolding window
  window_mod cells size t u zero h = refl
  window_mod cells size t u (suc n) h =
      ap₂ ◌∷◌ (ap (λ i. get_or cells i blank) h) (window_mod cells size (t + 1) (u + 1) n next)
    where
      next : (t + 1) % size ≡ (u + 1) % size
      next = sym (mod-add-mod t size 1) ∙ ap (λ i. (i + 1) % size) h ∙ mod-add-mod u size 1

  -- Two rings that agree on the cells of a window have the same items.
  pub window_agree :
      (cells cells' : List A) (size size' t n : ℕ)
      → ((i : ℕ)
          → t ≤ i
          → i < t + n
          → get_or cells (i % size) blank ≡ get_or cells' (i % size') blank)
      → window blank cells size t n ≡ window blank cells' size' t n
  unfolding window
  window_agree cells cells' size size' t zero h = refl
  window_agree cells cells' size size' t (suc n) h =
      ap₂ ◌∷◌ (h t (omega arith) (omega arith))
        (window_agree cells cells' size size' (t + 1) n (λ i p q. h i (omega arith) (omega arith)))

  pub get_or-window :
      (cells : List A) (size t n i : ℕ)
      → i < n
      → get_or (window blank cells size t n) i blank ≡ get_or cells ((t + i) % size) blank
  unfolding window
  get_or-window cells size t zero i h = absurd (omega arith)
  get_or-window cells size t (suc n) zero h =
      ap (λ j. get_or cells (j % size) blank) {x = t} {y = t + 0} (omega arith)
  get_or-window cells size t (suc n) (suc i) h =
      get_or-window cells size (t + 1) n i (omega arith)
      ∙ ap (λ j. get_or cells (j % size) blank) {x = t + 1 + i} {y = t + suc i} (omega arith)
