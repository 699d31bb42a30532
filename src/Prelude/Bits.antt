-- ===== src/Prelude/Bits.antt =====
-- The bit operations at variables: a mask of low ones takes a remainder, and a disjunction of
-- numbers with no common digit is a sum.
use Prim.Native.Nat.{digits, bit_and-bitwise, bit_or-bitwise, max}
use native.Mathlib.Nat.{pow-suc, one-le-pow, mul-add-mod_self_left, mod-eq_of_lt}
use native.Mathlib.Nat.{div-add-mod, mod-lt, mod-mod_of_dvd, dvd-mul_right}
use plain.Prelude.{
  ℕ, zero, suc, ◌+◌, ◌-◌, ◌*◌, ◌/◌, ◌%◌, ◌^◌, ◌≤◌, ◌<◌, min, bit_and, bit_or, ◌≡◌, refl, ap, ap₂,
  ◌∙◌, arith, Bool, true, ◌&&◌,
}

-- Any count of digits that is large enough gives the same result.
digits_count :
    (z : ℕ → ℕ) (f : ℕ → ℕ → ℕ)
    → (n m a b : ℕ) → a ≤ n
    → a ≤ m
    → digits z f n a b ≡ digits z f m a b
digits_count z f zero zero a b p q = refl
digits_count z f zero (suc m) zero b p q = refl
digits_count z f (suc n) zero zero b p q = refl
digits_count z f (suc n) (suc m) zero b p q = refl
digits_count z f zero m (suc a) b p q = absurd (omega arith)
digits_count z f (suc n) zero (suc a) b p q = absurd (omega arith)
digits_count z f (suc n) (suc m) (suc a) b p q =
    omega (arith, digits_count z f n m (suc a / 2) (b / 2) (omega arith) (omega arith))

pub bit_and_step : (a b : ℕ) → bit_and a b ≡ bit_and (a / 2) (b / 2) * 2 + min (a % 2) (b % 2)
bit_and_step zero b = omega (arith, bit_and-bitwise 0 b, bit_and-bitwise 0 (b / 2))
bit_and_step (suc a) b = omega (
  arith,
  bit_and-bitwise (suc a) b,
  bit_and-bitwise (suc a / 2) (b / 2),
  digits_count (λ _. zero) min a (suc a / 2) (suc a / 2) (b / 2) (omega arith) (omega arith),
)

pub bit_or_step : (a b : ℕ) → bit_or a b ≡ bit_or (a / 2) (b / 2) * 2 + max (a % 2) (b % 2)
bit_or_step zero b = omega (arith, bit_or-bitwise 0 b, bit_or-bitwise 0 (b / 2))
bit_or_step (suc a) b = omega (
  arith,
  bit_or-bitwise (suc a) b,
  bit_or-bitwise (suc a / 2) (b / 2),
  digits_count (λ c. c) max a (suc a / 2) (suc a / 2) (b / 2) (omega arith) (omega arith),
)

-- Strong induction by a bound that falls.
bit_and-zero_below : (n a : ℕ) → a ≤ n → bit_and a 0 ≡ 0
bit_and-zero_below n zero h = bit_and-bitwise 0 0
bit_and-zero_below zero (suc a) h = absurd (omega arith)
bit_and-zero_below (suc n) (suc a) h =
    omega (arith, bit_and_step (suc a) 0, bit_and-zero_below n (suc a / 2) (omega arith))

bit_or-zero_below : (n a : ℕ) → a ≤ n → bit_or a 0 ≡ a
bit_or-zero_below n zero h = bit_or-bitwise 0 0
bit_or-zero_below zero (suc a) h = absurd (omega arith)
bit_or-zero_below (suc n) (suc a) h =
    omega (arith, bit_or_step (suc a) 0, bit_or-zero_below n (suc a / 2) (omega arith))

pub bit_or-zero : (a : ℕ) → bit_or a 0 ≡ a
bit_or-zero a = bit_or-zero_below a a (omega arith)

-- The lowest digit and the next ones make up a remainder.
mod_double : (x m : ℕ) → 0 < m → x % (2 * m) ≡ (x / 2) % m * 2 + x % 2
mod_double x m h = omega (
  arith,
  ap (λ t. t % (2 * m)) split,
  mul-add-mod_self_left (2 * m) (x / 2 / m) ((x / 2) % m * 2 + x % 2),
  mod-eq_of_lt small,
)
  where
    split : x ≡ 2 * m * (x / 2 / m) + ((x / 2) % m * 2 + x % 2)
    split = omega (arith, ap (λ (t : ℕ). 2 * t) (div-add-mod (x / 2) m))

    small : (x / 2) % m * 2 + x % 2 < 2 * m
    small = omega (arith, mod-lt (x / 2) h)

mask_double :
    (x m : ℕ) → 0 < m → bit_and (x / 2) (m - 1) ≡ (x / 2) % m → bit_and x (2 * m - 1) ≡ x % (2 * m)
mask_double x m h e = omega (
  arith,
  bit_and_step x (2 * m - 1),
  ap (λ t. bit_and (x / 2) t) {x = (2 * m - 1) / 2} {y = m - 1} (omega arith),
  e,
  mod_double x m h,
)

-- `x & (2^k - 1)` is `x mod 2^k`.
pub bit_and-mask : (k x : ℕ) → bit_and x (2 ^ k - 1) ≡ x % 2 ^ k
bit_and-mask zero x = omega (arith, bit_and-zero_below x x (omega arith))
bit_and-mask (suc k) x =
    rw two-pow-mul (mask_double x (2 ^ k) (one-le-pow k 2 (omega arith)) (bit_and-mask k (x / 2)))
  where
    two-pow-mul : 2 ^ suc k ≡ 2 * 2 ^ k
    two-pow-mul = omega (arith, pow-suc 2 k)

-- A multiple of 2^k and a number below 2^k have no digit in common.
pub bit_or_disjoint : (k a b : ℕ) → b < 2 ^ k → bit_or (a * 2 ^ k) b ≡ a * 2 ^ k + b
bit_or_disjoint zero a b h = omega (
  arith,
  bit_or-zero a,
  ap₂ bit_or {x = a * 2 ^ 0} {y = a} {u = b} {v = 0} (omega arith) (omega arith),
)
bit_or_disjoint (suc k) a b h = omega (
  arith,
  bit_or_step (a * 2 ^ suc k) b,
  twice,
  ap (λ t. bit_or t (b / 2)) {x = a * 2 ^ suc k / 2} {y = a * 2 ^ k} (omega (arith, twice)),
  bit_or_disjoint k a (b / 2) (omega (arith, pow-suc 2 k)),
)
  where
    twice : a * 2 ^ suc k ≡ a * 2 ^ k * 2
    twice = omega (arith, ap (λ (t : ℕ). a * t) (pow-suc 2 k))

pub pow-add : (a b : ℕ) → 2 ^ (a + b) ≡ 2 ^ a * 2 ^ b
pow-add a zero = omega (arith, ap (λ k. 2 ^ k) {x = a + 0} {y = a} (omega arith))
pow-add a (suc b) = omega (
  arith,
  ap (λ k. 2 ^ k) {x = a + suc b} {y = suc (a + b)} (omega arith),
  pow-suc 2 (a + b),
  pow-suc 2 b,
  ap (λ (t : ℕ). t * 2) (pow-add a b),
  ap (λ (t : ℕ). 2 ^ a * t) (pow-suc 2 b),
)

-- A 64-bit wrap-around keeps the lower digits.
pub mod-pow_word : (k x : ℕ) → k ≤ 63 → x % 2 ^ 64 % 2 ^ k ≡ x % 2 ^ k
mod-pow_word k x h = mod-mod_of_dvd (2 ^ k) x (rw word (dvd-mul_right (2 ^ k) (2 ^ (64 - k))))
  where
    word : 2 ^ 64 ≡ 2 ^ k * 2 ^ (64 - k)
    word = ap (λ n. 2 ^ n) {x = 64} {y = k + (64 - k)} (omega arith) ∙ pow-add k (64 - k)

-- Over a small range a test is checked at every value.
unfoldable pub holds_below : ℕ → (ℕ → Bool) → Bool
holds_below zero p = true
holds_below (suc n) p = p n && holds_below n p

pub holds_below_lem : (n : ℕ) (p : ℕ → Bool) → holds_below n p ≡ true → (x : ℕ) → x < n → p x ≡ true
unfolding holds_below
holds_below_lem zero p h x lt = absurd (omega arith)
holds_below_lem (suc n) p h x lt =
    ground (arith, λ (q : holds_below n p ≡ true). holds_below_lem n p q x)
