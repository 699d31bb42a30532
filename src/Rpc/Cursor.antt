-- ===== src/Rpc/Cursor.antt =====
-- How the packer's loops lay bytes out, and how the unpacker's cursor moves over bytes that are there.
use plain.Prelude.{
  ℕ, zero, suc, ◌+◌, ◌*◌, ◌/◌, ◌%◌, ◌^◌, ◌≤◌, ◌<◌, bit_and, bit_or, ◌≡◌, ◌∙◌, refl, sym, ap, ap₂,
  List, [], ◌∷◌, ◌++◌, append_assoc, append-nil, length, length-drop, get_or, drop, drop-add, arith,
}
use plain.Prelude.Bits.{bit_and-mask, bit_or_disjoint, pow-add}
use plain.Endian.{be_bytes}
use plain.Rpc.Packer.{emplace, emplace_be}
use plain.Rpc.Unpacker.{Unpacker, peek_byte, increment, take_byte, sum_be, or_be}
use native.Mathlib.Nat.{mod-add-mod, mod-eq_of_lt, mod-lt, one-le-pow, pow-le-pow_right}

pub emplace_be-be_bytes : (k v : ℕ) (out : List ℕ) → emplace_be k v out ≡ out ++ be_bytes k v
unfolding emplace_be be_bytes
emplace_be-be_bytes zero v out = sym (append-nil out)
emplace_be-be_bytes (suc k) v out =
    ap (λ b. emplace_be k v (emplace b out)) byte
    ∙ emplace_be-be_bytes k v (emplace (v / 2 ^ (8 * k) % 256) out)
    ∙ append_assoc out (v / 2 ^ (8 * k) % 256 ∷ []) (be_bytes k v)
  where
    byte : bit_and (v / 2 ^ (8 * k)) 0xff % 256 ≡ v / 2 ^ (8 * k) % 256
    byte = omega (arith, bit_and-mask 8 (v / 2 ^ (8 * k)))

-- The value of the lowest `k` bytes of `v`.
abbrev pub low_value : ℕ → ℕ → ℕ
low_value zero v = 0
low_value (suc k) v = v / 2 ^ (8 * k) % 256 * 2 ^ (8 * k) + low_value k v

-- The cursor `n` bytes on.
abbrev pub moved : Unpacker → ℕ → Unpacker
moved u n = record u { position = u.position + n }

abbrev pub ahead : Unpacker → List ℕ
ahead u = drop u.position u.bytes

get_or-drop : (n : ℕ) (xs : List ℕ) → get_or (drop n xs) 0 0 ≡ get_or xs n 0
get_or-drop zero [] = refl
get_or-drop zero (x ∷ xs) = refl
get_or-drop (suc n) [] = refl
get_or-drop (suc n) (x ∷ xs) = get_or-drop n xs

module _ (u : Unpacker) (b : ℕ) (rest : List ℕ) (e : ahead u ≡ b ∷ rest) where
  inside : u.position < length u.bytes
  inside = omega (arith, length-drop u.position u.bytes, ap length e)

  pub peek_ahead : peek_byte u ≡ (b, u)
  unfolding peek_byte
  peek_ahead = ground (arith, inside, get_or-drop u.position u.bytes, ap (λ t. get_or t 0 0) e)

  pub increment_ahead : increment 1 u ≡ moved u 1
  unfolding increment
  increment_ahead = ground (arith, inside)

  pub ahead-moved : ahead (moved u 1) ≡ rest
  ahead-moved = drop-add u.position 1 u.bytes ∙ ap (drop 1) e

  pub take_ahead : take_byte u ≡ (b, moved u 1)
  unfolding take_byte
  take_ahead = rw (peek_ahead, increment_ahead)

pub moved_add : (u : Unpacker) (m n : ℕ) → moved (moved u m) n ≡ moved u (m + n)
moved_add u m n = ap (λ k. record u { position = k }) (omega arith)

-- The loop of sums reads a number of `k` bytes.
pub sum_be-ahead :
    (w k v acc : ℕ) (u : Unpacker) (rest : List ℕ)
    → ahead u ≡ be_bytes k v ++ rest
    → acc < 2 ^ w
    → sum_be w k acc u ≡ ((acc + low_value k v) % 2 ^ w, moved u k)
unfolding sum_be be_bytes
sum_be-ahead w zero v acc u rest e h =
    ap₂ (λ a n. (a, record u { position = n })) {x = acc} {y = (acc + 0) % 2 ^ w} {u = u.position}
      {v = u.position + 0} (sym (mod-eq_of_lt h) ∙ ap (λ t. t % 2 ^ w) (omega arith)) (omega arith)
sum_be-ahead w (suc k) v acc u rest e h =
    rw (peek_ahead u b (be_bytes k v ++ rest) e, increment_ahead u b (be_bytes k v ++ rest) e)
      (sum_be-ahead w k v acc' (moved u 1) rest (ahead-moved u b (be_bytes k v ++ rest) e)
          (mod-lt _ positive)
        ∙ ap₂ (λ t n. (t, n)) sums (moved_add u 1 k ∙ ap (moved u) (omega arith)))
  where
    b : ℕ
    b = v / 2 ^ (8 * k) % 256

    acc' : ℕ
    acc' = (acc + b * 2 ^ (8 * k)) % 2 ^ w

    positive : 0 < 2 ^ w
    positive = omega arith

    sums : (acc' + low_value k v) % 2 ^ w ≡ (acc + low_value (suc k) v) % 2 ^ w
    sums =
        mod-add-mod (acc + b * 2 ^ (8 * k)) (2 ^ w) (low_value k v)
        ∙ ap (λ t. t % 2 ^ w) (omega arith)

-- A digit `b` below `a` in a base of which `m` is a power.
digit_below : (b m n : ℕ) → b < 256 → 0 < m → n ≡ m * 256 → b * m < n
digit_below b m n hb hm e = grind arith

digit_joins : (a b m n : ℕ) → n ≡ m * 256 → a * n + b * m ≡ (a * 256 + b) * m
digit_joins a b m n e = omega (arith, ap (λ (t : ℕ). a * t) e)

-- The loop on a bitset reads it too, since the bits that it joins are disjoint.
pub or_be-ahead :
    (w k v a : ℕ) (u : Unpacker) (rest : List ℕ)
    → ahead u ≡ be_bytes k v ++ rest
    → 8 * k ≤ w
    → or_be w k (a * 2 ^ (8 * k)) u ≡ (a * 2 ^ (8 * k) + low_value k v, moved u k)
unfolding or_be be_bytes
or_be-ahead w zero v a u rest e h =
    ap₂ (λ t n. (t, record u { position = n })) {x = a * 2 ^ (8 * 0)} {y = a * 2 ^ (8 * 0) + 0}
      {u = u.position} {v = u.position + 0} (omega arith) (omega arith)
or_be-ahead w (suc k) v a u rest e h =
    rw (peek_ahead u b (be_bytes k v ++ rest) e, increment_ahead u b (be_bytes k v ++ rest) e)
      (ap (λ t. or_be w k t (moved u 1)) joined
        ∙ or_be-ahead w k v (a * 256 + b) (moved u 1) rest
            (ahead-moved u b (be_bytes k v ++ rest) e) (omega arith)
        ∙ ap₂ (λ t n. (t, n)) (omega (arith, digit_joins a b (2 ^ (8 * k)) (2 ^ (8 * suc k)) wide))
            (moved_add u 1 k ∙ ap (moved u) (omega arith)))
  where
    b : ℕ
    b = v / 2 ^ (8 * k) % 256

    wide : 2 ^ (8 * suc k) ≡ 2 ^ (8 * k) * 256
    wide = ap (λ n. 2 ^ n) {x = 8 * suc k} {y = 8 * k + 8} (omega arith) ∙ pow-add (8 * k) 8

    fits : b * 2 ^ (8 * k) < 2 ^ (8 * suc k)
    fits =
        digit_below b (2 ^ (8 * k)) (2 ^ (8 * suc k)) (omega arith)
          (one-le-pow (8 * k) 2 (omega arith)) wide

    joined : bit_or (a * 2 ^ (8 * suc k)) (b * 2 ^ (8 * k) % 2 ^ w) ≡ (a * 256 + b) * 2 ^ (8 * k)
    joined =
        ap (bit_or (a * 2 ^ (8 * suc k)))
          (mod-eq_of_lt (omega (arith, fits, pow-le-pow_right {n = 2} (omega arith) h)))
        ∙ bit_or_disjoint (8 * suc k) a (b * 2 ^ (8 * k)) fits
        ∙ digit_joins a b (2 ^ (8 * k)) (2 ^ (8 * suc k)) wide
