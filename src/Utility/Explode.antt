-- ===== src/Utility/Explode.antt =====
-- Splitting a string by a key: the items, joined by the key, are the string.
use plain.Prelude.{
  ℕ, zero, suc, ◌+◌, ◌-◌, ◌≤◌, ◌<◌, ◌≡◌, ◌∙◌, refl, sym, ap, true, false, none, some, List, [], ◌∷◌,
  ◌++◌, length, length-append, length-drop, length-take, min, take, drop, take_all, Bool-cases, inl,
  inr, ◌⊎◌, arith,
}
use plain.Utility.{is_prefix, find, explode_loop, explode}

-- The items with the key between them.
abbrev pub join : List ℕ → List (List ℕ) → List ℕ
join key [] = []
join key (item ∷ []) = item
join key (item ∷ next ∷ items) = item ++ (key ++ join key (next ∷ items))

is_prefix_lem :
    (needle str : List ℕ) → is_prefix needle str ≡ true → str ≡ needle ++ drop (length needle) str
unfolding is_prefix
is_prefix_lem [] str h = refl
is_prefix_lem (c ∷ needle) [] h = grind (arith, h)
is_prefix_lem (c ∷ needle) (x ∷ str) h =
    ground (arith, h, λ (q : is_prefix needle str ≡ true). is_prefix_lem needle str q)

at_start :
    (needle str : List ℕ)
    → is_prefix needle str ≡ true
    → str ≡ take 0 str ++ (needle ++ drop (0 + length needle) str)
at_start needle str h =
    is_prefix_lem needle str h
    ∙ ap (λ n. needle ++ drop n str) {x = length needle} {y = 0 + length needle} (omega arith)

-- A found key splits the string at its place.
find_splits :
    (needle str : List ℕ)
    → (find needle str ≡ none)
      ⊎ ((i : ℕ) × (find needle str ≡ some i)
          × (str ≡ take i str ++ (needle ++ drop (i + length needle) str)))
unfolding find
find_splits needle [] = elim (Bool-cases (is_prefix needle [])) [
  | inl here ↦ inr (0, rw here refl, at_start needle [] here)
  | inr other ↦ inl (rw other refl)
]
find_splits needle (x ∷ str) = elim (Bool-cases (is_prefix needle (x ∷ str))) [
  | inl here ↦ inr (0, rw here refl, at_start needle (x ∷ str) here)
  | inr other ↦ elim (find_splits needle str) [
    | inl none_later ↦ inl (rw (other, none_later) refl)
    | inr (i, found, split) ↦ inr (
      suc i,
      rw (other, found) refl,
      ap (λ t. x ∷ t) split
          ∙ ap (λ n. x ∷ (take i str ++ (needle ++ drop n (x ∷ str)))) {x = suc (i + length needle)}
              {y = suc i + length needle} (omega arith),
    )
  ]
]

module _ (key : List ℕ) (some_key : 0 < length key) where
  -- A round puts its item in front of those of the next round.
  join_rest :
      (item : List ℕ) (items : List (List ℕ))
      → 0 < length items
      → join key (item ∷ items) ≡ item ++ (key ++ join key items)
  join_rest item [] h = absurd (omega arith)
  join_rest item (next ∷ items) h = refl

  loop_some :
      (rounds : ℕ) (rest : List ℕ)
      → 0 < rounds
      → 0 < length (explode_loop rounds false false key rest)
  unfolding explode_loop
  loop_some zero rest h = h
  loop_some (suc rounds) rest h = ground arith

  loop_joins :
      (rounds : ℕ) (rest : List ℕ)
      → length rest < rounds
      → join key (explode_loop rounds false false key rest) ≡ rest
  unfolding explode_loop
  loop_joins zero rest h = absurd (omega arith)
  loop_joins (suc rounds) rest h = elim (find_splits key rest) [
    | inl nowhere ↦ ground (arith, nowhere, take_all (length rest) rest (omega arith))
    | inr (i, found, split) ↦
        let later = drop (i + length key) rest in
        let inside : i + length key ≤ length rest = omega (arith, split_length i split) in
        let step : explode_loop (suc rounds) false false key rest
            ≡ take i rest ∷ explode_loop rounds false false key later =
          ground (arith, found, inside) in
        ap (join key) step
        ∙ join_rest (take i rest) (explode_loop rounds false false key later)
            (loop_some rounds later (omega arith))
        ∙ ap (λ t. take i rest ++ (key ++ t))
            (loop_joins rounds later (omega (arith, length-drop (i + length key) rest)))
        ∙ sym split
  ]
    where
      split_length :
          (i : ℕ)
          → rest ≡ take i rest ++ (key ++ drop (i + length key) rest)
          → length rest ≡ min i (length rest) + (length key + (length rest - (i + length key)))
      split_length i e = omega (
        arith,
        ap length e,
        length-append (take i rest) (key ++ drop (i + length key) rest),
        length-append key (drop (i + length key) rest),
        length-take i rest,
        length-drop (i + length key) rest,
      )

-- Splitting a string that is not empty by a key that is not empty and is found as a whole, with
-- the empty items kept, gives items that joined by the key are the string.
pub join-explode :
    (str key : List ℕ)
    → 0 < length str
    → 0 < length key
    → (items : List (List ℕ)) × (explode str key false false ≡ some items) × (join key items ≡ str)
unfolding explode
join-explode str key some_str some_key = (
  explode_loop (length str + 1) false false key str,
  ground arith,
  loop_joins key some_key (length str + 1) str (omega arith),
)
