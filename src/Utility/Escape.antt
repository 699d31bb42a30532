-- ===== src/Utility/Escape.antt =====
-- Escaping a string: that it can be undone, and how many bytes it puts out.
use plain.Prelude.{
  ℕ, ◌+◌, ◌*◌, ◌≤◌, ◌<◌, ◌≡◌, ◌∙◌, refl, ap, true, List, [], ◌∷◌, ◌++◌, length, length-append, ltb,
  ◌==◌, if◌then◌else◌, Bool-cases, inl, inr, arith,
}
use plain.Utility.{get_escapechar, escaped, getescape_loop, getescape}

-- The character that stands for another behind a backslash.
abbrev pub meant : ℕ → ℕ
meant e =
    if e == 48
    then 0
    else if e == 110
    then 10
    else if e == 114
    then 13
    else if e == 90
    then 0x1a
    else e

-- Reading an escaped string.
unfoldable pub unescape : List ℕ → List ℕ
unescape [] = []
unescape (c ∷ []) = c ∷ []
unescape (c ∷ e ∷ str) =
    let plain_rest = unescape (e ∷ str) in
    let rest = unescape str in if c == 92 then meant e ∷ rest else c ∷ plain_rest

unescape-escaped : (c : ℕ) (str : List ℕ) → unescape (escaped c ++ str) ≡ c ∷ unescape str
unfolding unescape escaped get_escapechar
unescape-escaped c [] = ground arith
unescape-escaped c (x ∷ str) = ground arith

length-escaped : (c : ℕ) → (1 ≤ length (escaped c)) × (length (escaped c) ≤ 2)
unfolding escaped get_escapechar
length-escaped c = ground arith

loop_unescaped :
    (index2 outsize : ℕ) (input : List ℕ)
    → index2 + 2 * length input ≤ outsize
    → unescape (getescape_loop index2 outsize input) ≡ input
unfolding getescape_loop
loop_unescaped index2 outsize [] h = unfold unescape in refl
loop_unescaped index2 outsize (c ∷ input) h =
    let room : ltb index2 outsize ≡ true = ground arith in
    rw room (
      unescape-escaped c (getescape_loop (index2 + length (escaped c)) outsize input)
      ∙ ap (λ t. c ∷ t)
          (loop_unescaped (index2 + length (escaped c)) outsize input
            (omega (arith, length-escaped c))))

loop_bound :
    (index2 outsize : ℕ) (input : List ℕ)
    → index2 ≤ outsize + 1
    → index2 + length (getescape_loop index2 outsize input) ≤ outsize + 1
unfolding getescape_loop
loop_bound index2 outsize [] h = omega arith
loop_bound index2 outsize (c ∷ input) h = elim (Bool-cases (ltb index2 outsize)) [
  | inl room ↦
      let inside : index2 < outsize = ground (arith, room) in
      let rest =
        loop_bound (index2 + length (escaped c)) outsize input (omega (arith, length-escaped c)) in
      rw room (
        omega (
          arith,
          length-append (escaped c) (getescape_loop (index2 + length (escaped c)) outsize input),
          rest,
        ))
  | inr no_room ↦ rw no_room (omega arith)
]

-- With an output of twice the size, escaping is undone by reading a character behind a backslash
-- as the one that it stands for.
pub unescape-getescape :
    (input : List ℕ) (outsize : ℕ)
    → 2 * length input ≤ outsize
    → unescape (getescape input outsize) ≡ input
unfolding getescape
unescape-getescape input outsize h = loop_unescaped 0 outsize input (omega arith)

-- `getescape` puts out at most one byte more than its output has room for, and for a newline and
-- an output of one byte it does put out two.
pub getescape_bound :
    (input : List ℕ) (outsize : ℕ)
    → (length (getescape input outsize) ≤ outsize + 1) × (length (getescape (10 ∷ []) 1) ≡ 2)
unfolding getescape getescape_loop escaped get_escapechar
getescape_bound input outsize = (omega (arith, loop_bound 0 outsize input (omega arith)), refl)
