-- ===== src/File/Ini/Tests.antt =====
-- A file with two sections of one name, and files that are refused.
use plain.Prelude.{length, ℕ, ◌≤◌, ◌<◌, ◌≡◌, refl, ◌⊎◌, List, [], ◌∷◌, All, arith}
use plain.File.Ini.{ok, fault, past_result, Ini, open_ini, get, text_at, copy_string}
use plain.File.Ini.Line.{IsText}
use plain.File.Ini.Lookup.{open_ini_finds}
use plain.File.Ini.Saying.{said, lookup_said}
use plain.File.Ini.Errors.{value_fits_or_overflows}

-- "[a]", "k=5 ;n", "[a]", "m=7"
abbrev file : List (List ℕ)
file =
    (b'[' ∷ b'a' ∷ b']' ∷ [])
    ∷ (b'k' ∷ b'=' ∷ b'5' ∷ b' ' ∷ b';' ∷ b'n' ∷ [])
    ∷ (b'[' ∷ b'a' ∷ b']' ∷ [])
    ∷ (b'm' ∷ b'=' ∷ b'7' ∷ [])
    ∷ []

file-IsText : All IsText file
file-IsText =
    let a : IsText (b'[' ∷ b'a' ∷ b']' ∷ []) = record { short = omega arith; whole = refl } in
    (
      a,
      (
        record { short = omega arith; whole = refl },
        (a, (record { short = omega arith; whole = refl }, tt)),
      ),
    )

open_ini_finds_example :
    (f : Ini) × (open_ini 0 file ≡ ok f)
    × ((section key : List ℕ) → get section key f ≡ lookup_said section key (said file))
open_ini_finds_example = open_ini_finds 0 file refl file-IsText refl

value_fits_or_overflows_example :
    ((3 < 4)
      × ((s : List ℕ) × (copy_string (1 ∷ 2 ∷ 3 ∷ []) 3 (0 ∷ 0 ∷ 0 ∷ 0 ∷ []) ≡ ok s)
          × (text_at s ≡ 1 ∷ 2 ∷ [])
          × (length s ≡ 4)))
    ⊎ ((4 ≤ 3)
        × ((n : ℕ) → copy_string (1 ∷ 2 ∷ 3 ∷ []) n (0 ∷ 0 ∷ 0 ∷ 0 ∷ []) ≡ fault past_result))
value_fits_or_overflows_example =
    value_fits_or_overflows (1 ∷ 2 ∷ 3 ∷ []) 3 (0 ∷ 0 ∷ 0 ∷ 0 ∷ []) refl (omega arith)
