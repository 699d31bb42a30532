-- ===== src/Utility/Tests.antt =====
-- The functions on strings at concrete strings.
use plain.Prelude.{
  List, ℕ, ltb, if◌then◌else◌, ◌^◌, ◌≢◌, true, false, ◌≡◌, refl, none, some, [], ◌∷◌, arith,
}
use plain.Utility.Number.{
  encrypt_digits, decrypt_digits, encrypt_number, decrypt_number, encrypt, decrypt,
  decrypt-encrypt_never,
}
use plain.Utility.{
  explode, explode_loop, find_first_of, is_among, str_replace, replace_loop, find, is_prefix, trim,
  trim_first, trim_last,
}

replaced : str_replace (1 ∷ 2 ∷ []) (9 ∷ []) (0 ∷ 1 ∷ 2 ∷ 1 ∷ 2 ∷ []) none ≡ some (0 ∷ 9 ∷ 9 ∷ [])
unfolding str_replace replace_loop find is_prefix
replaced = refl

exploded : explode (1 ∷ 44 ∷ 44 ∷ 2 ∷ []) (44 ∷ []) false true ≡ some ((1 ∷ []) ∷ (2 ∷ []) ∷ [])
unfolding explode explode_loop find is_prefix
exploded = refl

exploded_any : explode (1 ∷ 44 ∷ 59 ∷ []) (59 ∷ 44 ∷ []) true false ≡ some ((1 ∷ []) ∷ [] ∷ [] ∷ [])
unfolding explode explode_loop find_first_of is_among
exploded_any = refl

trimmed_both : trim (32 ∷ []) (32 ∷ 32 ∷ 65 ∷ 32 ∷ 66 ∷ 32 ∷ []) ≡ 65 ∷ 32 ∷ 66 ∷ []
unfolding trim trim_first trim_last
trimmed_both = refl

-- `std::to_string(m).size()` of a number below 2 ^ 31.
abbrev decimal_digits : ℕ → ℕ
decimal_digits m =
    if ltb m 10
    then 1
    else if ltb m 100
    then 2
    else if ltb m 1000
    then 3
    else if ltb m 10000
    then 4
    else if ltb m 100000
    then 5
    else if ltb m 1000000
    then 6
    else if ltb m 10000000
    then 7
    else if ltb m 100000000
    then 8
    else if ltb m 1000000000
    then 9
    else 10

-- The number 5 in the string of the bytes 120 and 121.
abbrev taken_back : ℕ × List ℕ
taken_back = (2474, 120 ∷ 121 ∷ 102 ∷ 121 ∷ 102 ∷ 121 ∷ [])

taken_back_lem :
    decrypt (λ k. 10 ^ k) (encrypt (λ k. 10 ^ k) decimal_digits 97 1 (120 ∷ 121 ∷ []) 5)
    ≡ some taken_back
unfolding decrypt encrypt decrypt_number encrypt_number encrypt_digits decrypt_digits
taken_back_lem = refl

decrypt-encrypt_never_example : taken_back.1 ≢ 120 ∷ 121 ∷ []
decrypt-encrypt_never_example =
    decrypt-encrypt_never (λ k. 10 ^ k) decimal_digits 97 1 (120 ∷ 121 ∷ []) 5 taken_back
      (omega arith) (omega arith) (omega arith) taken_back_lem
