-- ===== src/Utility.antt =====
-- The functions on strings of framework/core/src/basic/utility.cc. A char is a byte, a number below
-- 256, and a string is the list of its bytes.
pub mod Escape
pub mod Hex
pub mod Explode
pub mod Number
mod Tests
use plain.Prelude.{
  ℕ, zero, suc, ◌+◌, ◌-◌, ◌*◌, ◌/◌, ◌%◌, ◌^◌, bit_and, bit_or, Bool, true, false, not, ◌&&◌, ◌||◌,
  Option, none, some, List, [], ◌∷◌, ◌++◌, length, take, drop, ltb, ◌==◌, if◌then◌else◌,
}

-- The loop over the characters of a string, from the value `crc32`.
unfoldable pub crc_loop : ℕ → List ℕ → ℕ
crc_loop crc32 [] = crc32
crc_loop crc32 (c ∷ str) = crc_loop ((crc32 * 33 + c) % 2 ^ 32) str

unfoldable pub crc : List ℕ → ℕ
crc str = if length str == 0 then 0 else crc_loop 0xffffffff str

-- The character behind the backslash, for one that has to be escaped.
unfoldable pub get_escapechar : ℕ → Option ℕ
get_escapechar c =
    if c == 0
    then some 48
    else if c == 10
    then some 110
    else if c == 13
    then some 114
    else if c == 0x1a
    then some 90
    else if c == 34
    then some 34
    else if c == 39
    then some 39
    else if c == 92
    then some 92
    else none

-- What one round of `getescape` puts out.
unfoldable pub escaped : ℕ → List ℕ
unfolding get_escapechar
escaped c = elim (get_escapechar c) [ none ↦ c ∷ [] | some e ↦ 92 ∷ e ∷ [] ]

-- The rounds of `getescape` from an index on: all that they put out.
unfoldable pub getescape_loop : ℕ → ℕ → List ℕ → List ℕ
getescape_loop index2 outsize [] = []
getescape_loop index2 outsize (c ∷ input) =
    let later = getescape_loop (index2 + length (escaped c)) outsize input in
    if ltb index2 outsize then escaped c ++ later else []

unfoldable pub getescape : List ℕ → ℕ → List ℕ
getescape input outsize = getescape_loop 0 outsize input

-- The result for a character that is negative or too large is `?`, and so is that for 0.
unfoldable pub value_toascii : ℕ → ℕ
value_toascii c = if ltb 0 c && ltb c 16 then if ltb c 10 then 48 + c else 55 + c else 63

-- `none` where the assertion fails, in a build that keeps assertions.
unfoldable pub ascii_tovalue : ℕ → Option ℕ
ascii_tovalue c =
    if ltb 47 c && ltb c 58
    then some (c - 48)
    else if ltb 64 c && ltb c 71
    then some (c - 55)
    else none

unfoldable pub to_hex_loop : List ℕ → List ℕ
to_hex_loop [] = []
to_hex_loop (c ∷ input) =
    value_toascii (bit_and c 0xf0 / 2 ^ 4) ∷ value_toascii (bit_and c 0xf0) ∷ to_hex_loop input

-- The result and what is put out.
unfoldable pub binary_tostring : List ℕ → Bool × List ℕ
binary_tostring input = if length input == 0 then (false, []) else (true, to_hex_loop input)

-- The byte of two digits.
unfoldable pub digits_value : ℕ → ℕ → Option ℕ
digits_value a b = elim (ascii_tovalue a) [
  | none ↦ none
  | some x ↦ elim (ascii_tovalue b) [ none ↦ none | some y ↦ some ((x * 2 ^ 4 + y) % 256) ]
]

abbrev pub cons_option : Option ℕ → Option (List ℕ) → Option (List ℕ)
cons_option none rest = none
cons_option (some b) none = none
cons_option (some b) (some rest) = some (b ∷ rest)

-- The rounds from an output index on. Each takes three characters: `i += 2`, and `++i` of the loop.
-- Behind the last character stands the 0 that ends the string.
unfoldable pub from_hex_loop : ℕ → ℕ → List ℕ → Option (List ℕ)
from_hex_loop out_index out_limit [] = some []
from_hex_loop out_index out_limit (a ∷ []) = some []
from_hex_loop out_index out_limit (a ∷ b ∷ []) =
    if (a == 0) || (b == 0) then some [] else cons_option (digits_value a b) (some [])
from_hex_loop out_index out_limit (a ∷ b ∷ c ∷ input) =
    let later = from_hex_loop (out_index + 1) out_limit input in
    if (a == 0) || (b == 0)
    then some []
    else cons_option (digits_value a b) (if ltb out_limit (out_index + 1) then some [] else later)

-- `none` where an assertion fails; else the result and what is put out.
unfoldable pub string_tobinary : List ℕ → ℕ → Option (Bool × List ℕ)
string_tobinary input out_limit = elim (from_hex_loop 0 out_limit input) [
  | none ↦ if length input == 0 then some (false, []) else none
  | some out ↦ if length input == 0 then some (false, []) else some (true, out)
]

-- `touint64(uint32_t high, uint32_t low)`
unfoldable pub touint64 : ℕ → ℕ → ℕ
touint64 high low = bit_or (high * 2 ^ 32 % 2 ^ 64) low

unfoldable pub get_highsection : ℕ → ℕ
get_highsection value = bit_and (value / 2 ^ 32) 0xffffffff

unfoldable pub get_lowsection : ℕ → ℕ
get_lowsection value = bit_and value 0xffffffff

-- `str.erase(0, str.find_first_not_of(c))`
unfoldable pub trim_first : ℕ → List ℕ → List ℕ
trim_first c [] = []
trim_first c (x ∷ str) = let later = trim_first c str in if x == c then later else x ∷ str

-- `str.erase(str.find_last_not_of(c) + 1)`
unfoldable pub trim_last : ℕ → List ℕ → List ℕ
trim_last c [] = []
trim_last c (x ∷ str) =
    let rest = trim_last c str in if (x == c) && (length rest == 0) then [] else x ∷ rest

-- The loops over the characters of the mask.
unfoldable pub ltrim : List ℕ → List ℕ → List ℕ
ltrim [] str = str
ltrim (c ∷ mask) str = ltrim mask (trim_first c str)

unfoldable pub rtrim : List ℕ → List ℕ → List ℕ
rtrim [] str = str
rtrim (c ∷ mask) str = rtrim mask (trim_last c str)

unfoldable pub trim : List ℕ → List ℕ → List ℕ
trim [] str = str
trim (c ∷ mask) str = trim mask (trim_last c (trim_first c str))

unfoldable pub is_prefix : List ℕ → List ℕ → Bool
is_prefix [] str = true
is_prefix (c ∷ needle) [] = false
is_prefix (c ∷ needle) (x ∷ str) = (c == x) && is_prefix needle str

-- `str.find(needle)`
unfoldable pub find : List ℕ → List ℕ → Option ℕ
find needle [] = if is_prefix needle [] then some 0 else none
find needle (x ∷ str) =
    let later = elim (find needle str) as (λ _. Option ℕ) [ none ↦ none | some i ↦ some (suc i) ] in
    if is_prefix needle (x ∷ str) then some 0 else later

unfoldable pub contains : List ℕ → List (List ℕ) → Bool
contains haystack [] = false
contains haystack (needle ∷ needles) =
    (not (length needle == 0)
      && (elim (find needle haystack) as (λ _. Bool) [ none ↦ false | some i ↦ true ]))
    || contains haystack needles

-- The loop of `str_replace` on what stands behind the last replacement, for at most `rounds`
-- replacements. Each round moves behind the text that it puts in.
unfoldable pub replace_loop : ℕ → List ℕ → List ℕ → List ℕ → List ℕ
replace_loop zero search replace rest = rest
replace_loop (suc rounds) search replace rest = elim (find search rest) [
  | none ↦ rest
  | some i ↦
      take i rest ++ (replace ++ replace_loop rounds search replace (drop (i + length search) rest))
]

-- The count is `none` for -1. There are at most as many places as bytes for a search that is not
-- empty. With an empty one and the count -1 the source does not return: the result is `none`.
unfoldable pub str_replace : List ℕ → List ℕ → List ℕ → Option ℕ → Option (List ℕ)
str_replace search replace subject none =
    if length search == 0 then none else some (replace_loop (length subject) search replace subject)
str_replace search replace subject (some count) = some (replace_loop count search replace subject)

-- One `str_replace` for each of the searched strings.
unfoldable pub str_replaces : List (List ℕ) → List ℕ → List ℕ → Option ℕ → Option (List ℕ)
str_replaces [] replace subject count = some subject
str_replaces (item ∷ search) replace subject count =
    elim (str_replace item replace subject count) as (λ _. Option (List ℕ)) [
      | none ↦ none
      | some r ↦ str_replaces search replace r count
    ]

-- Whether a character is in a key.
unfoldable pub is_among : ℕ → List ℕ → Bool
is_among x [] = false
is_among x (k ∷ key) = (x == k) || is_among x key

-- `str.find_first_of(key)`
unfoldable pub find_first_of : List ℕ → List ℕ → Option ℕ
find_first_of key [] = none
find_first_of key (x ∷ str) =
    let later = elim (find_first_of key str) as (λ _. Option ℕ) [
      | none ↦ none
      | some i ↦ some (suc i)
    ] in
    if is_among x key then some 0 else later

-- The rounds of `explode` on what stands from `left` on.
unfoldable pub explode_loop : ℕ → Bool → Bool → List ℕ → List ℕ → List (List ℕ)
explode_loop zero one_key ignore_empty key rest = []
explode_loop (suc rounds) one_key ignore_empty key rest =
    let found = if one_key then find_first_of key rest else find key rest in
    let right = elim found as (λ _. ℕ) [ none ↦ length rest | some i ↦ i ] in
    let width = if one_key then 1 else length key in
    let later = explode_loop rounds one_key ignore_empty key (drop (right + width) rest) in
    let items = if right == length rest then [] else later in
    if ltb 0 (length (take right rest)) || not ignore_empty then take right rest ∷ items else items

-- The items, whose number is the result. Each round but the last goes on by a byte at least, so
-- one round more than the bytes is enough; for an empty key that is to be found as a whole the
-- source does not return, and the result is `none`.
unfoldable pub explode : List ℕ → List ℕ → Bool → Bool → Option (List (List ℕ))
explode str key one_key ignore_empty =
    if length str == 0
    then some []
    else if not one_key && (length key == 0)
    then none
    else some (explode_loop (length str + 1) one_key ignore_empty key str)
