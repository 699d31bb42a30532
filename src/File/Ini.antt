-- ===== src/File/Ini.antt =====
-- The reader of ini files, framework/core/src/file/ini.cc and include/plain/file/ini.h. A string is
-- the list of its bytes before the NUL. The file is the list of the lines that `getline` gives, and
-- `before` the byte that happens to stand in front of the buffer of a line. The values stand in one
-- buffer, one behind the other, each with its NUL; `capacity` is what was allocated of it.
pub mod Line
pub mod Values
pub mod Reference
pub mod Saying
pub mod Entries
pub mod Lookup
pub mod Errors
mod Tests
use plain.Prelude.{
  ℕ, zero, suc, ◌+◌, ◌-◌, ◌*◌, ◌^◌, Bool, true, false, not, ◌&&◌, ◌||◌, Option, none, some, List,
  [], ◌∷◌, ◌++◌, length, get_elem?, set, take, drop, ltb, leb, ◌==◌, if◌then◌else◌,
}

-- A read or write in front of the buffer of a line, a key without a section, a write behind the
-- buffer of the values or that of the caller.
pub data Fault : Type 0 where
  before_buffer no_section past_buffer past_result : Fault

pub data Result {ℓ} (A : Type ℓ) : Type ℓ where
  ok : A → Result A
  fault : Fault → Result A

-- A map to positions: the first entry of a key counts, as `insert` keeps what is there.
abbrev pub Valueset : Type 0
Valueset = List (List ℕ × ℕ)

-- `current_section` and what `sectiondata` has for a name are places in `valuesets`, the sets made
-- by `new`. `buffer` has `bufferlength_` bytes.
pub record Ini : Type 0 where
  pub sectiondata : List (List ℕ × ℕ)
  pub valuesets : List Valueset
  pub current_section : Option ℕ
  pub buffer : List ℕ
  pub capacity : ℕ

abbrev pub value_max : ℕ
value_max = 1024

-- The buffer is there before the first line.
unfoldable pub new_ini : Ini
new_ini = record {
  sectiondata = [];
  valuesets = [];
  current_section = none;
  buffer = [];
  capacity = value_max;
}

abbrev pub same_text : List ℕ → List ℕ → Bool
same_text [] [] = true
same_text [] (y ∷ ys) = false
same_text (x ∷ xs) [] = false
same_text (x ∷ xs) (y ∷ ys) = (x == y) && same_text xs ys

abbrev pub find_text : List ℕ → List (List ℕ × ℕ) → Option ℕ
find_text k [] = none
find_text k (e ∷ es) = if same_text k e.0 then some e.1 else find_text k es

abbrev pub insert_text : List ℕ → ℕ → List (List ℕ × ℕ) → List (List ℕ × ℕ)
insert_text k v es = elim (find_text k es) [ none ↦ es ++ (k, v) ∷ [] | some u ↦ es ]

-- `strchr`: what stands before the first `c` and behind it.
abbrev pub split_at : ℕ → List ℕ → Option (List ℕ × List ℕ)
split_at c [] = none
split_at c (x ∷ xs) =
    let rest = split_at c xs in
    if x == c then some ([], xs) else elim rest [ none ↦ none | some r ↦ some (x ∷ r.0, r.1) ]

abbrev pub is_blank : ℕ → Bool
is_blank c = c == b' ' || c == b'\t'

abbrev pub is_line_end : ℕ → Bool
is_line_end c = c == b'\r' || c == b'\n'

-- The string without one line end.
abbrev pub cut_line_end : ℕ → List ℕ → List ℕ
cut_line_end x [] = if is_line_end x then [] else x ∷ []
cut_line_end x (y ∷ ys) = x ∷ cut_line_end y ys

-- The string up to the note.
abbrev pub cut_note : List ℕ → List ℕ
cut_note [] = []
cut_note (x ∷ xs) = if x == b';' then [] else x ∷ cut_note xs

abbrev pub cut_blanks : List ℕ → List ℕ
cut_blanks [] = []
cut_blanks (x ∷ xs) = elim (cut_blanks xs) [
  | [] ↦ if is_blank x then [] else x ∷ []
  | y ∷ ys ↦ x ∷ y ∷ ys
]

-- The last loop of `_trimstring`, which leaves the first byte alone. Of an empty string it starts in
-- front of the buffer, and goes on there while it finds blanks.
abbrev pub trim_end : ℕ → List ℕ → Result (List ℕ)
trim_end before [] = if is_blank before then fault before_buffer else ok []
trim_end before (x ∷ xs) = ok (x ∷ cut_blanks xs)

unfoldable pub trimstring : ℕ → List ℕ → Result (List ℕ)
trimstring before [] = ok []
trimstring before (x ∷ xs) = trim_end before (cut_note (cut_line_end x xs))

unfoldable pub parsesection : List ℕ → Option (List ℕ)
parsesection [] = none
parsesection (x ∷ xs) =
    if x == b'[' then elim (split_at b']' xs) [ none ↦ none | some r ↦ some r.0 ] else none

unfoldable pub parsekey : List ℕ → Option (List ℕ × List ℕ)
parsekey line = split_at b'=' line

-- `_buffer_resize`
unfoldable pub buffer_resize : Ini → Ini
buffer_resize f = record f { capacity = f.capacity * 2 }

-- The position of the string in the buffer.
unfoldable pub add_bufferstring : List ℕ → Ini → Result (Ini × ℕ)
unfolding buffer_resize
add_bufferstring str f =
    let size = length str in
    let position = length f.buffer in
    let g = if leb f.capacity (position + (size + 1)) then buffer_resize f else f in
    if ltb g.capacity (position + (size + 1))
    then fault past_buffer
    else ok (record g { buffer = g.buffer ++ (str ++ 0 ∷ []) }, position)

-- A section that the file names again gets a new set, which the name does not lead to.
unfoldable pub add_section : List ℕ → Ini → Ini
add_section section f =
    let place = length f.valuesets in
    record f {
      valuesets = f.valuesets ++ [] ∷ [];
      current_section = some place;
      sectiondata = insert_text section place f.sectiondata;
    }

abbrev pub set_at : List Valueset → ℕ → Valueset
set_at sets place = elim (get_elem? sets place) [ none ↦ [] | some s ↦ s ]

abbrev pub insert_at : ℕ → List ℕ → ℕ → Ini → Ini
insert_at place key position f = record f {
  valuesets = set f.valuesets place (insert_text key position (set_at f.valuesets place));
}

unfoldable pub add_key : List ℕ → List ℕ → Ini → Result Ini
unfolding add_bufferstring
add_key key value f = elim f.current_section [
  | none ↦ fault no_section
  | some place ↦ elim (add_bufferstring value f) [
    | fault e ↦ fault e
    | ok r ↦ ok (insert_at place key r.1 r.0)
  ]
]

-- A turn of the loop of `open` behind `_trimstring`.
unfoldable pub add_line : List ℕ → Ini → Result Ini
unfolding add_section add_key parsesection parsekey
add_line line f = elim (parsesection line) [
  | some section ↦ ok (add_section section f)
  | none ↦ elim (parsekey line) [ none ↦ ok f | some e ↦ add_key e.0 e.1 f ]
]

unfoldable pub add_lines : ℕ → List (List ℕ) → Ini → Result Ini
unfolding trimstring add_line
add_lines before [] f = ok f
add_lines before (line ∷ lines) f = elim (trimstring before line) [
  | fault e ↦ fault e
  | ok trimmed ↦ elim (add_line trimmed f) [ fault e ↦ fault e | ok g ↦ add_lines before lines g ]
]

-- `open` of a file that is there, by a reader that is new or closed.
unfoldable pub open_ini : ℕ → List (List ℕ) → Result Ini
unfolding add_lines new_ini
open_ini before lines = add_lines before lines new_ini

-- The string at the front of a buffer.
abbrev pub text_at : List ℕ → List ℕ
text_at [] = []
text_at (x ∷ xs) = if x == 0 then [] else x ∷ text_at xs

unfoldable pub get_bufferstring : ℕ → Ini → Option (List ℕ)
get_bufferstring position f =
    if leb (length f.buffer) position then none else some (text_at (drop position f.buffer))

-- What `get` and the `_get` functions find: the string that they give to a variable, to `atoi`, to
-- `atof` or to `safecopy`.
unfoldable pub get : List ℕ → List ℕ → Ini → Option (List ℕ)
unfolding get_bufferstring
get section key f = elim (find_text section f.sectiondata) [
  | none ↦ none
  | some place ↦ elim (find_text key (set_at f.valuesets place)) [
    | none ↦ none
    | some position ↦ get_bufferstring position f
  ]
]

-- `getint32` with the C library's `atoi`, and `getint32_ifexist` as whether it is there.
unfoldable pub getint32 {ℓ} : {A : Type ℓ} → (List ℕ → A) → List ℕ → List ℕ → A → Ini → A × Bool
unfolding get
getint32 atoi section key default f = elim (get section key f) [
  | none ↦ (default, false)
  | some value ↦ (atoi value, true)
]

-- `_getstring` into the array `str`, whose size the caller gives as `size`: the whole string is
-- copied with its NUL, and then ended at `size - 1` if it is longer; a size of 0 is the largest.
unfoldable pub copy_string : List ℕ → ℕ → List ℕ → Result (List ℕ)
copy_string value size str =
    let copied = value ++ 0 ∷ drop (length value + 1) str in
    let limit = if size == 0 then 2 ^ 64 - 1 else size - 1 in
    let end = if ltb limit (length value) then limit else length value in
    if ltb (length str) (length value + 1) then fault past_result else ok (set copied end 0)

unfoldable pub getstring_ifexist : List ℕ → List ℕ → List ℕ → ℕ → Ini → Result (List ℕ × Bool)
unfolding get copy_string
getstring_ifexist section key str size f = elim (get section key f) [
  | none ↦ ok (str, false)
  | some value ↦ elim (copy_string value size str) [ fault e ↦ fault e | ok s ↦ ok (s, true) ]
]
