-- ===== src/File/Ini/Saying.antt =====
-- What the bytes of a file's lines say, apart from how the reader goes through them.
use plain.Prelude.{
  ℕ, suc, ◌≡◌, ◌∙◌, refl, sym, ap, ap₂, Bool, true, false, ◌&&◌, ◌||◌, none, Option, some, List, [],
  ◌∷◌, length, get_or, take, drop, ◌==◌, if◌then◌else◌, Bool-cases, inl, inr, arith,
}
use plain.Prelude.Sets.{has}
use plain.File.Ini.{split_at, cut_line_end, cut_note, cut_blanks, parsesection, parsekey, same_text}
use plain.File.Ini.Line.{trim_blanks, trimmed}
use plain.File.Ini.Values.{same_text-eq, same_text_self, text_discrete}
use plain.File.Ini.Reference.{Line, heading, entry, other, lookup, entry_of, line_of, lines_of}

-- The bytes in front of the first `c`, or all, and those behind it.
abbrev up_to : ℕ → List ℕ → List ℕ
up_to c [] = []
up_to c (x ∷ xs) = if c == x then [] else x ∷ up_to c xs

abbrev behind : ℕ → List ℕ → List ℕ
behind c xs = drop (suc (length (up_to c xs))) xs

-- A line without its last byte, if that is CR or LF.
abbrev chomp : List ℕ → List ℕ
chomp [] = []
chomp (x ∷ xs) =
    let last = get_or (x ∷ xs) (length xs) 0 in
    if last == b'\r' || last == b'\n' then take (length xs) (x ∷ xs) else x ∷ xs

-- Spaces and tabs, and a string without those at its end.
abbrev all_blank : List ℕ → Bool
all_blank [] = true
all_blank (x ∷ xs) = (x == b' ' || x == b'\t') && all_blank xs

abbrev strip : List ℕ → List ℕ
strip [] = []
strip (x ∷ xs) = if all_blank (x ∷ xs) then [] else x ∷ strip xs

-- The first byte stays even if it is blank.
abbrev strip_tail : List ℕ → List ℕ
strip_tail [] = []
strip_tail (x ∷ xs) = x ∷ strip xs

-- The text of a line: what stands in front of a semicolon.
abbrev text_of : List ℕ → List ℕ
text_of line = strip_tail (up_to b';' (chomp line))

-- A text with brackets is the name between them, one with an equals sign a key and its value.
abbrev says : List ℕ → Line
says text =
    if get_or text 0 0 == b'[' && has b']' text
    then heading (up_to b']' (drop 1 text))
    else if has b'=' text
    then entry (up_to b'=' text) (behind b'=' text)
    else other

abbrev pub said : List (List ℕ) → List Line
said [] = []
said (line ∷ lines) = says (text_of line) ∷ said lines

cut_line_end-chomp : (x : ℕ) (xs : List ℕ) → cut_line_end x xs ≡ chomp (x ∷ xs)
cut_line_end-chomp x [] = refl
cut_line_end-chomp x (y ∷ ys) =
    let last = get_or (y ∷ ys) (length ys) 0 in
    ap (λ t. x ∷ t) (cut_line_end-chomp y ys) ∙ elim (Bool-cases (last == b'\r' || last == b'\n')) [
      | inl ends ↦ rw ends refl
      | inr on ↦ rw on refl
    ]

cut_note-up_to : (xs : List ℕ) → cut_note xs ≡ up_to b';' xs
cut_note-up_to [] = refl
cut_note-up_to (x ∷ xs) = ground (arith, cut_note-up_to xs)

strip_blank : (xs : List ℕ) → all_blank xs ≡ true → strip xs ≡ []
strip_blank [] h = refl
strip_blank (x ∷ xs) h = rw h refl

cut_blanks-strip : (xs : List ℕ) → cut_blanks xs ≡ strip xs
cut_blanks-strip [] = refl
cut_blanks-strip (x ∷ xs) = elim (Bool-cases (all_blank xs)) [
  | inl blank ↦
      let gone : cut_blanks xs ≡ [] = cut_blanks-strip xs ∙ strip_blank xs blank in
      rw gone (rw (strip_blank xs blank, blank) (ground arith))
  | inr dark ↦ on xs dark (cut_blanks-strip xs)
]
  where
    on :
        (xs : List ℕ)
        → all_blank xs ≡ false
        → cut_blanks xs ≡ strip xs
        → cut_blanks (x ∷ xs) ≡ strip (x ∷ xs)
    on [] h e = ground (arith, h)
    on (y ∷ ys) h e =
        let kept : cut_blanks (y ∷ ys) ≡ y ∷ strip ys = e ∙ rw h refl in
        rw (cut_blanks, kept) (ground (arith, h))

trim_blanks-strip_tail : (xs : List ℕ) → trim_blanks xs ≡ strip_tail xs
trim_blanks-strip_tail [] = refl
trim_blanks-strip_tail (x ∷ xs) = ap (λ t. x ∷ t) (cut_blanks-strip xs)

trimmed-text_of : (line : List ℕ) → trimmed line ≡ text_of line
trimmed-text_of [] = refl
trimmed-text_of (x ∷ xs) =
    trim_blanks-strip_tail (cut_note (cut_line_end x xs))
    ∙ ap strip_tail (cut_note-up_to (cut_line_end x xs) ∙ ap (up_to b';') (cut_line_end-chomp x xs))

split_at-up_to :
    (c : ℕ) (xs : List ℕ) → has c xs ≡ true → split_at c xs ≡ some (up_to c xs, behind c xs)
split_at-up_to c [] h = ground (arith, h)
split_at-up_to c (x ∷ xs) h = elim (Bool-cases (c == x)) [
  | inl here ↦ let turned : (x == c) ≡ true = ground arith in rw (here, turned) refl
  | inr later ↦
      let turned : (x == c) ≡ false = ground arith in
      let rest = split_at-up_to c xs (ground (arith, h, later)) in rw (later, turned, rest) refl
]

split_at-none : (c : ℕ) (xs : List ℕ) → has c xs ≡ false → split_at c xs ≡ none
split_at-none c [] h = refl
split_at-none c (x ∷ xs) h =
    let turned : (x == c) ≡ false = ground (arith, h) in
    let rest = split_at-none c xs (ground (arith, h)) in rw (turned, rest) refl

key-says :
    (line : List ℕ)
    → parsesection line ≡ none
    → (get_or line 0 0 == b'[' && has b']' line) ≡ false
    → line_of line ≡ says line
unfolding parsekey
key-says line s h = elim (Bool-cases (has b'=' line)) [
  | inl keyed ↦
      let e : parsekey line ≡ some (up_to b'=' line, behind b'=' line) =
        split_at-up_to b'=' line keyed in
      rw (line_of, s, e) (rw (h, keyed) refl)
  | inr plain_text ↦
      let e : parsekey line ≡ none = split_at-none b'=' line plain_text in
      rw (line_of, s, e) (rw (h, plain_text) refl)
]

line_of-says : (line : List ℕ) → line_of line ≡ says line
unfolding parsesection
line_of-says [] = key-says [] refl refl
line_of-says (x ∷ xs) = elim (Bool-cases (x == b'[')) [
  | inr bare ↦
      let s : parsesection (x ∷ xs) ≡ none = rw (parsesection, bare) refl in
      key-says (x ∷ xs) s (rw bare refl)
  | inl opened ↦
      let kept : has b']' (x ∷ xs) ≡ has b']' xs = ground arith in
      elim (Bool-cases (has b']' xs)) [
        | inl closed ↦
            let e = split_at-up_to b']' xs closed in
            let s : parsesection (x ∷ xs) ≡ some (up_to b']' xs) =
              rw (parsesection, opened, e) refl in
            rw (line_of, s) (rw (opened, kept, closed) refl)
        | inr never ↦
            let e = split_at-none b']' xs never in
            let s : parsesection (x ∷ xs) ≡ none = rw (parsesection, opened, e) refl in
            key-says (x ∷ xs) s (rw (opened, kept, never) refl)
      ]
]

-- The reader takes lines for what they say.
pub lines_of-said : (lines : List (List ℕ)) → lines_of lines ≡ said lines
lines_of-said [] = refl
lines_of-said (line ∷ lines) =
    ap₂ ◌∷◌ (ap line_of (trimmed-text_of line) ∙ line_of-says (text_of line)) (lines_of-said lines)

-- Whether two strings are equal.
abbrev is_equal : List ℕ → List ℕ → Bool
is_equal xs ys = elim (text_discrete xs ys) [ yes e ↦ true | no d ↦ false ]

-- The value of the first entry of a key before the next heading, and in the first section of a name.
abbrev pub entry_said : List ℕ → List Line → Option (List ℕ)
entry_said key [] = none
entry_said key (heading name ∷ lines) = none
entry_said key (entry k value ∷ lines) =
    let later = entry_said key lines in if is_equal key k then some value else later
entry_said key (other ∷ lines) = entry_said key lines

abbrev pub lookup_said : List ℕ → List ℕ → List Line → Option (List ℕ)
lookup_said section key [] = none
lookup_said section key (heading name ∷ lines) =
    let later = lookup_said section key lines in
    if is_equal section name then entry_said key lines else later
lookup_said section key (entry k value ∷ lines) = lookup_said section key lines
lookup_said section key (other ∷ lines) = lookup_said section key lines

same_text-is_equal : (xs ys : List ℕ) → same_text xs ys ≡ is_equal xs ys
same_text-is_equal xs ys = cases (text_discrete xs ys)
  where
    cases :
        (d : Dec (xs ≡ ys))
        → same_text xs ys ≡ elim d as (λ _. Bool) [ yes e ↦ true | no n ↦ false ]
    cases (yes e) = ap (same_text xs) (sym e) ∙ same_text_self xs
    cases (no n) = elim (Bool-cases (same_text xs ys)) [
      | inl same ↦ absurd (n (same_text-eq xs ys same))
      | inr differs ↦ differs
    ]

entry_of-said : (key : List ℕ) (lines : List Line) → entry_of key lines ≡ entry_said key lines
unfolding entry_of
entry_of-said key [] = refl
entry_of-said key (heading name ∷ lines) = refl
entry_of-said key (entry k value ∷ lines) =
    ap₂ (λ b t. if b then some value else t) (same_text-is_equal key k) (entry_of-said key lines)
entry_of-said key (other ∷ lines) = entry_of-said key lines

pub lookup-said :
    (section key : List ℕ) (lines : List Line)
    → lookup section key lines ≡ lookup_said section key lines
unfolding lookup
lookup-said section key [] = refl
lookup-said section key (heading name ∷ lines) =
    ap₂ (λ b t. if b then entry_of key lines else t) (same_text-is_equal section name)
      (lookup-said section key lines)
    ∙ ap (λ t. if is_equal section name then t else lookup_said section key lines)
        (entry_of-said key lines)
lookup-said section key (entry k value ∷ lines) = lookup-said section key lines
lookup-said section key (other ∷ lines) = lookup-said section key lines
