-- ===== src/File/Ini/Lookup.antt =====
-- Reading a whole file: what a lookup in the reader finds.
use plain.Prelude.{
  ℕ, ◌≡◌, ◌∙◌, refl, sym, ap, ◌⊎◌, inl, inr, true, false, Option, none, some, List, [], ◌∷◌, ◌++◌,
  All, length, drop, leb, Bool-cases, arith,
}
use plain.File.Ini.{
  Result, ok, Ini, new_ini, is_blank, find_text, set_at, trimstring, parsesection, parsekey,
  add_bufferstring, add_section, insert_at, add_key, add_line, add_lines, open_ini, text_at,
  get_bufferstring, get,
}
use plain.File.Ini.Line.{IsText, trimmed, trimstring-ok, trimmed-IsText, split_at-IsText}
use plain.File.Ini.Values.{Option-cases, Ended, add_bufferstring-ok}
use plain.File.Ini.Reference.{
  Line, heading, entry, other, lookup, expect, expect-at, expect_in, IsIni, is_current, entry_of,
  line_of, lines_of, starts_well, add_section-expect, add_section-IsIni,
}
use plain.File.Ini.Saying.{said, lines_of-said, lookup_said, lookup-said}
use plain.File.Ini.Entries.{with_value, add_key-expect, with_value-IsIni}
use mathlib.Core.Path.{subst}
use mathlib.Core.Bool.{false≢true}
use mathlib.Core.Option.{none-ne-some}

read_at :
    (f : Ini) (position : ℕ)
    → Ended f.buffer position
    → get_bufferstring position f ≡ some (text_at (drop position f.buffer))
unfolding get_bufferstring
read_at f position t =
    let inside : leb (length f.buffer) position ≡ false = ground (arith, t) in rw inside refl

get-expect :
    (f : Ini) → IsIni f → (section key : List ℕ) → get section key f ≡ expect f section key []
unfolding get lookup entry_of
get-expect f v section key = elim (Option-cases (find_text section f.sectiondata)) [
  | inl nowhere ↦ rw (get, nowhere) refl
  | inr (p, there) ↦
      let ends = expect-at f section key [] (some p) there in
      rw ends (
        rw (get, there)
          (elim (Option-cases (find_text key (set_at f.valuesets p))) [
            | inl missing ↦ rw missing (elim (Bool-cases (is_current f.current_section p)) [
              | inl now ↦ rw now refl
              | inr passed ↦ rw passed refl
            ])
            | inr (pos, present) ↦ rw present (read_at f pos (v.ended p key pos present))
          ]))
]

-- A reader that can take the lines: it has a current section, or the lines begin with one.
abbrev Ready : Ini → List Line → Type 0
Ready f lines = ((p : ℕ) × (f.current_section ≡ some p)) ⊎ (starts_well lines ≡ true)

-- After a line, the reader is as it was for the others.
abbrev Reads : Ini → Line → List Line → Result Ini → Type 0
Reads f line rest r =
    (g : Ini) × (r ≡ ok g)
    × IsIni g
    × Ready g rest
    × ((section key : List ℕ) → expect g section key rest ≡ expect f section key (line ∷ rest))

add_key-ok :
    (f : Ini) (name text : List ℕ) (p : ℕ)
    → f.current_section ≡ some p
    → (r : Ini × ℕ) → add_bufferstring text f ≡ ok r
    → add_key name text f ≡ ok (insert_at p name r.1 r.0)
unfolding add_key
add_key-ok f name text p e r b = rw (add_key, e, b) refl

add_key-Reads :
    (f : Ini) (name text : List ℕ) (rest : List Line)
    → IsIni f
    → IsText text
    → Ready f (entry name text ∷ rest)
    → Reads f (entry name text) rest (add_key name text f)
unfolding add_key
add_key-Reads f name text rest v t (inr h) = absurd (false≢true h)
add_key-Reads f name text rest v t (inl (p, e)) =
    let (c, eq, large, fits) = add_bufferstring-ok text f t.short v.large v.fits in
    (
      with_value f v name text p c e t.whole large fits,
      add_key-ok f name text p e
          (record f { capacity = c; buffer = f.buffer ++ (text ++ 0 ∷ []) }, length f.buffer) eq,
      with_value-IsIni f v name text p c e t.whole large fits,
      inl (p, e),
      λ section key. add_key-expect f v name text p c e t.whole large fits section key rest,
    )

other-expect :
    (f : Ini) (section key : List ℕ) (rest : List Line) (o : Option ℕ)
    → expect_in o f section key rest ≡ expect_in o f section key (other ∷ rest)
unfolding lookup entry_of
other-expect f section key rest none = refl
other-expect f section key rest (some p) = refl

Reads-of :
    (f : Ini) (line : List ℕ) (rest : List Line) (l : Line) (r : Result Ini)
    → line_of line ≡ l
    → add_line line f ≡ r
    → Reads f l rest r
    → Reads f (line_of line) rest (add_line line f)
Reads-of f line rest l r e a (g, eq, v, ready, same) = (
  g,
  a ∙ eq,
  v,
  ready,
  λ section key. same section key ∙ ap (λ t. expect f section key (t ∷ rest)) (sym e),
)

pub add_lines-next :
    (before : ℕ) (line : List ℕ) (lines : List (List ℕ)) (f g : Ini)
    → trimstring before line ≡ ok (trimmed line)
    → add_line (trimmed line) f ≡ ok g
    → add_lines before (line ∷ lines) f ≡ add_lines before lines g
unfolding add_lines
add_lines-next before line lines f g t a = rw (add_lines, t, a) refl

add_line-Reads :
    (f : Ini) (line : List ℕ) (rest : List Line)
    → IsIni f
    → IsText line
    → Ready f (line_of line ∷ rest)
    → Reads f (line_of line) rest (add_line line f)
unfolding add_line add_section parsekey
add_line-Reads f line rest v t ready = elim (Option-cases (parsesection line)) [
  | inr (name, e) ↦
      Reads-of f line rest (heading name) (ok (add_section name f)) (rw (line_of, e) refl)
        (rw (add_line, e) refl)
        (
          add_section name f,
          refl,
          add_section-IsIni f v name,
          inl (length f.valuesets, refl),
          λ section key. add_section-expect f v name section key rest,
        )
  | inl e ↦ elim (Option-cases (parsekey line)) [
    | inr (r, k) ↦
        let says : line_of line ≡ entry r.0 r.1 = rw (line_of, e, k) refl in
        Reads-of f line rest (entry r.0 r.1) (add_key r.0 r.1 f) says (rw (add_line, e, k) refl) (
          add_key-Reads f r.0 r.1 rest v (split_at-IsText b'=' line r k t)
            (subst (λ l. Ready f (l ∷ rest)) says ready))
    | inl k ↦
        let says : line_of line ≡ other = rw (line_of, e, k) refl in
        Reads-of f line rest other (ok f) says (rw (add_line, e, k) refl) (
          f,
          refl,
          v,
          still f rest (subst (λ l. Ready f (l ∷ rest)) says ready),
          λ section key. other-expect f section key rest (find_text section f.sectiondata),
        )
  ]
]
  where
    still : (f : Ini) (rest : List Line) → Ready f (other ∷ rest) → Ready f rest
    still f rest (inl c) = inl c
    still f rest (inr h) = inr h

add_lines-lookup :
    (before : ℕ) (lines : List (List ℕ)) (f : Ini)
    → is_blank before ≡ false
    → All IsText lines
    → IsIni f
    → Ready f (lines_of lines)
    → (g : Ini) × (add_lines before lines f ≡ ok g)
      × ((section key : List ℕ) → get section key g ≡ expect f section key (lines_of lines))
unfolding add_lines
add_lines-lookup before [] f dark all v ready = (f, refl, get-expect f v)
add_lines-lookup before (line ∷ lines) f dark all v ready =
    let (g, eq, v', ready', same) =
      add_line-Reads f (trimmed line) (lines_of lines) v (trimmed-IsText line all.0) ready in
    let (h, eqs, finds) = add_lines-lookup before lines g dark all.1 v' ready' in
    (
      h,
      add_lines-next before line lines f g (trimstring-ok before line dark) eq ∙ eqs,
      λ section key. finds section key ∙ same section key,
    )

new_ini-IsIni : IsIni new_ini
unfolding new_ini
new_ini-IsIni = record {
  large = omega arith;
  fits = omega arith;
  named = λ s p h. absurd (none-ne-some p h);
  placed = λ p h. absurd (none-ne-some p h);
  ended = λ p k pos h. absurd (none-ne-some pos h);
}

-- A file of lines of less than 512 bytes in which no key stands before the first section is read,
-- if no blank stands in front of the line's buffer, and what is then found under a section and a key
-- is what the bytes of the lines say: the value of the first line with that key in the first section
-- of that name, or nothing. A line says what stands before its semicolon, without the line end and
-- without blanks at the end: the name in brackets of a section, or a key and a value around the first
-- equals sign. What stands in a later section of the same name is not found.
pub open_ini_finds :
    (before : ℕ) (lines : List (List ℕ))
    → is_blank before ≡ false
    → All IsText lines
    → starts_well (said lines) ≡ true
    → (f : Ini) × (open_ini before lines ≡ ok f)
      × ((section key : List ℕ) → get section key f ≡ lookup_said section key (said lines))
unfolding open_ini new_ini
open_ini_finds before lines dark all well =
    let (f, eq, finds) =
      add_lines-lookup before lines new_ini dark all new_ini-IsIni
        (inr (ap starts_well (lines_of-said lines) ∙ well)) in
    (
      f,
      eq,
      λ section key.
          finds section key
          ∙ ap (lookup section key) (lines_of-said lines)
          ∙ lookup-said section key (said lines),
    )
