-- ===== src/File/Ini/Errors.antt =====
-- Where reading a file, or giving a string to a caller, goes out of bounds.
use plain.Prelude.{
  if◌then◌else◌, ◌==◌, take, take_all, length-set, length-append, length-drop, zero, suc, ℕ, ◌+◌,
  ◌-◌, ◌≤◌, ◌<◌, ◌≡◌, ◌∙◌, refl, sym, ap, ◌⊎◌, inl, inr, false, none, List, [], ◌∷◌, ◌++◌, length,
  drop, set, ltb, Bool-cases, arith,
}
use plain.Prelude.Sets.{has, has-nowhere}
use plain.File.Ini.{
  ok, fault, no_section, past_result, Ini, new_ini, is_blank, trimstring, parsesection, parsekey,
  add_key, add_line, add_lines, open_ini, text_at, copy_string,
}
use plain.File.Ini.Line.{trimmed, trimstring-ok}
use plain.File.Ini.Values.{Option-cases}
use plain.File.Ini.Reference.{heading, other, line_of, lines_of, starts_well}
use plain.File.Ini.Lookup.{add_lines-next}
use mathlib.Core.Bool.{false≢true}

add_key-none :
    (f : Ini) (key value : List ℕ)
    → f.current_section ≡ none
    → add_key key value f ≡ fault no_section
unfolding add_key
add_key-none f key value e = rw (add_key, e) refl

add_lines-fault :
    (before : ℕ) (line : List ℕ) (lines : List (List ℕ)) (f : Ini)
    → trimstring before line ≡ ok (trimmed line)
    → add_line (trimmed line) f ≡ fault no_section
    → add_lines before (line ∷ lines) f ≡ fault no_section
unfolding add_lines
add_lines-fault before line lines f t a = rw (add_lines, t, a) refl

add_lines_early :
    (before : ℕ) (lines : List (List ℕ)) (f : Ini)
    → is_blank before ≡ false
    → f.current_section ≡ none
    → starts_well (lines_of lines) ≡ false
    → add_lines before lines f ≡ fault no_section
unfolding add_line
add_lines_early before [] f dark e h = absurd (false≢true (sym h))
add_lines_early before (line ∷ lines) f dark e h =
    let t = trimstring-ok before line dark in
    elim (Option-cases (parsesection (trimmed line))) [
      | inr (name, s) ↦
          let says : line_of (trimmed line) ≡ heading name = rw (line_of, s) refl in
          absurd (false≢true (sym h ∙ ap (λ l. starts_well (l ∷ lines_of lines)) says))
      | inl s ↦ elim (Option-cases (parsekey (trimmed line))) [
        | inr (r, k) ↦
            add_lines-fault before line lines f t (rw (add_line, s, k) (add_key-none f r.0 r.1 e))
        | inl k ↦
            let says : line_of (trimmed line) ≡ other = rw (line_of, s, k) refl in
            add_lines-next before line lines f f t (rw (add_line, s, k) refl)
            ∙ add_lines_early before lines f dark e
                (sym (ap (λ l. starts_well (l ∷ lines_of lines)) says) ∙ h)
      ]
    ]

-- A file in which a key stands before the first section is not read: the key is put into a section
-- that is not there. No blank stands in front of the line's buffer.
pub early_key_faults :
    (before : ℕ) (lines : List (List ℕ))
    → is_blank before ≡ false
    → starts_well (lines_of lines) ≡ false
    → open_ini before lines ≡ fault no_section
unfolding open_ini new_ini
early_key_faults before lines dark h = add_lines_early before lines new_ini dark refl h

-- A text that is ended earlier.
text_at-set :
    (value ys : List ℕ) (k : ℕ)
    → has 0 value ≡ false
    → k ≤ length value
    → text_at (set (value ++ 0 ∷ ys) k 0) ≡ take k value
text_at-set [] ys zero whole h = refl
text_at-set [] ys (suc k) whole h = absurd (omega (arith, h))
text_at-set (x ∷ v) ys zero whole h = refl
text_at-set (x ∷ v) ys (suc k) whole h =
    let (differs, later) = has-nowhere 0 x v whole in
    let some_byte : (x == 0) ≡ false = ground (arith, differs) in
    rw some_byte (ap (λ t. x ∷ t) (text_at-set v ys k later (omega arith)))

-- A value that is shorter than the caller's array is put into it, cut to one byte less than the size
-- that the caller gave, which is not 0; any other is written behind the end of the array, whatever
-- that size is.
pub value_fits_or_overflows :
    (value : List ℕ) (size : ℕ) (str : List ℕ)
    → has 0 value ≡ false
    → 1 ≤ size
    → ((length value < length str)
        × ((s : List ℕ) × (copy_string value size str ≡ ok s)
            × (text_at s ≡ take (size - 1) value)
            × (length s ≡ length str)))
      ⊎ ((length str ≤ length value) × ((n : ℕ) → copy_string value n str ≡ fault past_result))
unfolding copy_string
value_fits_or_overflows value size str whole given =
    elim (Bool-cases (ltb (length str) (length value + 1))) [
      | inl short ↦ inr (ground (arith, short), λ n. rw short refl)
      | inr long ↦
          let tail = drop (length value + 1) str in
          let end = if ltb (size - 1) (length value) then size - 1 else length value in
          let counted : (size == 0) ≡ false = ground arith in
          let within : end ≤ length value = ground arith in
          inl (
            ground (arith, long),
            (
              set (value ++ 0 ∷ tail) end 0,
              rw (long, counted) refl,
              text_at-set value tail end whole within
                  ∙ elim (Bool-cases (ltb (size - 1) (length value))) [
                    | inl cut ↦ rw cut refl
                    | inr fits ↦ rw fits (
                        take_all (length value) value (omega arith)
                        ∙ sym (take_all (size - 1) value (ground (arith, fits))))
                  ],
              length-set (value ++ 0 ∷ tail) end 0
                  ∙ length-append value (0 ∷ tail)
                  ∙ ground (arith, long, length-drop (length value + 1) str),
            ),
          )
    ]
