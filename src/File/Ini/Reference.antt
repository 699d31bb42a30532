-- ===== src/File/Ini/Reference.antt =====
-- What a lookup finds, said of the lines of the file.
use plain.Prelude.{
  ℕ, ◌≤◌, ◌<◌, ◌≡◌, ◌∙◌, refl, sym, ap, inl, inr, Bool, true, false, Option, none, some, List, [],
  ◌∷◌, length, length-append, drop, ◌==◌, if◌then◌else◌, Bool-cases, arith,
}
use plain.File.Ini.{Ini, same_text, find_text, set_at, text_at, add_section, parsesection, parsekey}
use plain.File.Ini.Line.{trimmed}
use plain.File.Ini.Values.{
  or_else, Option-cases, find_text-insert_text, set_at-append, set_at-last, Ended,
}
use mathlib.Core.Option.{none-ne-some, some-injective}

-- A line of the file: the name of a section, a key with its value, or neither.
pub data Line : Type 0 where
  heading : List ℕ → Line
  entry : List ℕ → List ℕ → Line
  other : Line

-- What the reader takes a line for.
abbrev pub line_of : List ℕ → Line
line_of line = elim (parsesection line) [
  | some section ↦ heading section
  | none ↦ elim (parsekey line) [ none ↦ other | some e ↦ entry e.0 e.1 ]
]

abbrev pub lines_of : List (List ℕ) → List Line
lines_of [] = []
lines_of (line ∷ lines) = line_of (trimmed line) ∷ lines_of lines

-- No key stands before the first section.
abbrev pub starts_well : List Line → Bool
starts_well [] = true
starts_well (heading name ∷ lines) = true
starts_well (entry key value ∷ lines) = false
starts_well (other ∷ lines) = starts_well lines

-- The first entry of a key in the lines before the next heading.
unfoldable pub entry_of : List ℕ → List Line → Option (List ℕ)
entry_of key [] = none
entry_of key (heading name ∷ lines) = none
entry_of key (entry k value ∷ lines) = if same_text key k then some value else entry_of key lines
entry_of key (other ∷ lines) = entry_of key lines

-- That of the first section of a name.
unfoldable pub lookup : List ℕ → List ℕ → List Line → Option (List ℕ)
unfolding entry_of
lookup section key [] = none
lookup section key (heading name ∷ lines) =
    if same_text section name then entry_of key lines else lookup section key lines
lookup section key (entry k value ∷ lines) = lookup section key lines
lookup section key (other ∷ lines) = lookup section key lines

abbrev pub is_current : Option ℕ → ℕ → Bool
is_current none place = false
is_current (some current) place = current == place

abbrev pub value_at : Ini → Option ℕ → Option (List ℕ)
value_at f none = none
value_at f (some position) = some (text_at (drop position f.buffer))

abbrev pub value : Ini → ℕ → List ℕ → Option (List ℕ)
value f place key = value_at f (find_text key (set_at f.valuesets place))

-- What is found when the lines that are left have been read as well.
abbrev pub expect_in : Option ℕ → Ini → List ℕ → List ℕ → List Line → Option (List ℕ)
expect_in none f section key rest = lookup section key rest
expect_in (some place) f section key rest =
    or_else (value f place key)
      (if is_current f.current_section place then entry_of key rest else none)

abbrev pub expect : Ini → List ℕ → List ℕ → List Line → Option (List ℕ)
expect f section key rest = expect_in (find_text section f.sectiondata) f section key rest

pub record IsIni (f : Ini) : Type 0 where
  pub large : 1024 ≤ f.capacity
  pub fits : length f.buffer ≤ f.capacity
  pub named : (s : List ℕ) (p : ℕ) → find_text s f.sectiondata ≡ some p → p < length f.valuesets
  pub placed : (p : ℕ) → f.current_section ≡ some p → p < length f.valuesets
  pub ended :
      (p : ℕ) (k : List ℕ) (pos : ℕ)
      → find_text k (set_at f.valuesets p) ≡ some pos
      → Ended f.buffer pos

pub expect-at :
    (f : Ini) (section key : List ℕ) (rest : List Line) (o : Option ℕ)
    → find_text section f.sectiondata ≡ o
    → expect f section key rest ≡ expect_in o f section key rest
expect-at f section key rest o e = ap (λ t. expect_in t f section key rest) e

pub or_else-none : (o : Option (List ℕ)) → or_else o none ≡ o
or_else-none none = refl
or_else-none (some x) = refl

module _ (f : Ini) (v : IsIni f) (name : List ℕ) where
  -- A set that was there is the same after a new section, and no longer the current one.
  old_set :
      (p : ℕ) (key : List ℕ) (rest : List Line)
      → p < length f.valuesets
      → expect_in (some p) (add_section name f) [] key rest ≡ value f p key
  unfolding add_section
  old_set p key rest h =
      let passed : (length f.valuesets == p) ≡ false = ground arith in
      rw (set_at-append f.valuesets p, passed) (or_else-none (value f p key))

  new_set :
      (key : List ℕ) (rest : List Line)
      → expect_in (some (length f.valuesets)) (add_section name f) [] key rest ≡ entry_of key rest
  unfolding add_section
  new_set key rest =
      let here : (length f.valuesets == length f.valuesets) ≡ true = ground arith in
      rw (set_at-last f.valuesets, here) refl

  ended_before :
      (p : ℕ) (key : List ℕ) (rest : List Line)
      → expect_in (some p) f [] key (heading name ∷ rest) ≡ value f p key
  unfolding entry_of
  ended_before p key rest = elim (Bool-cases (is_current f.current_section p)) [
    | inl current ↦ rw current (or_else-none (value f p key))
    | inr passed ↦ rw passed (or_else-none (value f p key))
  ]

  pub add_section-expect :
      (section key : List ℕ) (rest : List Line)
      → expect (add_section name f) section key rest ≡ expect f section key (heading name ∷ rest)
  unfolding add_section lookup
  add_section-expect section key rest =
      let g = add_section name f in
      let found = find_text-insert_text section name (length f.valuesets) f.sectiondata in
      elim (Option-cases (find_text section f.sectiondata)) [
        | inl nowhere ↦ elim (Bool-cases (same_text section name)) [
          | inl same ↦
              expect-at g section key rest (some (length f.valuesets))
                (found ∙ rw (nowhere, same) refl)
              ∙ new_set key rest
              ∙ sym (expect-at f section key (heading name ∷ rest) none nowhere ∙ rw same refl)
          | inr differs ↦
              expect-at g section key rest none (found ∙ rw (nowhere, differs) refl)
              ∙ sym (expect-at f section key (heading name ∷ rest) none nowhere ∙ rw differs refl)
        ]
        | inr (p, there) ↦
            expect-at g section key rest (some p) (found ∙ rw there refl)
            ∙ old_set p key rest (v.named section p there)
            ∙ sym (
                expect-at f section key (heading name ∷ rest) (some p) there
                ∙ ended_before p key rest)
      ]

  pub add_section-IsIni : IsIni (add_section name f)
  unfolding add_section
  add_section-IsIni =
      let longer = length-append f.valuesets ([] ∷ []) in
      record {
        large = v.large;
        fits = v.fits;
        named = λ s p h. elim (Option-cases (find_text s f.sectiondata)) [
          | inl nowhere ↦ elim (Bool-cases (same_text s name)) [
            | inl same ↦
                let e : some (length f.valuesets) ≡ some p =
                  sym (
                    find_text-insert_text s name (length f.valuesets) f.sectiondata
                    ∙ rw (nowhere, same) refl)
                  ∙ h in
                omega (arith, longer, some-injective (length f.valuesets) p e)
            | inr differs ↦
                let e : none ≡ some p =
                  sym (
                    find_text-insert_text s name (length f.valuesets) f.sectiondata
                    ∙ rw (nowhere, differs) refl)
                  ∙ h in
                absurd (none-ne-some p e)
          ]
          | inr (q, there) ↦
              let e : some q ≡ some p =
                sym
                  (find_text-insert_text s name (length f.valuesets) f.sectiondata ∙ rw there refl)
                ∙ h in
              omega (arith, longer, v.named s q there, some-injective q p e)
        ];
        placed = λ p h. omega (arith, longer, some-injective (length f.valuesets) p h);
        ended =
            λ p k pos h. v.ended p k pos (ap (find_text k) (sym (set_at-append f.valuesets p)) ∙ h);
      }
