-- ===== src/File/Ini/Line.antt =====
-- What is left of a line keeps to its length and has no NUL.
use plain.Prelude.{
  ℕ, ◌≤◌, ◌<◌, ◌≡◌, refl, inl, inr, false, Option, none, some, List, [], ◌∷◌, length, ◌==◌,
  if◌then◌else◌, Bool-cases, arith,
}
use plain.Prelude.Sets.{has}
use mathlib.Core.Option.{none-ne-some, some-injective}
use mathlib.Core.Path.{subst}
use plain.File.Ini.{
  ok, split_at, is_blank, cut_line_end, cut_note, cut_blanks, trim_end, trimstring,
}

-- A string that fits in the buffer of a line.
pub record IsText (s : List ℕ) : Type 0 where
  pub short : length s < 512
  pub whole : has 0 s ≡ false

-- The text of a line: without the note, and without blanks at its end but for the first byte.
abbrev pub trim_blanks : List ℕ → List ℕ
trim_blanks [] = []
trim_blanks (x ∷ xs) = x ∷ cut_blanks xs

abbrev pub trimmed : List ℕ → List ℕ
trimmed [] = []
trimmed (x ∷ xs) = trim_blanks (cut_note (cut_line_end x xs))

-- Behind a byte that is not blank, trimming a line gives its text.
pub trimstring-ok :
    (before : ℕ) (line : List ℕ)
    → is_blank before ≡ false
    → trimstring before line ≡ ok (trimmed line)
unfolding trimstring
trimstring-ok before [] h = refl
trimstring-ok before (x ∷ xs) h = cases (cut_note (cut_line_end x xs))
  where
    cases : (t : List ℕ) → trim_end before t ≡ ok (trim_blanks t)
    cases [] = rw h refl
    cases (y ∷ ys) = refl

-- `s` has no more bytes than `t`, and none that `t` has not.
abbrev Within : List ℕ → List ℕ → Type 0
Within s t = (length s ≤ length t) × (has 0 t ≡ false → has 0 s ≡ false)

Within-cons : (x : ℕ) (s t : List ℕ) → Within s t → Within (x ∷ s) (x ∷ t)
Within-cons x s t w = (omega (arith, w.0), λ h. ground (arith, h, w.1))

Within-nil : (x : ℕ) (t : List ℕ) → Within [] (x ∷ t)
Within-nil x t = (omega arith, λ h. refl)

cut_line_end-Within : (x : ℕ) (xs : List ℕ) → Within (cut_line_end x xs) (x ∷ xs)
cut_line_end-Within x [] = ground arith
cut_line_end-Within x (y ∷ ys) =
    Within-cons x (cut_line_end y ys) (y ∷ ys) (cut_line_end-Within y ys)

cut_note-Within : (xs : List ℕ) → Within (cut_note xs) xs
cut_note-Within [] = (omega arith, λ h. h)
cut_note-Within (x ∷ xs) = elim (Bool-cases (x == b';')) [
  | inl note ↦ rw note (Within-nil x xs)
  | inr other ↦ rw other (Within-cons x (cut_note xs) xs (cut_note-Within xs))
]

cut_blanks-Within : (xs : List ℕ) → Within (cut_blanks xs) xs
cut_blanks-Within [] = (omega arith, λ h. h)
cut_blanks-Within (x ∷ xs) = cases (cut_blanks xs) (cut_blanks-Within xs)
  where
    cases :
        (t : List ℕ)
        → Within t xs
        → Within (elim t [ [] ↦ if is_blank x then [] else x ∷ [] | y ∷ ys ↦ x ∷ y ∷ ys ]) (x ∷ xs)
    cases [] w = elim (Bool-cases (is_blank x)) [
      | inl blank ↦ rw blank (Within-nil x xs)
      | inr dark ↦ rw dark (Within-cons x [] xs w)
    ]
    cases (y ∷ ys) w = Within-cons x (y ∷ ys) xs w

trim_blanks-Within : (xs : List ℕ) → Within (trim_blanks xs) xs
trim_blanks-Within [] = (omega arith, λ h. h)
trim_blanks-Within (x ∷ xs) = Within-cons x (cut_blanks xs) xs (cut_blanks-Within xs)

pub trimmed-IsText : (line : List ℕ) → IsText line → IsText (trimmed line)
trimmed-IsText [] t = t
trimmed-IsText (x ∷ xs) t =
    let a = cut_line_end-Within x xs in
    let b = cut_note-Within (cut_line_end x xs) in
    let c = trim_blanks-Within (cut_note (cut_line_end x xs)) in
    record { short = omega (arith, a.0, b.0, c.0, t.short); whole = c.1 (b.1 (a.1 t.whole)) }

Within-skip : (x : ℕ) (s t : List ℕ) → Within s t → Within s (x ∷ t)
Within-skip x s t w = (omega (arith, w.0), λ h. w.1 (ground (arith, h)))

split_at-Within :
    (c : ℕ) (xs : List ℕ) (r : List ℕ × List ℕ) → split_at c xs ≡ some r → Within r.1 xs
split_at-Within c [] r e = absurd (none-ne-some r e)
split_at-Within c (x ∷ xs) r e = elim (Bool-cases (x == c)) [
  | inl here ↦
      let found : some ([], xs) ≡ some r = rw here at e in
      subst (λ t. Within t.1 (x ∷ xs)) (some-injective ([], xs) r found)
        (Within-skip x xs xs (omega arith, λ h. h))
  | inr later ↦ cases (split_at c xs) (λ t q. split_at-Within c xs t q) (rw later at e)
]
  where
    cases :
        (o : Option (List ℕ × List ℕ))
        → ((t : List ℕ × List ℕ) → o ≡ some t → Within t.1 xs)
        → elim o [ none ↦ none | some t ↦ some (x ∷ t.0, t.1) ] ≡ some r
        → Within r.1 (x ∷ xs)
    cases none q g = absurd (none-ne-some r g)
    cases (some t) q g =
        subst (λ t. Within t.1 (x ∷ xs)) (some-injective (x ∷ t.0, t.1) r g)
          (Within-skip x t.1 xs (q t refl))

pub split_at-IsText :
    (c : ℕ) (xs : List ℕ) (r : List ℕ × List ℕ) → split_at c xs ≡ some r → IsText xs → IsText r.1
split_at-IsText c xs r e t =
    let w = split_at-Within c xs r e in
    record { short = omega (arith, w.0, t.short); whole = w.1 t.whole }
