-- ===== src/File/Ini/Entries.antt =====
-- A key of the current section, with its value behind the others in the buffer.
use plain.Prelude.{
  ℕ, ◌≤◌, ◌<◌, ◌≡◌, ◌≢◌, ◌∙◌, refl, sym, ap, inl, inr, Bool, true, false, Option, none, some, List,
  [], ◌∷◌, ◌++◌, length, length-set, if◌then◌else◌, Bool-cases, arith,
}
use plain.Prelude.Sets.{has}
use plain.File.Ini.{Ini, same_text, find_text, insert_text, set_at, insert_at}
use plain.File.Ini.Values.{
  or_else, Option-cases, find_text-insert_text, set_at-set_self, set_at-set_ne, Ended, Ended-append,
  Ended-new,
}
use mathlib.Core.Path.{subst}
use mathlib.Core.Option.{none-ne-some, some-injective}
use native.Mathlib.Decide.{ℕ_discrete}
use plain.File.Ini.Reference.{
  Line, entry_of, lookup, is_current, value_at, value, expect, IsIni, entry,
}

or_else-entry :
    (o : Option (List ℕ)) (b : Bool) (text : List ℕ) (r : Option (List ℕ))
    → or_else (or_else o (if b then some text else none)) r ≡ or_else o (if b then some text else r)
or_else-entry none true text r = refl
or_else-entry none false text r = refl
or_else-entry (some x) b text r = refl

-- A key of the current section, with its value behind the others in the buffer.
module _ (f : Ini) (v : IsIni f) (name text : List ℕ) (current c : ℕ)
    (e : f.current_section ≡ some current) (whole : has 0 text ≡ false) (room : 1024 ≤ c)
    (enough : length (f.buffer ++ (text ++ 0 ∷ [])) ≤ c) where
  abbrev pub with_value : Ini
  with_value =
      insert_at current name (length f.buffer)
        (record f { capacity = c; buffer = f.buffer ++ (text ++ 0 ∷ []) })

  inside : current < length f.valuesets
  inside = v.placed current e

  value_other : (p : ℕ) (key : List ℕ) → current ≢ p → value with_value p key ≡ value f p key
  value_other p key d =
      rw
        (set_at-set_ne f.valuesets current p
          (insert_text name (length f.buffer) (set_at f.valuesets current)) d)
        (kept (find_text key (set_at f.valuesets p)) refl)
    where
      kept :
          (o : Option ℕ)
          → find_text key (set_at f.valuesets p) ≡ o
          → value_at with_value o ≡ value_at f o
      kept none q = refl
      kept (some pos) q =
          ap some (Ended-append f.buffer (text ++ 0 ∷ []) pos (v.ended p key pos q)).1

  value_own :
      (key : List ℕ)
      → value with_value current key
        ≡ or_else (value f current key) (if same_text key name then some text else none)
  value_own key =
      rw
        (
          set_at-set_self f.valuesets current
              (insert_text name (length f.buffer) (set_at f.valuesets current)) inside,
          find_text-insert_text key name (length f.buffer) (set_at f.valuesets current),
        )
        (own (find_text key (set_at f.valuesets current)) refl)
    where
      own :
          (o : Option ℕ)
          → find_text key (set_at f.valuesets current) ≡ o
          → value_at with_value
              (or_else o (if same_text key name then some (length f.buffer) else none))
            ≡ or_else (value_at f o) (if same_text key name then some text else none)
      own none q = elim (Bool-cases (same_text key name)) [
        | inl same ↦ rw same (ap some (Ended-new f.buffer text whole).1)
        | inr differs ↦ rw differs refl
      ]
      own (some pos) q =
          ap some (Ended-append f.buffer (text ++ 0 ∷ []) pos (v.ended current key pos q)).1

  pub add_key-expect :
      (section key : List ℕ) (rest : List Line)
      → expect with_value section key rest ≡ expect f section key (entry name text ∷ rest)
  unfolding lookup
  add_key-expect section key rest = elim (Option-cases (find_text section f.sectiondata)) [
    | inl nowhere ↦ rw nowhere refl
    | inr (p, there) ↦ rw there (elim (ℕ_discrete current p) [
      | yes here ↦
          let now : is_current f.current_section p ≡ true =
            ap (λ o. is_current o p) e ∙ ground (arith, here) in
          let own : value with_value p key
              ≡ or_else (value f p key) (if same_text key name then some text else none) =
            subst
              (λ q.
                value with_value q key
                ≡ or_else (value f q key) (if same_text key name then some text else none))
              here (value_own key) in
          rw (now, own)
            (or_else-entry (value f p key) (same_text key name) text (entry_of key rest))
      | no elsewhere ↦
          let passed : is_current f.current_section p ≡ false =
            ap (λ o. is_current o p) e ∙ ground (arith, elsewhere) in
          rw (passed, value_other p key elsewhere) refl
    ])
  ]

  pub with_value-IsIni : IsIni with_value
  with_value-IsIni = record {
    large = room;
    fits = enough;
    named = λ s p h. omega (arith, v.named s p h, longer);
    placed = λ p h. omega (arith, v.placed p h, longer);
    ended = λ p k pos h. elim (ℕ_discrete current p) [
      | yes here ↦
          ended_own k pos
            (subst (λ q. find_text k (set_at with_value.valuesets q) ≡ some pos) (sym here) h)
      | no elsewhere ↦
          (Ended-append f.buffer (text ++ 0 ∷ []) pos (
            v.ended p k pos (
              ap (find_text k) (
                sym (
                  set_at-set_ne f.valuesets current p
                    (insert_text name (length f.buffer) (set_at f.valuesets current)) elsewhere))
              ∙ h))).0
    ];
  }
    where
      longer : length with_value.valuesets ≡ length f.valuesets
      longer =
          length-set f.valuesets current
            (insert_text name (length f.buffer) (set_at f.valuesets current))

      ended_own :
          (k : List ℕ) (pos : ℕ)
          → find_text k (set_at with_value.valuesets current) ≡ some pos
          → Ended with_value.buffer pos
      ended_own k pos h =
          let at : find_text k (set_at with_value.valuesets current)
              ≡ or_else (find_text k (set_at f.valuesets current))
                  (if same_text k name then some (length f.buffer) else none) =
            ap (find_text k) (
              set_at-set_self f.valuesets current
                (insert_text name (length f.buffer) (set_at f.valuesets current)) inside)
            ∙ find_text-insert_text k name (length f.buffer) (set_at f.valuesets current) in
          ended_in (find_text k (set_at f.valuesets current)) refl (sym at ∙ h)
        where
          ended_in :
              (o : Option ℕ)
              → find_text k (set_at f.valuesets current) ≡ o
              → or_else o (if same_text k name then some (length f.buffer) else none) ≡ some pos
              → Ended with_value.buffer pos
          ended_in none q g = elim (Bool-cases (same_text k name)) [
            | inl same ↦
                subst (Ended with_value.buffer)
                  (some-injective (length f.buffer) pos (rw same at g))
                  (Ended-new f.buffer text whole).0
            | inr differs ↦ absurd (none-ne-some pos (rw differs at g))
          ]
          ended_in (some u) q g =
              (Ended-append f.buffer (text ++ 0 ∷ []) pos (v.ended current k pos (q ∙ g))).0
