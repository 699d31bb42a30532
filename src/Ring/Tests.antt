-- ===== src/Ring/Tests.antt =====
-- The ring buffer on small rings: each theorem at a ring of four cells.
use plain.Prelude.{ℕ, ◌≡◌, refl, true, false, [], ◌∷◌, ◌++◌, get_or, take, drop, arith}
use plain.Ring.{Ring, fixed, dynamic, write, read, resize}
use plain.Ring.Window.{window}
use plain.Ring.Invariant.{IsValid, contents}
use plain.Ring.Write.{write_appends, write_grows}
use plain.Ring.Read.{read_takes}
use plain.Ring.Loss.{resize_loses}

-- Three items that go round the end of the cells.
abbrev wrapped : Ring ℕ
wrapped = record {
  storage = dynamic 4;
  head = 6;
  tail = 3;
  size = 4;
  mask = 3;
  buffer = 24 ∷ 25 ∷ 0 ∷ 23 ∷ [];
}

-- Three items from the first cell on.
abbrev linear : Ring ℕ
linear = record {
  storage = dynamic 4;
  head = 3;
  tail = 0;
  size = 4;
  mask = 3;
  buffer = 23 ∷ 24 ∷ 25 ∷ 0 ∷ [];
}

abbrev bounded : Ring ℕ
bounded = record {
  storage = fixed;
  head = 3;
  tail = 0;
  size = 4;
  mask = 3;
  buffer = 23 ∷ 24 ∷ 25 ∷ 0 ∷ 0 ∷ [];
}

wrapped-IsValid : IsValid wrapped
wrapped-IsValid = record {
  order = 2;
  small = omega arith;
  power = refl;
  masked = refl;
  cells = omega arith;
  head_in = omega arith;
  tail_in = omega arith;
  within = omega arith;
}

linear-IsValid : IsValid linear
linear-IsValid = record {
  order = 2;
  small = omega arith;
  power = refl;
  masked = refl;
  cells = omega arith;
  head_in = omega arith;
  tail_in = omega arith;
  within = omega arith;
}

bounded-IsValid : IsValid bounded
bounded-IsValid = record {
  order = 2;
  small = omega arith;
  power = refl;
  masked = refl;
  cells = omega arith;
  head_in = omega arith;
  tail_in = omega arith;
  within = omega arith;
}

wrapped_items : contents 0 wrapped ≡ 23 ∷ 24 ∷ 25 ∷ []
unfolding window
wrapped_items = refl

write_appends_example :
    let (n, s) = write 0 wrapped (26 ∷ []) true in
    (n ≡ 1) × IsValid s × (contents 0 s ≡ contents 0 wrapped ++ (26 ∷ []))
write_appends_example = write_appends 0 {r = wrapped} wrapped-IsValid (26 ∷ []) true (omega arith)

read_takes_example :
    let (items, s) = read 0 wrapped 2 false in
    (read 0 wrapped 2 true ≡ (take 2 (contents 0 wrapped), wrapped))
    × (items ≡ take 2 (contents 0 wrapped))
    × (contents 0 s ≡ drop 2 (contents 0 wrapped))
    × IsValid s
read_takes_example = read_takes 0 {r = wrapped} wrapped-IsValid 2

write_grows_example :
    let (n, s) = write 0 linear (26 ∷ 27 ∷ []) true in
    (n ≡ 2) × IsValid s × (contents 0 s ≡ contents 0 linear ++ (26 ∷ 27 ∷ []))
write_grows_example =
    write_grows 0 {r = linear} linear-IsValid {initial = 4} (26 ∷ 27 ∷ []) true refl (omega arith)
      (omega arith) (omega arith)

resize_loses_example :
    let s = (resize 0 wrapped 8).1 in
    (get_or (contents 0 wrapped) 1 0 ≡ 24) × (get_or (contents 0 s) 1 0 ≡ 0)
resize_loses_example =
    resize_loses 0 {r = wrapped} wrapped-IsValid {initial = 4} 8 refl refl (omega arith)
      (omega arith) (omega arith)
