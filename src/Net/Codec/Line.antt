-- ===== src/Net/Codec/Line.antt =====
-- The codec of lines: what `line_decode` takes from a stream.
use plain.Prelude.{
  ℕ, zero, suc, ◌+◌, ◌-◌, ◌<◌, ◌≡◌, ◌≢◌, ◌∙◌, refl, sym, ap, ◌&&◌, some, List, [], ◌∷◌, ◌++◌,
  length, length-append, get_or, take, drop, drop-append_length, drop-add, get_or-append_left, All,
  ltb, ◌==◌, if◌then◌else◌, arith,
}
use plain.Ring.Invariant.{IsValid}
use plain.Net.Stream
use plain.Net.Stream.{Stream}
use plain.Net.Stream.Flow.{held}
use plain.Net.Codec.{Limit, packet, find_newline, line_packet, line_decode}
use native.Mathlib.Decide.{dec_lt}
use mathlib.Core.Path.{subst}
use plain.Net.Codec.Head.{peek-held, remove-held, remove-IsValid}

abbrev pub InLine : ℕ → Type 0
InLine b = b ≢ 0x0a

find_newline-append :
    (line rest : List ℕ)
    → All InLine line
    → find_newline (line ++ (0x0a ∷ rest)) ≡ some (length line)
unfolding find_newline
find_newline-append [] rest h = refl
find_newline-append (b ∷ line) rest h = ground (arith, h.0, find_newline-append line rest h.1)

pub take_line :
    (n : ℕ) (line rest : List ℕ)
    → length line < n
    → take n (line ++ (0x0a ∷ rest)) ≡ line ++ (0x0a ∷ take (n - suc (length line)) rest)
take_line zero line rest h = absurd (omega arith)
take_line (suc n) [] rest h = ap (λ k. 0x0a ∷ take k rest) (omega arith)
take_line (suc n) (b ∷ line) rest h =
    ap (λ t. b ∷ t) (take_line n line rest (omega arith))
    ∙ ap (λ k. b ∷ (line ++ (0x0a ∷ take k rest))) (omega arith)

-- The size without a carriage return of the first `n` of some bytes.
abbrev pub trimmed : List ℕ → ℕ → ℕ
trimmed bytes n = if ltb 0 n && (get_or bytes (n - 1) 0 == 0x0d) then n - 1 else n

trimmed-append :
    (line rest : List ℕ) → trimmed (line ++ rest) (length line) ≡ trimmed line (length line)
trimmed-append line rest = elim (dec_lt 0 (length line)) [
  | yes p ↦ ground (arith, get_or-append_left line rest (length line - 1) 0 (omega arith))
  | no p ↦ ground arith
]

line_decode_found :
    (capacity id : ℕ) (limit : Limit) (s : Stream) (bytes : List ℕ) (n : ℕ)
    → Stream.peek s capacity ≡ bytes
    → 0 < length bytes
    → find_newline bytes ≡ some n
    → line_decode capacity id limit s
      ≡ (packet (line_packet id bytes (trimmed bytes n)), (Stream.remove s (n + 1)).1)
unfolding line_decode
line_decode_found capacity id limit s bytes n e some_read found =
    rw (e, found) (ground (arith, some_read))

-- From a stream with a valid buffer that holds a whole line, shorter than the buffer that it is
-- peeked into, `line_decode` makes the packet of the line without its line end, and leaves the
-- bytes behind the line held in a valid buffer.
pub line_decode_takes :
    (capacity id : ℕ) (limit : Limit) (s : Stream) (line rest : List ℕ)
    → IsValid s.buffer
    → held s ≡ line ++ (0x0a ∷ rest)
    → All InLine line
    → length line < capacity
    → let (d, s') = line_decode capacity id limit s in
      (d ≡ packet (line_packet id (take capacity (held s)) (trimmed line (length line))))
      × (held s' ≡ rest)
      × IsValid s'.buffer
line_decode_takes capacity id limit s line rest v e h room = (
  ap (λ t. t.0) decoded ∙ ap (λ t. packet (line_packet id bytes t)) end_same,
  ap (λ t. held t.1) decoded ∙ left,
  subst (λ t. IsValid t.1.buffer) (sym decoded) (remove-IsValid s v (length line + 1)),
)
  where
    bytes : List ℕ
    bytes = take capacity (held s)

    shown : bytes ≡ line ++ (0x0a ∷ take (capacity - suc (length line)) rest)
    shown = ap (take capacity) e ∙ take_line capacity line rest room

    decoded : line_decode capacity id limit s ≡ (
      packet (line_packet id bytes (trimmed bytes (length line))),
      (Stream.remove s (length line + 1)).1,
    )
    decoded =
        line_decode_found capacity id limit s bytes (length line) (peek-held s v capacity)
          (omega (
            arith,
            ap length shown,
            length-append line (0x0a ∷ take (capacity - suc (length line)) rest),
          ))
          (ap find_newline shown ∙ find_newline-append line _ h)

    end_same : trimmed bytes (length line) ≡ trimmed line (length line)
    end_same = ap (λ t. trimmed t (length line)) shown ∙ trimmed-append line _

    left : held (Stream.remove s (length line + 1)).1 ≡ rest
    left =
        remove-held s v (length line + 1)
        ∙ ap (drop (length line + 1)) e
        ∙ drop-add (length line) 1 (line ++ (0x0a ∷ rest))
        ∙ ap (drop 1) (drop-append_length line (0x0a ∷ rest))
