-- ===== src/Net/Stream/Flow.antt =====
-- Bytes flow through a stream in order: none is lost, doubled or invented.
use plain.Prelude.{
  ℕ, zero, suc, ◌+◌, ◌-◌, ◌*◌, ◌^◌, ◌≤◌, ◌≡◌, ◌∙◌, refl, sym, ap, inl, inr, ◌⊎◌, Bool, true, false,
  List, [], ◌∷◌, ◌++◌, append_assoc, length, length-append, length-take, length-drop, take, drop,
  drop-add, take-append-drop, ltb, leb, ◌==◌, if◌then◌else◌, Bool-cases, arith,
}
use plain.Prelude.Int.{ℤ, pos, negsuc}
use plain.Prelude.Words.{sub64}
use plain.Ring
use plain.Ring.{Ring}
use plain.Ring.Invariant.{IsValid, contents}
use plain.Ring.Read.{read_takes, remove_count_drops}
use plain.Ring.Write.{write_appends, write_grows}
use plain.Net.Stream.{
  Stream, blank, push_loop, push, pull, Sent, send_would_block, send_error, sent, received,
  recv_would_block, recv_error, recv_closed, write,
}
use native.Mathlib.Decide.{dec_lt}

-- The bytes that a stream holds, oldest first.
abbrev pub held : Stream → List ℕ
held s = contents blank s.buffer

drop_ahead : (n : ℕ) (xs ys : List ℕ) → n ≤ length xs → drop n (xs ++ ys) ≡ drop n xs ++ ys
drop_ahead zero xs ys h = refl
drop_ahead (suc n) [] ys h = absurd (omega arith)
drop_ahead (suc n) (x ∷ xs) ys h = drop_ahead n xs ys (omega arith)

-- A count that is returned is the number of bytes that went out.
abbrev pub Counts : ℤ → ℕ → ℕ → Type 0
Counts (pos n) before after = after ≡ before + n
Counts (negsuc n) before after = Unit

-- What the loop of `push` has done when it ends.
record Flows (r : Ring ℕ) (real : ℕ) (wire : List ℕ) (out : ℤ × Ring ℕ × List ℕ) : Type 0 where
  valid : IsValid out.1
  order : out.2 ++ contents blank out.1 ≡ wire ++ contents blank r
  count : Counts out.0 (length wire) (length out.2 + real)

stops : (r : Ring ℕ) (real : ℕ) (wire : List ℕ) → IsValid r → Flows r real wire (pos real, r, wire)
stops r real wire v = record { valid = v; order = refl; count = refl }

module _ (outcome : ℕ → ℕ → Sent)
    (takes : (i offered n : ℕ) → outcome i offered ≡ sent n → n ≤ offered)
    (bytes rest : List ℕ) where
  -- What the ring holds after the socket took `n` bytes.
  after_send :
      {r : Ring ℕ} (real : ℕ)
      → IsValid r
      → real ≤ length bytes
      → contents blank r ≡ drop real bytes ++ rest
      → (n : ℕ) → n ≤ length bytes - real
      → contents blank (Ring.remove_count r n).1 ≡ drop (real + n) bytes ++ rest
  after_send real v h e n fits =
      (remove_count_drops blank v n).1
      ∙ ap (drop n) e
      ∙ drop_ahead n (drop real bytes) rest (omega (arith, length-drop real bytes))
      ∙ ap (λ t. t ++ rest) (sym (drop-add real n bytes))

  goes_on_flow :
      {r : Ring ℕ} (real : ℕ) (wire : List ℕ)
      → IsValid r
      → real ≤ length bytes
      → contents blank r ≡ drop real bytes ++ rest
      → (n : ℕ) → n ≤ length bytes - real
      → {out : ℤ × Ring ℕ × List ℕ}
      → Flows (Ring.remove_count r n).1 (real + n) (wire ++ take n (drop real bytes)) out
      → Flows r real wire out
  goes_on_flow {r} real wire v h e n fits {out} f = record {
    valid = f.valid;
    order =
        f.order
        ∙ append_assoc wire (take n (drop real bytes)) (contents blank (Ring.remove_count r n).1)
        ∙ ap (λ t. wire ++ t)
            (ap (λ t. take n (drop real bytes) ++ t) (after_send real v h e n fits)
              ∙ sym (append_assoc (take n (drop real bytes)) (drop (real + n) bytes) rest)
              ∙ ap (λ t. (take n (drop real bytes) ++ t) ++ rest) (drop-add real n bytes)
              ∙ ap (λ t. t ++ rest) (take-append-drop n (drop real bytes))
              ∙ sym e);
    count = counts_shift out.0 f.count;
  }
    where
      counts_shift :
          (result : ℤ)
          → Counts result (length (wire ++ take n (drop real bytes))) (length out.2 + (real + n))
          → Counts result (length wire) (length out.2 + real)
      counts_shift (pos k) c = omega (
        arith,
        length-append wire (take n (drop real bytes)),
        length-take n (drop real bytes),
        length-drop real bytes,
      )
      counts_shift (negsuc k) c = tt

  loop-Flows :
      (rounds i real : ℕ) (r : Ring ℕ) (wire : List ℕ)
      → IsValid r
      → real ≤ length bytes
      → contents blank r ≡ drop real bytes ++ rest
      → Flows r real wire (push_loop outcome bytes rounds i real r wire)
  unfolding push_loop
  loop-Flows zero i real r wire v h e = stops r real wire v
  loop-Flows (suc rounds) i real r wire v h e =
      elim (leb (length bytes) real)
        as (λ b. Flows r real wire (elim b [
          | true ↦ (pos real, r, wire)
          | false ↦ sends (outcome i (length bytes - real))
        ])) [
          | true ↦ stops r real wire v
          | false ↦ sends_flow (loop-Flows rounds (i + 1)) (outcome i (length bytes - real)) refl
        ]
    where
      goes_on : ℕ → ℤ × Ring ℕ × List ℕ
      goes_on n =
          push_loop outcome bytes rounds (i + 1) (real + n) (Ring.remove_count r n).1
            (wire ++ take n (drop real bytes))

      sends : Sent → ℤ × Ring ℕ × List ℕ
      sends o = elim o [
        | send_would_block ↦ (pos real, r, wire)
        | send_error ↦ (negsuc 1, r, wire)
        | sent n ↦ elim (n == 0) [ true ↦ (pos real, r, wire) | false ↦ goes_on n ]
      ]

      sends_flow :
          ((real' : ℕ) (r' : Ring ℕ) (wire' : List ℕ)
            → IsValid r'
            → real' ≤ length bytes
            → contents blank r' ≡ drop real' bytes ++ rest
            → Flows r' real' wire' (push_loop outcome bytes rounds (i + 1) real' r' wire'))
          → (o : Sent) → outcome i (length bytes - real) ≡ o
          → Flows r real wire (sends o)
      sends_flow ih send_would_block p = stops r real wire v
      sends_flow ih send_error p = record { valid = v; order = refl; count = tt }
      sends_flow ih (sent n) p =
          let fits = takes i (length bytes - real) n p in
          elim (n == 0)
            as (λ b.
              Flows r real wire (elim b [ true ↦ (pos real, r, wire) | false ↦ goes_on n ])) [
                | true ↦ stops r real wire v
                | false ↦ goes_on_flow real wire v h e n fits (
                    ih (real + n) (Ring.remove_count r n).1 (wire ++ take n (drop real bytes))
                      (remove_count_drops blank v n).2 (omega arith) (after_send real v h e n fits))
              ]

-- `push` moves bytes from a valid buffer to a socket that takes no more than it is offered: in
-- every outcome the bytes on the wire followed by those still held are the same as before, the
-- buffer stays valid, and a returned count is the number of bytes that went out.
pub push_flows :
    (alive : Bool) (outcome : ℕ → ℕ → Sent)
    → ((i offered n : ℕ) → outcome i offered ≡ sent n → n ≤ offered)
    → (s : Stream) (wire : List ℕ) → IsValid s.buffer
    → let (result, s', wire') = push alive outcome s wire in
      (wire' ++ held s' ≡ wire ++ held s)
      × IsValid s'.buffer
      × Counts result (length wire) (length wire')
unfolding push
push_flows false outcome takes s wire v = (refl, v, omega arith)
push_flows true outcome takes s wire v = elim (Bool-cases (Ring.read_avail s.buffer == 0)) [
  | inl nothing ↦ rw nothing (refl, v, omega arith)
  | inr something ↦ rw something (f.order, f.valid, shifted loop.0 f.count)
]
  where
    send_size : ℕ
    send_size =
        let avail = Ring.read_avail s.buffer in
        if ltb (1024 * 1024) avail then 1024 * 1024 else avail

    bytes : List ℕ
    bytes = (Ring.read blank s.buffer send_size true).0

    loop : ℤ × Ring ℕ × List ℕ
    loop = push_loop outcome bytes 99 0 0 s.buffer wire

    copied : bytes ≡ take send_size (held s)
    copied = ap (λ t. t.0) (read_takes blank v send_size).0

    f : Flows s.buffer 0 wire loop
    f =
        loop-Flows outcome takes bytes (drop send_size (held s)) 99 0 0 s.buffer wire v
          (omega arith)
          (sym (take-append-drop send_size (held s))
            ∙ ap (λ t. t ++ drop send_size (held s)) (sym copied))

    shifted :
        (result : ℤ)
        → Counts result (length wire) (length loop.2 + 0)
        → Counts result (length wire) (length loop.2)
    shifted (pos n) c = omega arith
    shifted (negsuc n) c = tt

-- A write to a stream with a valid buffer, whose bytes fit or do not go round the end of the
-- cells, up to 2^63 in all, returns the number of bytes and adds them behind those held.
pub write_flows :
    (s : Stream) {initial : ℕ} (bytes : List ℕ)
    → IsValid s.buffer
    → s.buffer.storage ≡ Ring.dynamic initial
    → sub64 s.buffer.head s.buffer.tail + length bytes ≤ 2 ^ 63
    → (sub64 s.buffer.head s.buffer.tail + length bytes ≤ s.buffer.size)
      ⊎ (s.buffer.tail + sub64 s.buffer.head s.buffer.tail ≤ s.buffer.size)
    → let (n, s') = write s bytes in
      (n ≡ length bytes) × (held s' ≡ held s ++ bytes) × IsValid s'.buffer
unfolding write
write_flows s bytes v e fits room =
    elim (dec_lt s.buffer.size (sub64 s.buffer.head s.buffer.tail + length bytes)) [
      | yes small ↦
          let linear : s.buffer.tail + sub64 s.buffer.head s.buffer.tail ≤ s.buffer.size =
            omega arith in
          let (n, valid, items) = write_grows blank v bytes true e small fits linear in
          (n, items, valid)
      | no large ↦
          let (n, valid, items) = write_appends blank v bytes true (omega arith) in
          (n, items, valid)
    ]

-- `pull` under the same conditions adds the received bytes behind those held and returns their
-- number; without a socket, or when `recv` fails, it changes nothing, and its result is 0 or
-- negative.
pub pull_flows :
    (s : Stream) {initial : ℕ} (bytes : List ℕ)
    → IsValid s.buffer
    → s.buffer.storage ≡ Ring.dynamic initial
    → sub64 s.buffer.head s.buffer.tail + length bytes ≤ 2 ^ 63
    → (sub64 s.buffer.head s.buffer.tail + length bytes ≤ s.buffer.size)
      ⊎ (s.buffer.tail + sub64 s.buffer.head s.buffer.tail ≤ s.buffer.size)
    → let (result, s') = pull true (received bytes) s in
      (result ≡ pos (length bytes))
      × (held s' ≡ held s ++ bytes)
      × IsValid s'.buffer
      × (pull true recv_would_block s ≡ (pos 0, s))
      × (pull true recv_error s ≡ (negsuc 1, s))
      × (pull true recv_closed s ≡ (negsuc 2, s))
      × (pull false (received bytes) s ≡ (pos 0, s))
unfolding pull
pull_flows s bytes v e fits room =
    elim (dec_lt s.buffer.size (sub64 s.buffer.head s.buffer.tail + length bytes)) [
      | yes small ↦
          let linear : s.buffer.tail + sub64 s.buffer.head s.buffer.tail ≤ s.buffer.size =
            omega arith in
          outcome (write_grows blank v bytes false e small fits linear)
      | no large ↦ outcome (write_appends blank v bytes false (omega arith))
    ]
  where
    outcome :
        (let (n, r) = Ring.write blank s.buffer bytes false in
          (n ≡ length bytes) × IsValid r × (contents blank r ≡ held s ++ bytes))
        → let (result, s') = pull true (received bytes) s in
          (result ≡ pos (length bytes))
          × (held s' ≡ held s ++ bytes)
          × IsValid s'.buffer
          × (pull true recv_would_block s ≡ (pos 0, s))
          × (pull true recv_error s ≡ (negsuc 1, s))
          × (pull true recv_closed s ≡ (negsuc 2, s))
          × (pull false (received bytes) s ≡ (pos 0, s))
    outcome (n, valid, items) =
        let all_in : ltb (Ring.write blank s.buffer bytes false).0 (length bytes) ≡ false =
          ground (arith, n) in
        rw all_in (ap pos n, items, valid, refl, refl, refl, refl)
