-- ===== src/Net/Connection/Commands.antt =====
-- What `process_command` makes of a stream of encoded packets.
use plain.Prelude.{
  ℕ, zero, suc, ◌^◌, ◌≤◌, ◌<◌, ◌≡◌, ◌∙◌, refl, sym, ap, ◌⊎◌, inl, inr, Bool, true, false, List, [],
  ◌∷◌, ◌++◌, append_assoc, length, All, leb, ◌==◌, if◌then◌else◌, Bool-cases, arith,
}
use plain.Ring.Invariant.{IsValid}
use mathlib.Core.Path.{subst}
use plain.Endian.{be_bytes, le_bytes, to_memory}
use plain.Net.Packet.{Packet}
use plain.Net.Stream
use plain.Net.Stream.{Stream}
use plain.Net.Stream.Flow.{held}
use plain.Net.Codec.{Limit, Decoded, packet, make_packet, encode, decode}
use plain.Net.Codec.Head.{IsByte, size_held, decode-encode}
use plain.Net.Connection.{
  Connection, has_work_flag, set_work_flag, command_flag, once_handle_packet_count,
  cant_peek_max_count, check_command, command_loop, process_command,
}

-- The packets as bytes, one behind the other, and as `decode` makes them.
abbrev pub frames : Bool → List Packet → List ℕ
frames big [] = []
frames big (p ∷ ps) = encode big p ++ frames big ps

abbrev pub received_packets : List Packet → List Packet
received_packets [] = []
received_packets (p ∷ ps) = make_packet p.id p.data_bytes ∷ received_packets ps

-- A packet that keeps the limits.
pub record IsSendable (limit : Limit) (p : Packet) : Type 0 where
  pub some_id : 0 < p.id
  pub id_in : p.id ≤ limit.max_id
  pub id_fits : p.id < 2 ^ 16
  pub length_in : length p.data_bytes ≤ limit.max_length
  pub length_fits : length p.data_bytes < 2 ^ 32

All-append_right : (xs ys : List ℕ) → All IsByte (xs ++ ys) → All IsByte ys
All-append_right [] ys h = h
All-append_right (x ∷ xs) ys h = All-append_right xs ys h.1

encode_some : (big : Bool) (p : Packet) (rest : List ℕ) → 0 < length (encode big p ++ rest)
unfolding encode to_memory be_bytes le_bytes
encode_some true p rest = omega arith
encode_some false p rest = omega arith

-- A handler that goes on and leaves the received bytes alone.
abbrev pub GoesOn : (Packet → Connection → Bool × Connection) → Type 0
GoesOn handle =
    (p : Packet) (c : Connection) → ((handle p c).0 ≡ true) × ((handle p c).1.istream ≡ c.istream)

-- A round that gets a packet and goes on.
loop_round :
    (decoder : Stream → Decoded × Stream) (handle : Packet → Connection → Bool × Connection)
    (rounds : ℕ) (done : List Packet) (c : Connection) (p : Packet) (n : ℕ)
    → (decoder c.istream).0 ≡ packet p
    → (handle p (record c { istream = (decoder c.istream).1 })).0 ≡ true
    → Stream.size (handle p (record c { istream = (decoder c.istream).1 })).1.istream ≡ n
    → let next = (handle p (record c { istream = (decoder c.istream).1 })).1 in
      command_loop decoder handle (suc rounds) done c ≡ (
        if n == 0
        then (true, done ++ (p ∷ []), record next { error_times = 0 })
        else command_loop decoder handle rounds (done ++ (p ∷ [])) next)
unfolding command_loop
loop_round decoder handle rounds done c p n e ok size =
    rw (command_loop, e, ok, size)
      (elim (Bool-cases (n == 0)) [ inl h ↦ rw h refl | inr h ↦ rw h refl ])

module _ (big : Bool) (limit : Limit) (handle : Packet → Connection → Bool × Connection)
    (goes_on : GoesOn handle) where
  -- One round on a stream that begins with a packet.
  one_packet :
      (rounds : ℕ) (done : List Packet) (c : Connection) (p : Packet) (rest : List ℕ)
      → IsSendable limit p
      → IsValid c.istream.buffer
      → All IsByte (held c.istream)
      → held c.istream ≡ encode big p ++ rest
      → (next : Connection) × (held next.istream ≡ rest)
        × IsValid next.istream.buffer
        × (command_loop (decode big limit) handle (suc rounds) done c ≡ (
            if length rest == 0
            then (
              true,
              done ++ (make_packet p.id p.data_bytes ∷ []),
              record next { error_times = 0 },
            )
            else command_loop
                (decode big limit)
                handle
                rounds
                (done ++ (make_packet p.id p.data_bytes ∷ []))
                next))
  one_packet rounds done c p rest ok v bytes e =
      let (decoded, left, valid, _, _, _, _, _, _, _) =
        decode-encode big limit c.istream p rest v bytes e ok.some_id ok.id_in ok.id_fits
          ok.length_in ok.length_fits in
      let (accepted, same) = goes_on (make_packet p.id p.data_bytes) got in
      let valid' : IsValid next.istream.buffer = subst (λ t. IsValid t.buffer) (sym same) valid in
      let left' : held next.istream ≡ rest = ap held same ∙ left in
      let emptied : Stream.size next.istream ≡ length rest =
        size_held next.istream valid' ∙ ap length left' in
      (
        next,
        left',
        valid',
        loop_round (decode big limit) handle rounds done c (make_packet p.id p.data_bytes)
            (length rest) decoded accepted emptied,
      )
    where
      got : Connection
      got = record c { istream = (decode big limit c.istream).1 }

      next : Connection
      next = (handle (make_packet p.id p.data_bytes) got).1

  last_round :
      (rounds : ℕ) (b : Bool)
      → rounds ≡ 0
      → (c : Connection) (done : List Packet)
      → (if b
          then (true, done, record c { error_times = 0 })
          else command_loop (decode big limit) handle rounds done c)
        ≡ (true, done, record c { error_times = 0 })
  unfolding command_loop
  last_round zero true h c done = refl
  last_round zero false h c done = refl
  last_round (suc rounds) b h c done = absurd (omega arith)

  frames_some :
      (p : Packet) (ps : List Packet) (rest : List ℕ) → 0 < length (frames big (p ∷ ps) ++ rest)
  frames_some p ps rest = omega (
    arith,
    ap length (append_assoc (encode big p) (frames big ps) rest),
    encode_some big p (frames big ps ++ rest),
  )

  -- The loop on whole packets, if it has a round for each and either no bytes or no rounds are left.
  command_loop_takes :
      (rounds : ℕ) (done : List Packet) (c : Connection) (p : Packet) (ps : List Packet)
      (rest : List ℕ)
      → All (IsSendable limit) (p ∷ ps)
      → IsValid c.istream.buffer
      → All IsByte (held c.istream)
      → held c.istream ≡ frames big (p ∷ ps) ++ rest
      → length (p ∷ ps) ≤ rounds
      → (rest ≡ []) ⊎ (length (p ∷ ps) ≡ rounds)
      → (next : Connection) × (held next.istream ≡ rest)
        × IsValid next.istream.buffer
        × (command_loop (decode big limit) handle rounds done c
            ≡ (true, done ++ received_packets (p ∷ ps), record next { error_times = 0 }))
  command_loop_takes zero done c p ps rest ok v bytes e enough last = absurd (omega arith)
  command_loop_takes (suc rounds) done c p [] rest ok v bytes e enough last =
      let (next, left, valid, round) =
        one_packet rounds done c p rest ok.0 v bytes (e ∙ append_assoc (encode big p) [] rest) in
      elim last [
        | inl nothing ↦ (
          next,
          left,
          valid,
          round
              ∙ ap
                  (λ t.
                    if length t == 0
                    then (true, done ++ received_packets (p ∷ []), record next { error_times = 0 })
                    else command_loop (decode big limit) handle rounds
                        (done ++ received_packets (p ∷ [])) next)
                  nothing,
        )
        | inr all_rounds ↦
            let none_left : rounds ≡ 0 = omega arith in
            (
              next,
              left,
              valid,
              round
                  ∙ last_round rounds (length rest == 0) none_left next
                      (done ++ received_packets (p ∷ [])),
            )
      ]
  command_loop_takes (suc rounds) done c p (q ∷ ps) rest ok v bytes e enough last =
      let (next, left, valid, round) =
        one_packet rounds done c p (frames big (q ∷ ps) ++ rest) ok.0 v bytes
          (e ∙ append_assoc (encode big p) (frames big (q ∷ ps)) rest) in
      let more : (length (frames big (q ∷ ps) ++ rest) == 0) ≡ false =
        ground (arith, frames_some q ps rest) in
      let (end, left', valid', result) =
        command_loop_takes rounds (done ++ (make_packet p.id p.data_bytes ∷ [])) next q ps rest ok.1
          valid
          (subst (All IsByte) (sym left) (
            All-append_right (encode big p) (frames big (q ∷ ps) ++ rest) (
              subst (All IsByte) (e ∙ append_assoc (encode big p) (frames big (q ∷ ps)) rest)
                bytes)))
          left (omega arith) (one_less last) in
      (
        end,
        left',
        valid',
        round
            ∙ ap
                (λ b.
                  if b
                  then (
                    true,
                    done ++ (make_packet p.id p.data_bytes ∷ []),
                    record next { error_times = 0 },
                  )
                  else command_loop (decode big limit) handle rounds
                      (done ++ (make_packet p.id p.data_bytes ∷ [])) next)
                more
            ∙ result
            ∙ ap (λ t. (true, t, record end { error_times = 0 }))
                (append_assoc done (make_packet p.id p.data_bytes ∷ [])
                  (received_packets (q ∷ ps))),
      )
    where
      one_less :
          (rest ≡ []) ⊎ (suc (suc (length ps)) ≡ suc rounds)
          → (rest ≡ []) ⊎ (suc (length ps) ≡ rounds)
      one_less (inl h) = inl h
      one_less (inr h) = inr (omega arith)

  -- `process_command` of a connection that is asked for it, on whole packets that keep the limits:
  -- at most 12 with nothing behind them, or 12 with anything behind them. If the handler goes on and
  -- leaves the received bytes alone, then just these packets are handled, in their order, what is
  -- behind them stays held in a valid buffer, and the count of errors starts again.
  pub process_command_handles :
      (c : Connection) (p : Packet) (ps : List Packet) (rest : List ℕ)
      → has_work_flag c command_flag ≡ true
      → c.error_times < cant_peek_max_count
      → All (IsSendable limit) (p ∷ ps)
      → IsValid c.istream.buffer
      → All IsByte (held c.istream)
      → held c.istream ≡ frames big (p ∷ ps) ++ rest
      → length (p ∷ ps) ≤ once_handle_packet_count
      → (rest ≡ []) ⊎ (length (p ∷ ps) ≡ once_handle_packet_count)
      → let (r, handled, c') = process_command (decode big limit) handle c in
        (r ≡ true)
        × (handled ≡ received_packets (p ∷ ps))
        × (held c'.istream ≡ rest)
        × IsValid c'.istream.buffer
        × (c'.error_times ≡ 0)
  unfolding process_command
  process_command_handles c p ps rest flag errors ok v bytes e enough last =
      let (next, left, valid, result) =
        command_loop_takes once_handle_packet_count [] c p ps rest ok v bytes e enough last in
      let some_held : (Stream.size c.istream == 0) ≡ false =
        ground (arith, size_held c.istream v, ap length e, frames_some p ps rest) in
      let few_errors : leb cant_peek_max_count c.error_times ≡ false = ground arith in
      let kept = checked (record next { error_times = 0 }) in
      rw (flag, some_held, few_errors, result)
        (
          refl,
          refl,
          ap held kept.0 ∙ left,
          subst (λ t. IsValid t.buffer) (sym kept.0) valid,
          kept.1,
        )
    where
      checked :
          (c : Connection)
          → ((check_command c).istream ≡ c.istream)
            × ((check_command c).error_times ≡ c.error_times)
      checked c = unfold check_command set_work_flag in ground arith
