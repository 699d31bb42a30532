-- ===== src/Net/Codec/LineTrip.antt =====
-- The codec of lines: `line_encode` then `line_decode`, for text and for a request.
use plain.Prelude.{
  ℕ, suc, ◌+◌, ◌-◌, ◌≤◌, ◌<◌, ◌≡◌, ◌≢◌, ◌∙◌, sym, ap, true, false, List, [], ◌∷◌, ◌++◌,
  append_assoc, length, length-append, get_or, take, drop, take-append_length, drop-append_length,
  All, arith,
}
use plain.Ring.Invariant.{IsValid}
use plain.Net.Packet
use plain.Net.Packet.{Packet}
use plain.Net.Stream.{Stream}
use plain.Net.Stream.Flow.{held}
use plain.Net.Codec.{
  Limit, packet, request_begin, request_end, line_encode, bytes_eq, has_marks, line_flags, is_call,
  line_packet, line_decode,
}
use plain.Net.Codec.Line.{InLine, take_line, trimmed, line_decode_takes}

-- The flags of a line are those of its marks, and its packet has what stands behind them.
line_packet_plain :
    (id n : ℕ) (bytes : List ℕ)
    → 0 < n
    → line_flags bytes n (Packet.new_packet id) ≡ Packet.new_packet id
    → let q = line_packet id bytes n in
      (q.id ≡ id) × (q.data_bytes ≡ take n bytes) × (is_call q ≡ false)
unfolding line_packet is_call Packet.new_packet Packet.set_writeable Packet.set_readable
    Packet.write_raw Packet.is_call_request Packet.is_call_response Packet.is_call_notify
line_packet_plain id n bytes h e = rw e (ground arith)

line_packet_request :
    (id n : ℕ) (bytes : List ℕ)
    → 0 < n
    → line_flags bytes n (Packet.new_packet id)
      ≡ Packet.set_call_request (Packet.new_packet id) true
    → let q = line_packet id bytes n in
      (q.id ≡ id) × (q.data_bytes ≡ take (n - 2) (drop 2 bytes)) × (Packet.is_call_request q ≡ true)
unfolding line_packet is_call Packet.new_packet Packet.set_call_request Packet.set_writeable
    Packet.set_readable Packet.write_raw Packet.is_call_request Packet.is_call_response
    Packet.is_call_notify
line_packet_request id n bytes h e = rw e (ground arith)

flags_plain :
    (id n b : ℕ) (bytes : List ℕ)
    → b ≢ 0x63
    → line_flags (b ∷ bytes) n (Packet.new_packet id) ≡ Packet.new_packet id
unfolding line_flags has_marks bytes_eq
flags_plain id n b [] h = ground arith
flags_plain id n b (c ∷ bytes) h = ground arith

drop_framed : (a b : ℕ) (xs ys : List ℕ) → drop (length xs + 4 - 2) (a ∷ b ∷ (xs ++ ys)) ≡ ys
drop_framed a b xs ys =
    ap (λ n. drop n (a ∷ b ∷ (xs ++ ys))) {x = length xs + 4 - 2} {y = suc (suc (length xs))}
      (omega arith)
    ∙ drop-append_length xs ys

get_or_behind : (xs ys : List ℕ) (n : ℕ) → get_or (xs ++ ys) (length xs + n) 0 ≡ get_or ys n 0
get_or_behind [] ys n = ap (λ k. get_or ys k 0) (omega arith)
get_or_behind (x ∷ xs) ys n =
    ap (λ k. get_or (x ∷ (xs ++ ys)) k 0) {x = suc (length xs) + n} {y = suc (length xs + n)}
      (omega arith)
    ∙ get_or_behind xs ys n

last_framed :
    (a b c d : ℕ) (xs : List ℕ) → get_or (a ∷ b ∷ (xs ++ (c ∷ d ∷ []))) (length xs + 4 - 1) 0 ≡ d
last_framed a b c d xs =
    ap (λ n. get_or (a ∷ b ∷ (xs ++ (c ∷ d ∷ []))) n 0) {x = length xs + 4 - 1}
      {y = suc (suc (length xs + 1))} (omega arith)
    ∙ get_or_behind xs (c ∷ d ∷ []) 1

flags_request :
    (id : ℕ) (payload rest : List ℕ)
    → 5 ≤ length payload
    → line_flags
        (request_begin ++ (payload ++ (request_end ++ rest)))
        (length payload + 4)
        (Packet.new_packet id)
      ≡ Packet.set_call_request (Packet.new_packet id) true
unfolding line_flags has_marks bytes_eq
flags_request id payload rest h =
    ground (arith, drop_framed 0x63 0x72 payload (request_end ++ rest))

-- What is peeked of a stream that holds the line.
peeked_line :
    (capacity : ℕ) (s : Stream) (line rest : List ℕ)
    → held s ≡ line ++ (0x0a ∷ rest)
    → length line < capacity
    → take capacity (held s) ≡ line ++ (0x0a ∷ take (capacity - suc (length line)) rest)
peeked_line capacity s line rest e room = ap (take capacity) e ∙ take_line capacity line rest room

All-append : (xs ys : List ℕ) → All InLine xs → All InLine ys → All InLine (xs ++ ys)
All-append [] ys h k = k
All-append (x ∷ xs) ys h k = (h.0, All-append xs ys h.1 k)

-- A line of text is read back: from a stream with a valid buffer that holds a line that
-- `line_encode` made of a packet that is no call, whose bytes have no newline, do not begin with
-- the first byte of the marks and do not end with a carriage return, and are less than the buffer
-- peeked into, `line_decode` makes a packet of the same bytes that is no call, with the id of a
-- new packet, and leaves the bytes behind the line held.
pub line_decode-line_encode :
    (capacity id : ℕ) (limit : Limit) (s : Stream) (p : Packet) (b : ℕ) (bs rest : List ℕ)
    → IsValid s.buffer
    → p.data_bytes ≡ b ∷ bs
    → is_call p ≡ false
    → held s ≡ line_encode p ++ rest
    → All InLine p.data_bytes
    → b ≢ 0x63
    → get_or p.data_bytes (length bs) 0 ≢ 0x0d
    → length p.data_bytes < capacity
    → let (d, s') = line_decode capacity id limit s in
      let q = line_packet id (take capacity (held s)) (length p.data_bytes) in
      (d ≡ packet q)
      × (q.id ≡ id)
      × (q.data_bytes ≡ p.data_bytes)
      × (is_call q ≡ false)
      × (held s' ≡ rest)
unfolding line_encode is_call
line_decode-line_encode capacity id limit s p b bs rest v e plain_packet holds no_newline b_ok
      end_ok room =
    let (answer, left, _) =
      line_decode_takes capacity id limit s line rest v shape no_newline room in
    let (same_id, taken, no_call) = line_packet_plain id (length line) bytes some_byte flags in
    (
      answer ∙ ap (λ n. packet (line_packet id bytes n)) whole,
      same_id,
      taken ∙ all_taken,
      no_call,
      left,
    )
  where
    line : List ℕ
    line = p.data_bytes

    bytes : List ℕ
    bytes = take capacity (held s)

    encoded : line_encode p ≡ line ++ (0x0a ∷ [])
    encoded = ground arith

    shape : held s ≡ line ++ (0x0a ∷ rest)
    shape = holds ∙ ap (λ t. t ++ rest) encoded ∙ append_assoc line (0x0a ∷ []) rest

    shown : bytes ≡ line ++ (0x0a ∷ take (capacity - suc (length line)) rest)
    shown = peeked_line capacity s line rest shape room

    size : length line ≡ suc (length bs)
    size = ap length e

    some_byte : 0 < length line
    some_byte = omega (arith, size)

    whole : trimmed line (length line) ≡ length line
    whole = ap (trimmed line) size ∙ ground (arith, end_ok) ∙ sym size

    flags : line_flags bytes (length line) (Packet.new_packet id) ≡ Packet.new_packet id
    flags =
        ap (λ t. line_flags t (length line) (Packet.new_packet id))
          (shown ∙ ap (λ t. t ++ (0x0a ∷ take (capacity - suc (length line)) rest)) e)
        ∙ flags_plain id (length line) b _ b_ok

    all_taken : take (length line) bytes ≡ line
    all_taken = ap (take (length line)) shown ∙ take-append_length line _

-- A request keeps its end mark: from a stream that holds the line of a request whose bytes have no
-- newline and are at least 5 and less than the buffer peeked into by 4, `line_decode` makes a
-- request, whose bytes are those of the encoded one and behind them the two bytes of the end mark.
pub line_decode_keeps_mark :
    (capacity id : ℕ) (limit : Limit) (s : Stream) (p : Packet) (rest : List ℕ)
    → IsValid s.buffer
    → Packet.is_call_request p ≡ true
    → held s ≡ line_encode p ++ rest
    → All InLine p.data_bytes
    → 5 ≤ length p.data_bytes
    → length p.data_bytes + 4 < capacity
    → let (d, s') = line_decode capacity id limit s in
      let q = line_packet id (take capacity (held s)) (length p.data_bytes + 4) in
      (d ≡ packet q)
      × (Packet.is_call_request q ≡ true)
      × (q.data_bytes ≡ p.data_bytes ++ request_end)
      × (held s' ≡ rest)
unfolding line_encode
line_decode_keeps_mark capacity id limit s p rest v call holds no_newline long room =
    let (answer, left, _) = line_decode_takes capacity id limit s line rest v shape in_line fits in
    let (_, taken, is_request) =
      line_packet_request id (length p.data_bytes + 4) bytes (omega arith) flags in
    (answer ∙ ap (λ n. packet (line_packet id bytes n)) whole, is_request, taken ∙ all_taken, left)
  where
    line : List ℕ
    line = request_begin ++ (p.data_bytes ++ request_end)

    bytes : List ℕ
    bytes = take capacity (held s)

    behind : List ℕ
    behind = 0x0a ∷ take (capacity - suc (length line)) rest

    size : length line ≡ length p.data_bytes + 4
    size = omega (arith, length-append p.data_bytes request_end)

    fits : length line < capacity
    fits = omega (arith, size)

    encoded : line_encode p ≡ line ++ (0x0a ∷ [])
    encoded = ground (arith, call)

    shape : held s ≡ line ++ (0x0a ∷ rest)
    shape = holds ∙ ap (λ t. t ++ rest) encoded ∙ append_assoc line (0x0a ∷ []) rest

    in_line : All InLine line
    in_line = (
      omega arith,
      (
        omega arith,
        All-append p.data_bytes request_end no_newline (omega arith, (omega arith, tt)),
      ),
    )

    shown : bytes ≡ request_begin ++ (p.data_bytes ++ (request_end ++ behind))
    shown =
        peeked_line capacity s line rest shape fits
        ∙ ap (λ t. request_begin ++ t) (append_assoc p.data_bytes request_end behind)

    whole : trimmed line (length line) ≡ length p.data_bytes + 4
    whole = ap (trimmed line) size ∙ ground (arith, last_framed 0x63 0x72 0x72 0x63 p.data_bytes)

    flags :
        line_flags bytes (length p.data_bytes + 4) (Packet.new_packet id)
        ≡ Packet.set_call_request (Packet.new_packet id) true
    flags =
        ap (λ t. line_flags t (length p.data_bytes + 4) (Packet.new_packet id)) shown
        ∙ flags_request id p.data_bytes behind long

    all_taken : take (length p.data_bytes + 4 - 2) (drop 2 bytes) ≡ p.data_bytes ++ request_end
    all_taken =
        ap (λ t. take (length p.data_bytes + 4 - 2) (drop 2 t))
          (shown
            ∙ ap (λ t. request_begin ++ t) (sym (append_assoc p.data_bytes request_end behind)))
        ∙ ap (λ n. take n ((p.data_bytes ++ request_end) ++ behind))
            {x = length p.data_bytes + 4 - 2} {y = length (p.data_bytes ++ request_end)}
            (omega (arith, length-append p.data_bytes request_end))
        ∙ take-append_length (p.data_bytes ++ request_end) behind
