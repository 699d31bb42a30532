-- ===== src/Net/Codec/Head.antt =====
-- The codec with a binary head: `decode` as a function of the bytes held, and `encode` then `decode`.
use plain.Prelude.{
  ℕ, ◌+◌, ◌%◌, ◌^◌, ◌≤◌, ◌<◌, ◌≡◌, ◌∙◌, refl, sym, ap, ap₂, inl, inr, Bool, true, false, not, ◌||◌,
  List, ◌∷◌, ◌++◌, length, length-append, length-take, length-drop, take, drop, take-append_length,
  drop-append_length, All, ltb, ◌==◌, if◌then◌else◌, Bool-cases, arith,
}
use plain.Endian.{two, four, be_bytes, be_value, ntoh, from_memory}
use plain.Endian.Swap.{
  memory-hton16, memory-hton32, ntoh16-memory, ntoh32-memory, be_value-be_bytes2,
  be_value-be_bytes4,
}
use plain.Ring
use plain.Ring.Invariant.{IsValid, length-contents}
use plain.Ring.Read.{read_takes, remove_count_drops}
use plain.Net.Packet
use plain.Net.Packet.{Packet}
use plain.Net.Stream
use plain.Net.Stream.{Stream, blank}
use plain.Net.Stream.Flow.{held}
use plain.Net.Codec.{
  Limit, Decoded, error, packet, packet_cant_fill, packet_invalid, packet_need_recv, rpc_request_id,
  rpc_response_id, rpc_notify_id, encode, make_packet, decode,
}
use native.Mathlib.Decide.{dec_lt}

abbrev pub IsByte : ℕ → Type 0
IsByte b = b < 256

-- What a decoder should make of the bytes held: its answer, and the bytes that stay.
unfoldable pub parse : Limit → List ℕ → Decoded × List ℕ
parse limit c =
    let id = be_value 0 (take 2 c) in
    let size = be_value 0 (take 4 (drop 2 c)) in
    if ltb (length c) 6
    then (error packet_cant_fill, c)
    else if (id == 0) || ltb limit.max_id id || ltb limit.max_length size
    then (error packet_invalid, c)
    else if ltb (length c) (size + 6)
    then (error packet_need_recv, c)
    else (packet (make_packet id (take size (drop 6 c))), drop size (drop 6 c))

module _ (big : Bool) where
  head_id :
      (c : List ℕ)
      → 6 ≤ length c
      → All IsByte c
      → ntoh big two (from_memory big (take 2 (take 6 c))) ≡ be_value 0 (take 2 c)
  head_id (a ∷ b ∷ x ∷ y ∷ z ∷ w ∷ c) h q = ntoh16-memory big a b q.0 q.1.0
  head_id _ h bytes = absurd (omega arith)

  head_size :
      (c : List ℕ)
      → 6 ≤ length c
      → All IsByte c
      → ntoh big four (from_memory big (drop 2 (take 6 c))) ≡ be_value 0 (take 4 (drop 2 c))
  head_size (a ∷ b ∷ x ∷ y ∷ z ∷ w ∷ c) h q =
      let r = q.1.1 in ntoh32-memory big x y z w r.0 r.1.0 r.1.1.0 r.1.1.1.0
  head_size _ h bytes = absurd (omega arith)

module _ (s : Stream) (v : IsValid s.buffer) where
  pub peek-held : (n : ℕ) → Stream.peek s n ≡ take n (held s)
  unfolding Stream.peek
  peek-held n = ap (λ t. t.0) (read_takes blank v n).0

  pub size_held : Stream.size s ≡ length (held s)
  unfolding Stream.size Ring.read_avail
  size_held = sym (length-contents blank s.buffer)

  pub remove-held : (n : ℕ) → held (Stream.remove s n).1 ≡ drop n (held s)
  unfolding Stream.remove
  remove-held n = (remove_count_drops blank v n).1

  pub remove-IsValid : (n : ℕ) → IsValid (Stream.remove s n).1.buffer
  unfolding Stream.remove
  remove-IsValid n = (remove_count_drops blank v n).2

  read-held :
      (n : ℕ)
      → let (bytes, s') = Stream.read s n in
        (bytes ≡ take n (held s)) × (held s' ≡ drop n (held s)) × IsValid s'.buffer
  unfolding Stream.read
  read-held n = let (_, bytes, rest, valid) = read_takes blank v n in (bytes, rest, valid)

-- The tests of `decode` after the head, and those of `parse`: the answer and the stream.
module _ (big : Bool) (limit : Limit) (s : Stream) (v : IsValid s.buffer)
    (bytes : All IsByte (held s)) (long : 6 ≤ length (held s)) where
  id_held : ntoh big two (from_memory big (take 2 (Stream.peek s 6))) ≡ be_value 0 (take 2 (held s))
  id_held =
      ap (λ t. ntoh big two (from_memory big (take 2 t))) (peek-held s v 6)
      ∙ head_id big (held s) long bytes

  length_held :
      ntoh big four (from_memory big (drop 2 (Stream.peek s 6)))
      ≡ be_value 0 (take 4 (drop 2 (held s)))
  length_held =
      ap (λ t. ntoh big four (from_memory big (drop 2 t))) (peek-held s v 6)
      ∙ head_size big (held s) long bytes

  decode_long :
      let (d, s') = decode big limit s in ((d, held s') ≡ parse limit (held s)) × IsValid s'.buffer
  unfolding decode parse
  decode_long =
      let full : not (length (Stream.peek s 6) == 6) ≡ false =
        ground (arith, ap length (peek-held s v 6), length-take 6 (held s)) in
      let enough : ltb (length (held s)) 6 ≡ false = ground arith in
      rw (full, enough, id_held, length_held, size_held s v)
        (elim (Bool-cases refused) [
          | inl bad ↦ rw bad (refl, v)
          | inr good ↦ rw good (elim (Bool-cases (ltb (length (held s)) (size + 6))) [
            | inl part ↦ rw part (refl, v)
            | inr whole ↦
                rw (whole, all_read whole)
                  (ap₂ (λ b r. (packet (make_packet id b), r)) taken left, valid)
          ])
        ])
    where
      id : ℕ
      id = be_value 0 (take 2 (held s))

      size : ℕ
      size = be_value 0 (take 4 (drop 2 (held s)))

      refused : Bool
      refused = (id == 0) || ltb limit.max_id id || ltb limit.max_length size

      behind : Stream
      behind = (Stream.remove s 6).1

      taken : (Stream.read behind size).0 ≡ take size (drop 6 (held s))
      taken = (read-held behind (remove-IsValid s v 6) size).0 ∙ ap (take size) (remove-held s v 6)

      left : held (Stream.read behind size).1 ≡ drop size (drop 6 (held s))
      left = (read-held behind (remove-IsValid s v 6) size).1 ∙ ap (drop size) (remove-held s v 6)

      valid : IsValid (Stream.read behind size).1.buffer
      valid = (read-held behind (remove-IsValid s v 6) size).2

      all_read :
          ltb (length (held s)) (size + 6) ≡ false
          → not (length (Stream.read behind size).0 == size) ≡ false
      all_read whole = ground (
        arith,
        ap length taken,
        length-take size (drop 6 (held s)),
        length-drop 6 (held s),
        whole,
      )

-- `decode` of a stream with a valid buffer that holds bytes answers as `parse` does, leaves the
-- bytes that `parse` leaves, on every branch, and keeps the buffer valid.
pub decode_refines :
    (big : Bool) (limit : Limit) (s : Stream)
    → IsValid s.buffer
    → All IsByte (held s)
    → let (d, s') = decode big limit s in ((d, held s') ≡ parse limit (held s)) × IsValid s'.buffer
unfolding decode parse
decode_refines big limit s v bytes = elim (dec_lt (length (held s)) 6) [
  | yes short ↦
      let part : not (length (Stream.peek s 6) == 6) ≡ true =
        ground (arith, ap length (peek-held s v 6), length-take 6 (held s)) in
      let few : ltb (length (held s)) 6 ≡ true = ground arith in rw (part, few) (refl, v)
  | no long ↦ decode_long big limit s v bytes (omega arith)
]

-- The packet that `decode` makes has the id and the bytes, nothing of it is read, it is readable
-- and, though `decode` switches that off, writeable, and it is a call by its id alone.
pub make_packet_lem :
    (id : ℕ) (bytes : List ℕ)
    → let p = make_packet id bytes in
      (p.id ≡ id)
      × (p.data_bytes ≡ bytes)
      × (p.offset ≡ 0)
      × (Packet.have_flag p Packet.readable_flag ≡ true)
      × (Packet.have_flag p Packet.writeable_flag ≡ true)
      × (Packet.is_call_request p ≡ (id == rpc_request_id))
      × (Packet.is_call_response p ≡ (id == rpc_response_id))
      × (Packet.is_call_notify p ≡ (id == rpc_notify_id))
unfolding make_packet Packet.new_packet Packet.set_id Packet.set_writeable Packet.set_readable
    Packet.write_raw Packet.set_call_request Packet.set_call_response Packet.set_call_notify
    Packet.is_call_request Packet.is_call_response Packet.is_call_notify
make_packet_lem id bytes = ground arith

encode-be_bytes :
    (big : Bool) (p : Packet)
    → p.id < 2 ^ 16
    → encode big p ≡ be_bytes 2 p.id ++ (be_bytes 4 (length p.data_bytes % 2 ^ 32) ++ p.data_bytes)
unfolding encode
encode-be_bytes big p h =
    ap₂ (λ a b. a ++ (b ++ p.data_bytes)) (memory-hton16 big p.id h)
      (memory-hton32 big (length p.data_bytes % 2 ^ 32) (omega arith))

parse_encoded :
    (limit : Limit) (id : ℕ) (payload rest : List ℕ)
    → 0 < id
    → id ≤ limit.max_id
    → id < 2 ^ 16
    → length payload ≤ limit.max_length
    → length payload < 2 ^ 32
    → parse limit ((be_bytes 2 id ++ (be_bytes 4 (length payload) ++ payload)) ++ rest)
      ≡ (packet (make_packet id payload), rest)
unfolding parse be_bytes
parse_encoded limit id payload rest some_id id_ok id_fits size_ok size_fits =
    let few : ltb (length all) 6 ≡ false = ground (arith, total) in
    let good : ((id == 0) || ltb limit.max_id id || ltb limit.max_length (length payload)) ≡ false =
      ground arith in
    let enough : ltb (length all) (length payload + 6) ≡ false = ground (arith, total) in
    rw
      (
        few,
        be_value-be_bytes2 id id_fits,
        be_value-be_bytes4 (length payload) size_fits,
        good,
        enough,
      )
      (ap₂ (λ b r. (packet (make_packet id b), r)) (take-append_length payload rest)
        (drop-append_length payload rest))
  where
    all : List ℕ
    all = (be_bytes 2 id ++ (be_bytes 4 (length payload) ++ payload)) ++ rest

    total : length all ≡ 6 + length payload + length rest
    total = omega (arith, length-append payload rest)

-- What `encode` writes, `decode` reads back: from a stream with a valid buffer that holds an
-- encoded packet, whose id is not 0 and whose id and length keep the limits, and then other bytes,
-- `decode` makes a packet of the same id and bytes, of which nothing is read, readable, and a call
-- just if the id is that of a call, and leaves the other bytes held.
pub decode-encode :
    (big : Bool) (limit : Limit) (s : Stream) (p : Packet) (rest : List ℕ)
    → IsValid s.buffer
    → All IsByte (held s)
    → held s ≡ encode big p ++ rest
    → 0 < p.id
    → p.id ≤ limit.max_id
    → p.id < 2 ^ 16
    → length p.data_bytes ≤ limit.max_length
    → length p.data_bytes < 2 ^ 32
    → let (d, s') = decode big limit s in
      let q = make_packet p.id p.data_bytes in
      (d ≡ packet q)
      × (held s' ≡ rest)
      × IsValid s'.buffer
      × (q.id ≡ p.id)
      × (q.data_bytes ≡ p.data_bytes)
      × (q.offset ≡ 0)
      × (Packet.have_flag q Packet.readable_flag ≡ true)
      × (Packet.is_call_request q ≡ (p.id == rpc_request_id))
      × (Packet.is_call_response q ≡ (p.id == rpc_response_id))
      × (Packet.is_call_notify q ≡ (p.id == rpc_notify_id))
decode-encode big limit s p rest v bytes e some_id id_ok id_fits size_ok size_fits =
    let (answer, valid) = decode_refines big limit s v bytes in
    let word : length p.data_bytes % 2 ^ 32 ≡ length p.data_bytes = omega arith in
    let parsed =
      answer
      ∙ ap (parse limit) (
          e
          ∙ ap (λ t. t ++ rest) (encode-be_bytes big p id_fits)
          ∙ ap (λ k. (be_bytes 2 p.id ++ (be_bytes 4 k ++ p.data_bytes)) ++ rest) word)
      ∙ parse_encoded limit p.id p.data_bytes rest some_id id_ok id_fits size_ok size_fits in
    let (id, content, start, readable, _, request, response, notify) =
      make_packet_lem p.id p.data_bytes in
    (
      ap (λ t. t.0) parsed,
      ap (λ t. t.1) parsed,
      valid,
      id,
      content,
      start,
      readable,
      request,
      response,
      notify,
    )
