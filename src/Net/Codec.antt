-- ===== src/Net/Codec.antt =====
-- The codecs of framework/core/src/net/stream/codec.cc: packets with a binary head of 6 bytes, and
-- packets that end with a line. The streams and packets that the pointers name are values, so the
-- guards against a null pointer have no counterpart.
pub mod Head
pub mod Line
pub mod LineTrip
mod Tests
use plain.Prelude.{
  ℕ, zero, suc, ◌+◌, ◌-◌, ◌%◌, ◌^◌, Bool, true, false, not, ◌&&◌, ◌||◌, Option, none, some, List,
  [], ◌∷◌, ◌++◌, length, take, drop, get_or, ltb, leb, ◌==◌, if◌then◌else◌,
}
use plain.Endian.{two, four, hton, ntoh, to_memory, from_memory}
use plain.Net.Packet
use plain.Net.Packet.{Packet}
use plain.Net.Stream
use plain.Net.Stream.{Stream}

-- The codes of `plain::ErrorCode` that the decoders give.
pub data ErrorCode : Type 0 where
  run_time packet_cant_fill packet_invalid packet_need_recv : ErrorCode

-- `error_or_t<std::shared_ptr<packet::Basic>>`
pub data Decoded : Type 0 where
  error : ErrorCode → Decoded
  packet : Packet → Decoded

-- `packet::limit_t`
pub record Limit : Type 0 where
  pub max_id : ℕ
  pub max_length : ℕ

abbrev pub max_id : ℕ
max_id = 2 ^ 16 - 1

abbrev pub rpc_request_id : ℕ
rpc_request_id = 65534

abbrev pub rpc_response_id : ℕ
rpc_response_id = 65533

abbrev pub rpc_notify_id : ℕ
rpc_notify_id = 65532

-- `sizeof(head_t)`: a 16-bit id and a 32-bit length, packed.
abbrev pub header_size : ℕ
header_size = 6

unfoldable pub encode : Bool → Packet → List ℕ
encode big p =
    to_memory big 2 (hton big two p.id)
    ++ (to_memory big 4 (hton big four (length p.data_bytes % 2 ^ 32)) ++ p.data_bytes)

-- The flag that the id of a remote call sets.
unfoldable pub call_flag : ℕ → Packet → Packet
call_flag id p =
    if id == rpc_request_id
    then Packet.set_call_request p true
    else if id == rpc_response_id
    then Packet.set_call_response p true
    else if id == rpc_notify_id
    then Packet.set_call_notify p true
    else p

-- The packet that `decode` makes of its id and bytes.
unfoldable pub make_packet : ℕ → List ℕ → Packet
unfolding call_flag
make_packet id bytes =
    let p = Packet.set_writeable (Packet.set_id (Packet.new_packet 0) id) true in
    let q = Packet.set_writeable (Packet.write_raw p bytes).1 false in
    call_flag id (Packet.set_readable q true)

unfoldable pub decode : Bool → Limit → Stream → Decoded × Stream
unfolding make_packet
decode big limit s =
    let head = Stream.peek s header_size in
    let id = ntoh big two (from_memory big (take 2 head)) in
    let size = ntoh big four (from_memory big (drop 2 head)) in
    let (bytes, s') = Stream.read (Stream.remove s header_size).1 size in
    if not (length head == header_size)
    then (error packet_cant_fill, s)
    else if (id == 0) || ltb limit.max_id id || ltb limit.max_length size
    then (error packet_invalid, s)
    else if ltb (Stream.size s) (size + header_size)
    then (error packet_need_recv, s)
    else if not (length bytes == size)
    then (error run_time, s')
    else (packet (make_packet id bytes), s')

-- The marks of a remote call in a line, and the least sizes.
abbrev pub request_begin : List ℕ
request_begin = 0x63 ∷ 0x72 ∷ []

abbrev pub request_end : List ℕ
request_end = 0x72 ∷ 0x63 ∷ []

abbrev pub response_begin : List ℕ
response_begin = 0x63 ∷ 0x6f ∷ []

abbrev pub response_end : List ℕ
response_end = 0x6f ∷ 0x63 ∷ []

abbrev pub notify_begin : List ℕ
notify_begin = 0x63 ∷ 0x6e ∷ []

abbrev pub notify_end : List ℕ
notify_end = 0x6e ∷ 0x63 ∷ []

abbrev pub request_size_min : ℕ
request_size_min = 9

abbrev pub notify_size_min : ℕ
notify_size_min = 5

abbrev pub response_size_min : ℕ
response_size_min = 13

unfoldable pub line_encode : Packet → List ℕ
line_encode p =
    let r = p.data_bytes in
    (if Packet.is_call_request p
      then request_begin ++ (r ++ request_end)
      else if Packet.is_call_response p
      then response_begin ++ (r ++ response_end)
      else if Packet.is_call_notify p
      then notify_begin ++ (r ++ notify_end)
      else r)
    ++ (0x0a ∷ [])

-- `str.find('\n')`
unfoldable pub find_newline : List ℕ → Option ℕ
find_newline [] = none
find_newline (b ∷ bs) =
    let later = elim (find_newline bs) as (λ _. Option ℕ) [ none ↦ none | some i ↦ some (suc i) ] in
    if b == 0x0a then some 0 else later

unfoldable pub bytes_eq : List ℕ → List ℕ → Bool
bytes_eq [] [] = true
bytes_eq [] (y ∷ ys) = false
bytes_eq (x ∷ xs) [] = false
bytes_eq (x ∷ xs) (y ∷ ys) = (x == y) && bytes_eq xs ys

-- `bytes_t{bytes.data(), 2} == first && bytes_t{bytes.data() + pos - 2, 2} == last`, with the size.
unfoldable pub has_marks : List ℕ → ℕ → ℕ → List ℕ → List ℕ → Bool
unfolding bytes_eq
has_marks bytes pos least first last =
    leb least pos
    && (bytes_eq (take 2 bytes) first && bytes_eq (take 2 (drop (pos - 2) bytes)) last)

unfoldable pub line_flags : List ℕ → ℕ → Packet → Packet
unfolding has_marks
line_flags bytes pos p =
    if has_marks bytes pos request_size_min request_begin request_end
    then Packet.set_call_request p true
    else if has_marks bytes pos response_size_min response_begin response_end
    then Packet.set_call_response p true
    else if has_marks bytes pos notify_size_min notify_begin notify_end
    then Packet.set_call_notify p true
    else p

unfoldable pub is_call : Packet → Bool
is_call p = Packet.is_call_request p || Packet.is_call_response p || Packet.is_call_notify p

-- The packet of the `pos` first bytes, which are the line without its end.
unfoldable pub line_packet : ℕ → List ℕ → ℕ → Packet
unfolding line_flags is_call
line_packet id bytes pos =
    let p = line_flags bytes pos (Packet.new_packet id) in
    let w = Packet.set_writeable p true in
    let q =
      (Packet.write_raw w
        (if is_call w then take (pos - 2) (drop 2 bytes) else take pos bytes)).1 in
    Packet.set_readable (if ltb 0 pos then Packet.set_writeable q false else p) true

-- `capacity` is that of the buffer into which the stream is peeked, `id` what a new packet has.
unfoldable pub line_decode : ℕ → ℕ → Limit → Stream → Decoded × Stream
unfolding find_newline line_packet
line_decode capacity id limit s =
    let bytes = Stream.peek s capacity in
    let read = length bytes in
    if read == 0 then (error packet_need_recv, s) else elim (find_newline bytes) [
      | none ↦ if read == limit.max_length then (error run_time, s) else (error packet_need_recv, s)
      | some pos ↦
          let s' = (Stream.remove s (pos + 1)).1 in
          let end = if ltb 0 pos && (get_or bytes (pos - 1) 0 == 0x0d) then pos - 1 else pos in
          (packet (line_packet id bytes end), s')
    ]
