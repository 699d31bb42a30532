-- ===== src/Net/Codec/Tests.antt =====
-- The codecs on a stream that holds a whole packet or line.
use plain.Prelude.{ℕ, ◌≡◌, refl, true, false, List, [], ◌∷◌, ◌++◌, All, arith}
use plain.Ring
use plain.Ring.{Ring}
use plain.Ring.Window.{window}
use plain.Ring.Invariant.{IsValid}
use plain.Endian.{hton, to_memory}
use plain.Net.Packet
use plain.Net.Packet.{Packet}
use plain.Net.Stream.{Stream}
use plain.Net.Stream.Flow.{held}
use plain.Net.Codec.{Limit, packet, encode, make_packet, decode, line_encode, is_call}
use plain.Net.Codec.Head.{IsByte, parse, decode_refines, decode-encode}

abbrev limit : Limit
limit = record { max_id = 65535; max_length = 64 }

-- A stream of 16 cells that holds the first `n` of them.
abbrev stream_of : List ℕ → ℕ → Stream
stream_of cells n = record {
  buffer = record {
    storage = Ring.dynamic 16;
    head = n;
    tail = 0;
    size = 16;
    mask = 15;
    buffer = cells;
  };
  encrypt_key = [];
  compressed = false;
}

-- The packet of id 3 with the bytes 65 and 66, and one byte more.
abbrev packet_stream : Stream
packet_stream = stream_of (0 ∷ 3 ∷ 0 ∷ 0 ∷ 0 ∷ 2 ∷ 65 ∷ 66 ∷ 9 ∷ 0 ∷ 0 ∷ 0 ∷ 0 ∷ 0 ∷ 0 ∷ 0 ∷ []) 9

-- The line "AB", and one byte more.
abbrev line_stream : Stream
line_stream = stream_of (65 ∷ 66 ∷ 10 ∷ 9 ∷ 0 ∷ 0 ∷ 0 ∷ 0 ∷ 0 ∷ 0 ∷ 0 ∷ 0 ∷ 0 ∷ 0 ∷ 0 ∷ 0 ∷ []) 4

-- The line of a request with the bytes "ABCDE", and one byte more.
abbrev request_stream : Stream
request_stream =
    stream_of (0x63 ∷ 0x72 ∷ 65 ∷ 66 ∷ 67 ∷ 68 ∷ 69 ∷ 0x72 ∷ 0x63 ∷ 10 ∷ 9 ∷ 0 ∷ 0 ∷ 0 ∷ 0 ∷ 0 ∷ [])
      11

abbrev small_packet : Packet
small_packet = record { id = 3; data_bytes = 65 ∷ 66 ∷ []; offset = 0; flag = 0 }

abbrev request_packet : Packet
request_packet = record { id = 3; data_bytes = 65 ∷ 66 ∷ 67 ∷ 68 ∷ 69 ∷ []; offset = 0; flag = 4 }

packet_stream-IsValid : IsValid packet_stream.buffer
packet_stream-IsValid = record {
  order = 4;
  small = omega arith;
  power = refl;
  masked = refl;
  cells = omega arith;
  head_in = omega arith;
  tail_in = omega arith;
  within = omega arith;
}

line_stream-IsValid : IsValid line_stream.buffer
line_stream-IsValid = record {
  order = 4;
  small = omega arith;
  power = refl;
  masked = refl;
  cells = omega arith;
  head_in = omega arith;
  tail_in = omega arith;
  within = omega arith;
}

request_stream-IsValid : IsValid request_stream.buffer
request_stream-IsValid = record {
  order = 4;
  small = omega arith;
  power = refl;
  masked = refl;
  cells = omega arith;
  head_in = omega arith;
  tail_in = omega arith;
  within = omega arith;
}

packet_bytes : All IsByte (held packet_stream)
unfolding window
packet_bytes = omega arith

packet_holds : held packet_stream ≡ encode false small_packet ++ (9 ∷ [])
unfolding window encode to_memory hton
packet_holds = refl

line_holds : held line_stream ≡ line_encode small_packet ++ (9 ∷ [])
unfolding window line_encode Packet.is_call_request Packet.is_call_response Packet.is_call_notify
line_holds = refl

request_holds : held request_stream ≡ line_encode request_packet ++ (9 ∷ [])
unfolding window line_encode Packet.is_call_request
request_holds = refl

small_no_call : is_call small_packet ≡ false
unfolding is_call Packet.is_call_request Packet.is_call_response Packet.is_call_notify
small_no_call = refl

request_call : Packet.is_call_request request_packet ≡ true
unfolding Packet.is_call_request
request_call = refl

line_shape : held line_stream ≡ (65 ∷ 66 ∷ []) ++ (0x0a ∷ (9 ∷ []))
unfolding window
line_shape = refl

decode_refines_example :
    let (d, s') = decode false limit packet_stream in
    ((d, held s') ≡ parse limit (held packet_stream)) × IsValid s'.buffer
decode_refines_example = decode_refines false limit packet_stream packet_stream-IsValid packet_bytes

decode-encode_example :
    let (d, s') = decode false limit packet_stream in
    let q = make_packet 3 (65 ∷ 66 ∷ []) in
    (d ≡ packet q)
    × (held s' ≡ 9 ∷ [])
    × IsValid s'.buffer
    × (q.id ≡ 3)
    × (q.data_bytes ≡ 65 ∷ 66 ∷ [])
    × (q.offset ≡ 0)
    × (Packet.have_flag q Packet.readable_flag ≡ true)
    × (Packet.is_call_request q ≡ false)
    × (Packet.is_call_response q ≡ false)
    × (Packet.is_call_notify q ≡ false)
decode-encode_example =
    decode-encode false limit packet_stream small_packet (9 ∷ []) packet_stream-IsValid packet_bytes
      packet_holds (omega arith) (omega arith) (omega arith) (omega arith) (omega arith)
