-- ===== src/Net/Connection/Tests.antt =====
-- A connection that has received two packets.
use plain.Prelude.{
  ℕ, ◌+◌, ◌<◌, ◌≡◌, refl, inl, true, false, some, ◌≢◌, take, drop, List, [], ◌∷◌, ◌++◌, length, All,
  arith, Bool,
}
use plain.Ring
use plain.Ring.{Ring}
use plain.Ring.Invariant.{IsValid}
use plain.Net.Packet
use plain.Net.Packet.{Packet}
use plain.Net.Stream
use plain.Net.Stream.Flow.{held}
use plain.Net.Codec.{make_packet, Limit, encode, decode}
use plain.Ring.Window.{window}
use plain.Endian.{hton, to_memory}
use plain.Net.Codec.Head.{IsByte}
use plain.Net.Connection
use plain.Net.Connection.{
  init, find_call, response_packet, Outcome, refused, returned, answered, unanswered, Call, back,
  thrown, handle_rpc_response, Connection, process_command, has_work_flag, set_work_flag,
  exchange_work_flag, command_flag,
}
use plain.Net.Connection.Calls.{response_reaches_call}
use plain.Net.Connection.Flags.{exchange_work_flag_lem}
use plain.Net.Connection.Commands.{IsSendable, frames, received_packets, process_command_handles}

abbrev limit : Limit
limit = record { max_id = 65535; max_length = 64 }

-- A connection asked for its packets, which holds one of id 3 with the byte 65 and one of id 4
-- with none.
abbrev connection : Connection
connection = record Connection.new_connection {
  work_flags = 8;
  error_times = 2;
  istream = record {
    buffer = record {
      storage = Ring.dynamic 16;
      head = 13;
      tail = 0;
      size = 16;
      mask = 15;
      buffer = 0 ∷ 3 ∷ 0 ∷ 0 ∷ 0 ∷ 1 ∷ 65 ∷ 0 ∷ 4 ∷ 0 ∷ 0 ∷ 0 ∷ 0 ∷ 9 ∷ 0 ∷ 0 ∷ [];
    };
    encrypt_key = [];
    compressed = false;
  };
}

connection-IsValid : IsValid connection.istream.buffer
connection-IsValid = record {
  order = 4;
  small = omega arith;
  power = refl;
  masked = refl;
  cells = omega arith;
  head_in = omega arith;
  tail_in = omega arith;
  within = omega arith;
}

abbrev first_packet : Packet
first_packet = record { id = 3; data_bytes = 65 ∷ []; offset = 0; flag = 0 }

abbrev second_packet : Packet
second_packet = record { id = 4; data_bytes = []; offset = 0; flag = 0 }

sendable :
    (n : ℕ)
    → 0 < n
    → n < 5
    → (bytes : List ℕ) → length bytes < 2
    → IsSendable limit (record { id = n; data_bytes = bytes; offset = 0; flag = 0 })
sendable n h h' bytes few = record {
  some_id = h;
  id_in = omega arith;
  id_fits = omega arith;
  length_in = omega arith;
  length_fits = omega arith;
}

-- A handler that counts packets in the index of the calls.
abbrev counting : Packet → Connection → Bool × Connection
counting p c = (true, record c { call_index = c.call_index + 1 })

connection_asked : has_work_flag connection command_flag ≡ true
unfolding has_work_flag
connection_asked = refl

held_bytes : All IsByte (held connection.istream)
unfolding window
held_bytes = (
  omega arith,
  (
    omega arith,
    (
      omega arith,
      (
        omega arith,
        (
          omega arith,
          (
            omega arith,
            (
              omega arith,
              (
                omega arith,
                (omega arith, (omega arith, (omega arith, (omega arith, (omega arith, tt))))),
              ),
            ),
          ),
        ),
      ),
    ),
  ),
)

held-frames : held connection.istream ≡ frames true (first_packet ∷ second_packet ∷ []) ++ []
unfolding window encode to_memory hton
held-frames = refl

process_command_handles_example :
    let (r, handled, c') = process_command (decode true limit) counting connection in
    (r ≡ true)
    × (handled ≡ received_packets (first_packet ∷ second_packet ∷ []))
    × (held c'.istream ≡ [])
    × IsValid c'.istream.buffer
    × (c'.error_times ≡ 0)
process_command_handles_example =
    process_command_handles true limit counting (λ p c. (refl, refl)) connection first_packet
      (second_packet ∷ []) [] connection_asked (omega arith)
      (
        sendable 3 (omega arith) (omega arith) (65 ∷ []) (omega arith),
        (sendable 4 (omega arith) (omega arith) [] (omega arith), tt),
      )
      connection-IsValid held_bytes held-frames (omega arith) (inl refl)

exchange_work_flag_lem_example :
    let (had, c') = exchange_work_flag connection 3 false in
    (had ≡ has_work_flag connection 3) × (has_work_flag c' 3 ≡ false)
exchange_work_flag_lem_example =
    exchange_work_flag_lem connection 3 false (omega arith) (omega arith)

-- The connection after 60 errors.
abbrev worn : Connection
worn = record connection { error_times = 60 }

received_bytes : 0 < Stream.size connection.istream
unfolding Stream.size Ring.read_avail
received_bytes = omega arith

worn_asked :
    has_work_flag
      (record (init true worn).1 { istream = connection.istream; work_flags = 8 })
      command_flag
    ≡ true
unfolding has_work_flag init
worn_asked = refl

-- A call that waits at the index 7.
abbrev waiting_call : Call
waiting_call = record { name = 102 ∷ []; promise = unanswered }

abbrev calling : Connection
calling = record connection { callings = (7, waiting_call) ∷ [] }

response_reaches_call_example :
    let p = response_packet true 7 (returned (1 ∷ 2 ∷ [])) in
    let p' = response_packet true 7 (refused 5) in
    let q = make_packet p.id p.data_bytes in
    let (exit, read, c') = handle_rpc_response false q calling in
    (Packet.is_call_response q ≡ true)
    × (exit ≡ back true)
    × (find_call 7 c'.callings ≡ some (record waiting_call { promise = answered 8 2 }))
    × ((k : ℕ) → k ≢ 7 → find_call k c'.callings ≡ find_call k calling.callings)
    × (take 2 (drop 8 read.data_bytes) ≡ 1 ∷ 2 ∷ [])
    × ((handle_rpc_response false (make_packet p'.id p'.data_bytes) c').0 ≡ thrown)
unfolding find_call
response_reaches_call_example =
    response_reaches_call true false 7 (returned (1 ∷ 2 ∷ [])) (refused 5) calling waiting_call
      (omega arith) (omega arith) (omega arith) (omega arith) refl refl
