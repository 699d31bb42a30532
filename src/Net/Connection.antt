-- ===== src/Net/Connection.antt =====
-- A connection, framework/core/src/net/connection/basic.cc: its work flags, its two streams and its
-- calls. The socket and the executor are outside: arguments say what they answer.
pub mod Flags
pub mod Commands
pub mod Calls
pub mod Errors
mod Tests
use plain.Prelude.{
  ℕ, zero, suc, ◌+◌, ◌-◌, ◌%◌, ◌^◌, bit_and, bit_or, Bool, true, false, not, ◌&&◌, ◌||◌, Option,
  none, some, List, [], ◌∷◌, ◌++◌, length, drop, ltb, leb, ◌==◌, if◌then◌else◌,
}
use plain.Prelude.Int.{ℤ, pos, negsuc}
use plain.Endian.{four, hton, to_memory}
use plain.Net.Packet
use plain.Net.Packet.{Packet}
use plain.Net.Stream
use plain.Net.Stream.{Stream, Received, Sent}
use plain.Net.Codec.{
  ErrorCode, Decoded, error, packet, run_time, packet_cant_fill, packet_invalid, packet_need_recv,
  rpc_response_id,
}

-- `std::to_underlying` of a `WorkFlag`
abbrev pub input_flag : ℕ
input_flag = 0

abbrev pub output_flag : ℕ
output_flag = 1

abbrev pub except_flag : ℕ
except_flag = 2

abbrev pub command_flag : ℕ
command_flag = 3

abbrev pub once_handle_packet_count : ℕ
once_handle_packet_count = 12

abbrev pub cant_peek_max_count : ℕ
cant_peek_max_count = 60

-- What the promise of a call was given: nothing so far, the exception of an error code, or an
-- `Unpacker` of the packet that answers the call. An `Unpacker` is a raw pointer and a size: where in
-- the bytes of that packet it begins, and how many there are. It holds no share of the packet.
pub data Answer : Type 0 where
  unanswered : Answer
  failed : ℕ → Answer
  answered : ℕ → ℕ → Answer

-- `call_t`: the name of the function and the promise.
pub record Call : Type 0 where
  pub name : List ℕ
  pub promise : Answer

-- `Basic::Impl`. The id is `none` for `kInvalidId`, and `valid` is that of the socket. `callings` has
-- the call of each index.
pub record Connection : Type 0 where
  pub id : Option ℕ
  pub valid : Bool
  pub istream : Stream
  pub ostream : Stream
  pub error_times : ℕ
  pub work_flags : ℕ
  pub working : Bool
  pub keep_alive : Bool
  pub call_index : ℕ
  pub callings : List (ℕ × Call)

unfoldable pub new_connection : Connection
new_connection = record {
  id = none;
  valid = false;
  istream = Stream.new_stream;
  ostream = Stream.new_stream;
  error_times = 0;
  work_flags = 0;
  working = false;
  keep_alive = false;
  call_index = 0;
  callings = [];
}

unfoldable pub has_work_flag : Connection → ℕ → Bool
has_work_flag c flag = not (bit_and c.work_flags (2 ^ flag) == 0)

-- `work_flags |= bit` and `work_flags &= ~bit` of a `uint8_t`
unfoldable pub set_work_flag : Connection → ℕ → Bool → Connection
set_work_flag c flag enable =
    if enable
    then record c { work_flags = bit_or c.work_flags (2 ^ flag) }
    else record c { work_flags = bit_and c.work_flags (2 ^ 8 - 1 - 2 ^ flag) }

unfoldable pub exchange_work_flag : Connection → ℕ → Bool → Bool × Connection
exchange_work_flag c flag enable =
    let r = has_work_flag c flag in
    elim r [
      | true ↦ (true, if enable then c else set_work_flag c flag enable)
      | false ↦ (false, if enable then set_work_flag c flag enable else c)
    ]

-- `close` of the socket answers whether it could be closed.
unfoldable pub init : Bool → Connection → Bool × Connection
init closed c =
    if closed
    then (
      true,
      record c {
        valid = false;
        working = false;
        work_flags = 0;
        istream = Stream.clear c.istream;
        ostream = Stream.clear c.ostream;
        callings = [];
        call_index = 0;
      },
    )
    else (false, c)

unfoldable pub idle : Connection → Bool
idle c = not c.valid || (c.work_flags == 0)

-- `close` of the connection: the socket's, if that is valid.
unfoldable pub close : Connection → Connection
close c = record c { valid = false }

unfoldable pub on_disconnect : Connection → Connection
on_disconnect c = record c {
  istream = Stream.clear c.istream;
  ostream = Stream.clear c.ostream;
  working = false;
}

-- `enqueue_work` with no coroutine: whether the manager is asked to enqueue the connection.
unfoldable pub enqueue_work : Connection → ℕ → Bool × Connection
enqueue_work c flag = let (had, c') = exchange_work_flag c flag true in (not had, c')

-- What `check_flag` does when `process_input` returns: `avail` is what the socket has then.
unfoldable pub check_input : ℕ → Connection → Connection
check_input avail c = if avail == 0 then set_work_flag c input_flag false else c

-- The result, the size that the manager's `recv_size` grows by, and the connection.
unfoldable pub process_input : ℕ → Received → Connection → Bool × ℕ × Connection
process_input avail outcome c =
    let (r, s) = Stream.pull true outcome c.istream in
    let c' = record c { istream = s } in
    if not (has_work_flag c input_flag)
    then (true, 0, c)
    else if not c.valid
    then (false, 0, check_input avail c)
    else elim r [
      | negsuc n ↦ (false, 0, check_input avail c')
      | pos n ↦ (true, n, check_input avail (set_work_flag c' command_flag true))
    ]

-- The result, the size for `send_size`, the connection, and what the socket has taken so far.
unfoldable pub process_output :
    (ℕ → ℕ → Sent) → Connection → List ℕ → Bool × ℕ × Connection × List ℕ
process_output outcome c wire =
    let (r, s, wire') = Stream.push true outcome c.ostream wire in
    let c' = record c { ostream = s } in
    if not (has_work_flag c output_flag)
    then (true, 0, c, wire)
    else if not c.valid
    then (false, 0, c, wire)
    else elim r [
      | negsuc n ↦ (false, 0, c', wire')
      | pos n ↦
          (true, n, if Stream.size s == 0 then set_work_flag c' output_flag false else c', wire')
    ]

unfoldable pub process_exception : Connection → Bool
process_exception c = true

-- What `check_flag` does when `process_command` returns.
unfoldable pub check_command : Connection → Connection
check_command c = if Stream.size c.istream == 0 then set_work_flag c command_flag false else c

-- `decode` is the codec's, and `handle` what becomes of a packet: it answers whether to go on.
module _ (decode : Stream → Decoded × Stream)
    (handle : Packet → Connection → Bool × Connection) where
  -- The loop over packets, with those handled so far: its result, those handled, the connection.
  unfoldable pub command_loop : ℕ → List Packet → Connection → Bool × List Packet × Connection
  command_loop zero handled c = (true, handled, record c { error_times = 0 })
  command_loop (suc rounds) handled c =
      let (d, s) = decode c.istream in
      let c' = record c { istream = s } in
      elim d [
        | error e ↦ elim e [
          | packet_cant_fill ↦ (
            true,
            handled,
            record (set_work_flag c' command_flag false) {
              error_times = (c.error_times + 1) % 256;
            },
          )
          | packet_need_recv ↦ (true, handled, set_work_flag c' command_flag false)
          | run_time ↦ (false, handled, c')
          | packet_invalid ↦ (false, handled, c')
        ]
        | packet p ↦
            let (ok, c'') = handle p c' in
            elim ok [
              | false ↦ (false, handled ++ (p ∷ []), c'')
              | true ↦ elim (Stream.size c''.istream == 0) [
                | true ↦ (true, handled ++ (p ∷ []), record c'' { error_times = 0 })
                | false ↦ command_loop rounds (handled ++ (p ∷ [])) c''
              ]
            ]
      ]

  unfoldable pub process_command : Connection → Bool × List Packet × Connection
  process_command c =
      let (r, handled, c') = command_loop once_handle_packet_count [] c in
      if not (has_work_flag c command_flag)
      then (true, [], c)
      else if Stream.size c.istream == 0
      then (true, [], check_command c)
      else if leb cant_peek_max_count c.error_times
      then (false, [], check_command c)
      else (r, handled, check_command c')

  -- `work`: the first step that fails ends it.
  unfoldable pub work :
      ℕ → Received → (ℕ → ℕ → Sent) → Connection → List ℕ → Bool × Connection × List ℕ
  work avail taken sent c wire =
      let (in_ok, _, c1) = process_input avail taken c in
      let (out_ok, _, c2, wire') = process_output sent c1 wire in
      let (command_ok, _, c3) = process_command c2 in
      if not (process_exception c)
      then (false, c, wire)
      else if not in_ok
      then (false, c1, wire)
      else if not out_ok
      then (false, c2, wire')
      else (command_ok, c3, wire')

-- `write`: the codec's `encode`, and the stream's `write`, which has to take all bytes.
unfoldable pub write : (Packet → List ℕ) → Packet → Connection → Bool × Connection
write encode p c =
    let bytes = encode p in
    let (n, s) = Stream.write c.ostream bytes in
    if length bytes == 0 then (false, c) else (n == length bytes, record c { ostream = s })

-- The result, whether the manager is asked to enqueue the connection, and the connection.
unfoldable pub send : (Packet → List ℕ) → Packet → Connection → Bool × Bool × Connection
send encode p c =
    let (r, c') = write encode p c in
    let (asked, c'') = enqueue_work c' output_flag in
    if r then (true, asked, c'') else (false, false, c')

unfoldable pub new_call_index : Connection → ℕ × Connection
new_call_index c =
    let index = (c.call_index + 1) % 2 ^ 32 in (index, record c { call_index = index })

unfoldable pub find_call : ℕ → List (ℕ × Call) → Option Call
find_call index [] = none
find_call index ((k, call) ∷ calls) =
    let later = find_call index calls in if index == k then some call else later

-- `emplace` of a map: an index that is there keeps its call.
abbrev pub emplace_call : ℕ → List ℕ → List (ℕ × Call) → List (ℕ × Call)
emplace_call index name calls = elim (find_call index calls) [
  | none ↦ calls ++ ((index, record { name = name; promise = unanswered }) ∷ [])
  | some _ ↦ calls
]

-- `send_call`, with a promise or without.
unfoldable pub send_call :
    (Packet → List ℕ) → Packet → ℕ → List ℕ → Bool → Connection → Bool × Bool × Connection
send_call encode p index name promised c =
    let (r, c') = write encode (Packet.set_call_request p true) c in
    let c'' =
      if r && promised then record c' { callings = emplace_call index name c'.callings } else c' in
    let (asked, c3) = enqueue_work c'' output_flag in
    if r then (true, asked, c3) else (false, false, c'')

-- The promise of the call at an index is set; the call stays in the map.
unfoldable pub set_promise : ℕ → Answer → List (ℕ × Call) → List (ℕ × Call)
set_promise index answer [] = []
set_promise index answer ((k, call) ∷ calls) =
    let rest = set_promise index answer calls in
    if index == k then (k, record call { promise = answer }) ∷ calls else (k, call) ∷ rest

abbrev pub is_unanswered : Answer → Bool
is_unanswered unanswered = true
is_unanswered (failed code) = false
is_unanswered (answered offset size) = false

-- How a function comes back: with its result, or by an exception.
pub data Exit : Type 0 where
  back : Bool → Exit
  thrown : Exit

-- With the packet as it was read and the connection. Of a promise that is set, `set_value` throws, and
-- so does `set_exception` in the handler.
unfoldable pub handle_rpc_response : Bool → Packet → Connection → Exit × Packet × Connection
handle_rpc_response big p c =
    let (index, p1) = Packet.get32 big p in
    let (code, p2) = Packet.get32 big p1 in
    let size = length p2.data_bytes - p2.offset in
    let answer = if code == 0 then answered p2.offset size else failed code in
    if index == 0 then (back true, p1, c) else elim (find_call index c.callings) [
      | none ↦ (back false, p2, c)
      | some call ↦
          if is_unanswered call.promise
          then (back true, p2, record c { callings = set_promise index answer c.callings })
          else (thrown, p2, c)
    ]

-- What the dispatcher of remote functions answers: an error code, not 0, or the packed result.
pub data Outcome : Type 0 where
  refused : ℕ → Outcome
  returned : List ℕ → Outcome

-- The packet that answers a request.
unfoldable pub response_packet : Bool → ℕ → Outcome → Packet
response_packet big index outcome =
    let p =
      Packet.set_call_response
        (Packet.set_writeable (Packet.set_id (Packet.new_packet 0) rpc_response_id) true) true in
    let q = Packet.put32 big p index in
    Packet.set_writeable
      (elim outcome [
        | refused code ↦ Packet.put32 big q code
        | returned bytes ↦ (Packet.write_raw (Packet.put32 big q 0) bytes).1
      ])
      false

-- `dispatch` is that of the manager's dispatcher, `none` if it has none. The result, whether the
-- manager is asked to enqueue, and the connection, into whose stream the response goes.
unfoldable pub handle_rpc_request :
    Bool
    → (Packet → List ℕ)
    → Option (Packet → Outcome)
    → Packet
    → Connection
    → Bool × Bool × Connection
handle_rpc_request big encode none p c = (true, false, c)
handle_rpc_request big encode (some dispatch) p c =
    let (index, q) = if Packet.is_call_request p then Packet.get32 big p else (0, p) in
    let (r, asked, c') = send encode (response_packet big index (dispatch q)) c in
    if Packet.is_call_request p then (true, asked, c') else (true, false, c)
