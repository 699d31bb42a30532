-- ===== src/Net/Stream.antt =====
-- The stream of framework/core/src/net/stream/basic.cc: a growing ring of bytes between a socket
-- and the codecs. The socket is outside: an argument says whether the weak pointer still gives a
-- valid one, and what its calls return.
pub mod Flow
mod Tests
use plain.Prelude.{
  ℕ, zero, suc, ◌+◌, ◌-◌, ◌*◌, Bool, true, false, not, List, [], ◌++◌, length, take, drop, ltb, leb,
  ◌==◌, if◌then◌else◌,
}
use plain.Prelude.Int.{ℤ, pos, negsuc}
use plain.Ring
use plain.Ring.{Ring}

-- The value of a new byte.
abbrev pub blank : ℕ
blank = 0

pub record Stream : Type 0 where
  pub buffer : Ring ℕ
  pub encrypt_key : List ℕ
  pub compressed : Bool

-- `DynamicRing<std::byte, 128> buffer`
unfoldable pub new_stream : Stream
new_stream = record { buffer = Ring.dynamic_ring blank 128; encrypt_key = []; compressed = false }

unfoldable pub full : Stream → Bool
full s = Ring.full s.buffer

unfoldable pub empty : Stream → Bool
empty s = Ring.empty s.buffer

unfoldable pub size : Stream → ℕ
size s = Ring.read_avail s.buffer

unfoldable pub clear : Stream → Stream
clear s = record s { buffer = Ring.consumer_clear s.buffer }

unfoldable pub encrypted : Stream → Bool
encrypted s = not (length s.encrypt_key == 0)

unfoldable pub set_encrypt : Stream → List ℕ → Stream
set_encrypt s key = record s { encrypt_key = key }

unfoldable pub set_compress : Stream → Bool → Stream
set_compress s on = record s { compressed = on }

-- The three overloads of `write` hand their bytes on, and ask for all to be written.
unfoldable pub write : Stream → List ℕ → ℕ × Stream
write s bytes = let (n, r) = Ring.write blank s.buffer bytes true in (n, record s { buffer = r })

-- The overloads of `read` differ in where the length comes from.
unfoldable pub read : Stream → ℕ → List ℕ × Stream
read s n = let (bytes, r) = Ring.read blank s.buffer n false in (bytes, record s { buffer = r })

unfoldable pub remove : Stream → ℕ → ℕ × Stream
remove s n = let (k, r) = Ring.remove_count s.buffer n in (k, record s { buffer = r })

unfoldable pub peek : Stream → ℕ → List ℕ
peek s n = (Ring.read blank s.buffer n true).0

-- What `socket->recv` returns: an error, the end of the connection (0), or bytes.
pub data Received : Type 0 where
  recv_would_block recv_error recv_closed : Received
  received : List ℕ → Received

-- `kSocketError` is -1, so the results are 0, -2, -3, -4 or a number of bytes.
unfoldable pub pull : Bool → Received → Stream → ℤ × Stream
pull false outcome s = (pos 0, s)
pull true recv_would_block s = (pos 0, s)
pull true recv_error s = (negsuc 1, s)
pull true recv_closed s = (negsuc 2, s)
pull true (received bytes) s =
    let (n, r) = Ring.write blank s.buffer bytes false in
    let s' = record s { buffer = r } in if ltb n (length bytes) then (negsuc 3, s') else (pos n, s')

-- What `socket->send` returns: an error, or how many of the first bytes it took.
pub data Sent : Type 0 where
  send_would_block send_error : Sent
  sent : ℕ → Sent

-- The loop of `push`: `outcome i n` is what the call in round `i` returns when it is offered `n`
-- bytes, `bytes` is the temporary copy, and `wire` all that the socket took so far.
unfoldable pub push_loop :
    (ℕ → ℕ → Sent) → List ℕ → ℕ → ℕ → ℕ → Ring ℕ → List ℕ → ℤ × Ring ℕ × List ℕ
push_loop outcome bytes zero i real r wire = (pos real, r, wire)
push_loop outcome bytes (suc rounds) i real r wire = elim (leb (length bytes) real) [
  | true ↦ (pos real, r, wire)
  | false ↦ elim (outcome i (length bytes - real)) [
    | send_would_block ↦ (pos real, r, wire)
    | send_error ↦ (negsuc 1, r, wire)
    | sent n ↦ elim (n == 0) [
      | true ↦ (pos real, r, wire)
      | false ↦
          push_loop outcome bytes rounds (i + 1) (real + n) (Ring.remove_count r n).1
            (wire ++ take n (drop real bytes))
    ]
  ]
]

-- One call sends 1 MiB at most, in at most 99 rounds.
unfoldable pub push : Bool → (ℕ → ℕ → Sent) → Stream → List ℕ → ℤ × Stream × List ℕ
push valid outcome s wire =
    let avail = Ring.read_avail s.buffer in
    let send_size = if ltb (1024 * 1024) avail then 1024 * 1024 else avail in
    let bytes = (Ring.read blank s.buffer send_size true).0 in
    let (result, r, wire') = push_loop outcome bytes 99 0 0 s.buffer wire in
    if not valid
    then (pos 0, s, wire)
    else if avail == 0
    then (pos 0, s, wire)
    else (result, record s { buffer = r }, wire')
