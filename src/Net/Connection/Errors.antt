-- ===== src/Net/Connection/Errors.antt =====
-- The count of errors of a connection.
use plain.Prelude.{ℕ, ◌≤◌, ◌<◌, ◌≡◌, refl, Bool, true, false, [], leb, ◌==◌, arith}
use plain.Net.Packet.{Packet}
use plain.Net.Stream
use plain.Net.Stream.{Stream}
use plain.Net.Codec.{Decoded}
use plain.Net.Connection.{
  Connection, init, has_work_flag, command_flag, cant_peek_max_count, process_command,
}

-- `init` keeps the count of errors: after 60 of them without a packet handled, a connection that is
-- taken again, whatever it then has received and whatever the codec and the handler are, fails at
-- its first `process_command` and handles no packet.
pub errors_outlive_init :
    (decode : Stream → Decoded × Stream) (handle : Packet → Connection → Bool × Connection)
    (c : Connection) (received : Stream) (flags : ℕ)
    → cant_peek_max_count ≤ c.error_times
    → 0 < Stream.size received
    → has_work_flag (record (init true c).1 { istream = received; work_flags = flags }) command_flag
      ≡ true
    → let taken = record (init true c).1 { istream = received; work_flags = flags } in
      let (r, handled, c') = process_command decode handle taken in (r ≡ false) × (handled ≡ [])
unfolding process_command init
errors_outlive_init decode handle c received flags errors some_received asked =
    let not_empty : (Stream.size received == 0) ≡ false = ground arith in
    let too_many : leb cant_peek_max_count c.error_times ≡ true = ground arith in
    simp (asked, not_empty, too_many) (refl, refl)
