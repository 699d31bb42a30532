-- ===== src/Net/Packet/Tests.antt =====
-- Packets on concrete bytes.
use plain.Prelude.{
  ◌≡◌, refl, true, false, not, ◌&&◌, ◌||◌, [], ◌∷◌, ◌++◌, ◌==◌, if◌then◌else◌, arith,
}
use plain.Endian.{be_bytes}
use plain.Net.Packet.{
  Packet, have_flag, set_flag, readable_flag, writeable_flag, write_bytes, read_bytes,
}
use plain.Net.Packet.Flags.{have_flag-set_flag}
use plain.Net.Packet.Bytes.{pending, read_bytes-write_bytes}

-- Readable and writeable, with all its bytes read.
abbrev open_packet : Packet
open_packet = record { id = 7; data_bytes = 1 ∷ 2 ∷ []; offset = 2; flag = 3 }

-- The same with two bytes behind their number, and one more.
abbrev filled : Packet
filled = record { id = 7; data_bytes = 0 ∷ 0 ∷ 0 ∷ 2 ∷ 65 ∷ 66 ∷ 67 ∷ []; offset = 0; flag = 3 }

open_flags : have_flag open_packet writeable_flag ≡ true
unfolding have_flag
open_flags = refl

open_readable : have_flag open_packet readable_flag ≡ true
unfolding have_flag
open_readable = refl

filled_readable : have_flag filled readable_flag ≡ true
unfolding have_flag
filled_readable = refl

filled_ahead : pending filled ≡ be_bytes 4 2 ++ ((65 ∷ 66 ∷ []) ++ (67 ∷ []))
unfolding be_bytes
filled_ahead = refl

have_flag-set_flag_example :
    have_flag (set_flag open_packet false writeable_flag) writeable_flag ≡ (
      if false
      then (writeable_flag == writeable_flag) || have_flag open_packet writeable_flag
      else not (writeable_flag == 0) && have_flag open_packet writeable_flag)
have_flag-set_flag_example =
    have_flag-set_flag open_packet false writeable_flag writeable_flag (omega arith) (omega arith)
      (omega arith)

read_bytes-write_bytes_example :
    let (n, result, q) = read_bytes false (write_bytes false open_packet (65 ∷ 66 ∷ [])).1 [] in
    (n ≡ 2) × (result ≡ 65 ∷ 66 ∷ []) × (pending q ≡ [])
read_bytes-write_bytes_example =
    read_bytes-write_bytes open_packet false (65 ∷ 66 ∷ []) open_flags open_readable refl
      (omega arith) (omega arith)
