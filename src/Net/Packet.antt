-- ===== src/Net/Packet.antt =====
-- A packet of framework/core/src/net/packet/basic.cc: a byte string with a read offset and flags.
-- A byte is a number below 256, and a `size_t` is a number: no string is as long as 2 ^ 64.
pub mod Flags
pub mod Bytes
mod Tests
use plain.Prelude.{
  ℕ, ◌+◌, ◌-◌, ◌%◌, ◌^◌, bit_and, bit_or, Bool, true, false, not, List, [], ◌∷◌, ◌++◌, length, take,
  drop, ltb, ◌==◌, if◌then◌else◌,
}
use plain.Endian.{four, hton, ntoh, to_memory, from_memory}

abbrev pub readable_flag : ℕ
readable_flag = 0

abbrev pub writeable_flag : ℕ
writeable_flag = 1

abbrev pub call_request_flag : ℕ
call_request_flag = 2

abbrev pub call_response_flag : ℕ
call_response_flag = 3

abbrev pub call_notify_flag : ℕ
call_notify_flag = 4

-- `Basic::Impl`
pub record Packet : Type 0 where
  pub id : ℕ
  pub data_bytes : List ℕ
  pub offset : ℕ
  pub flag : ℕ

-- `flag & (1 << type)`
unfoldable pub have_flag : Packet → ℕ → Bool
have_flag p type = not (bit_and p.flag (2 ^ type) == 0)

-- Both branches of `Impl::set_flag`: the second clears the bit of `kReadableFlag`, whatever the type.
unfoldable pub set_flag : Packet → Bool → ℕ → Packet
set_flag p on type =
    if on
    then record p { flag = bit_or p.flag (2 ^ type) % 256 }
    else record p { flag = bit_and p.flag (2 ^ 8 - 1 - 2 ^ readable_flag) }

unfoldable pub set_readable : Packet → Bool → Packet
unfolding set_flag
set_readable p on = set_flag p on readable_flag

unfoldable pub set_writeable : Packet → Bool → Packet
unfolding set_flag
set_writeable p on = set_flag p on writeable_flag

unfoldable pub set_call_request : Packet → Bool → Packet
unfolding set_flag
set_call_request p on = set_flag p on call_request_flag

unfoldable pub set_call_response : Packet → Bool → Packet
unfolding set_flag
set_call_response p on = set_flag p on call_response_flag

unfoldable pub set_call_notify : Packet → Bool → Packet
unfolding set_flag
set_call_notify p on = set_flag p on call_notify_flag

unfoldable pub is_call_request : Packet → Bool
unfolding have_flag
is_call_request p = have_flag p call_request_flag

unfoldable pub is_call_response : Packet → Bool
unfolding have_flag
is_call_response p = have_flag p call_response_flag

unfoldable pub is_call_notify : Packet → Bool
unfolding have_flag
is_call_notify p = have_flag p call_notify_flag

-- The constructor leaves the id as it finds it: the argument.
unfoldable pub new_packet : ℕ → Packet
new_packet id = record { id = id; data_bytes = []; offset = 0; flag = 0 }

unfoldable pub set_id : Packet → ℕ → Packet
set_id p id = record p { id = id }

-- `write(const std::byte *, size_t)`, and in the same words `write(const_byte_span_t)`.
unfoldable pub write_raw : Packet → List ℕ → ℕ × Packet
unfolding have_flag
write_raw p bytes =
    if have_flag p writeable_flag
    then (length bytes, record p { data_bytes = p.data_bytes ++ bytes })
    else (0, p)

-- `operator<<` of a `uint32_t`
unfoldable pub put32 : Bool → Packet → ℕ → Packet
unfolding write_raw hton to_memory
put32 big p n = (write_raw p (to_memory big 4 (hton big four n))).1

-- `write(const bytes_t &)`: the length in 32 bits, then the bytes.
unfoldable pub write_bytes : Bool → Packet → List ℕ → ℕ × Packet
unfolding have_flag put32
write_bytes big p bytes =
    let q = put32 big p (length bytes % 2 ^ 32) in
    if have_flag p writeable_flag
    then (length bytes, record q { data_bytes = q.data_bytes ++ bytes })
    else (0, p)

-- `write(std::string_view)`: as for bytes, but nothing for an empty string.
unfoldable pub write_string : Bool → Packet → List ℕ → ℕ × Packet
unfolding write_bytes
write_string big p str =
    if have_flag p writeable_flag
    then if length str == 0 then (0, p) else write_bytes big p str
    else (0, p)

-- `read(std::byte *, size_t)`: what was copied out, its number being the result.
unfoldable pub read_raw : Packet → ℕ → List ℕ × Packet
unfolding have_flag
read_raw p n =
    let left = length p.data_bytes - p.offset in
    if not (have_flag p readable_flag)
    then ([], p)
    else if ltb left n
    then ([], p)
    else (take n (drop p.offset p.data_bytes), record p { offset = p.offset + n })

-- `operator>>` of a `uint32_t`: it is 0 if nothing was read.
unfoldable pub get32 : Bool → Packet → ℕ × Packet
unfolding read_raw ntoh from_memory
get32 big p =
    let (bytes, q) = read_raw p 4 in
    (ntoh big four (if length bytes == 0 then 0 else from_memory big bytes), q)

-- `read(std::string &)` and `read(bytes_t &)` into `out`: the first appends what it reads, the
-- second puts it in front. The result is the size of the target, 0 on a failure.
module _ (join : List ℕ → List ℕ → List ℕ) where
  unfoldable pub read_joined : Bool → Packet → List ℕ → ℕ × List ℕ × Packet
  read_joined big p out =
      let (n, q) = get32 big p in
      let left = length q.data_bytes - q.offset in
      let result = join out (take n (drop q.offset q.data_bytes)) in
      if not (have_flag p readable_flag)
      then (0, out, p)
      else if n == 0
      then (0, out, q)
      else if ltb left n
      then (0, out, q)
      else (length result, result, record q { offset = q.offset + n })

unfoldable pub read_string : Bool → Packet → List ℕ → ℕ × List ℕ × Packet
read_string = read_joined (λ out bytes. out ++ bytes)

unfoldable pub read_bytes : Bool → Packet → List ℕ → ℕ × List ℕ × Packet
read_bytes = read_joined (λ out bytes. bytes ++ out)

unfoldable pub remove : Packet → ℕ → ℕ × Packet
remove p n =
    let left = length p.data_bytes - p.offset in
    if ltb left n
    then (left, record p { offset = p.offset + left })
    else (n, record p { offset = p.offset + n })
