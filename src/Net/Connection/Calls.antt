-- ===== src/Net/Connection/Calls.antt =====
-- A remote call, from the answer that is made for it to the promise of the caller.
use plain.Prelude.{
  ℕ, ◌+◌, ◌^◌, ◌<◌, ◌≡◌, ◌∙◌, refl, sym, ap, ap₂, Bool, true, false, Option, some, List, [], ◌++◌,
  length, length-drop, take, take_all, ◌-◌, ◌≢◌, ◌∷◌, append-nil, append_assoc, drop, ◌==◌,
  if◌then◌else◌, Bool-cases, inl, inr, arith,
}
use mathlib.Core.Option.{none-ne-some, some-injective}
use plain.Endian.{be_bytes}
use plain.Net.Packet
use plain.Net.Packet.{Packet}
use plain.Net.Packet.Bytes.{extended, put32_on, write_raw_on, get32_number, pending_number}
use plain.Net.Codec.{make_packet, rpc_response_id}
use plain.Net.Codec.Head.{make_packet_lem}
use plain.Net.Connection.{
  Connection, Call, find_call, set_promise, Answer, unanswered, answered, failed, is_unanswered,
  back, thrown, handle_rpc_response, Outcome, refused, returned, response_packet,
}

-- The error code of an outcome, and the bytes.
abbrev pub code_of : Outcome → ℕ
code_of (refused code) = code
code_of (returned bytes) = 0

abbrev pub bytes_of : Outcome → List ℕ
bytes_of (refused code) = []
bytes_of (returned bytes) = bytes

-- What the promise of a call is to be given: the bytes behind an index and an error code.
abbrev pub promised : Outcome → Answer
promised (refused code) = if code == 0 then answered 8 0 else failed code
promised (returned bytes) = answered 8 (length bytes)

module _ (big : Bool) (p : Packet) (w : Packet.have_flag p Packet.writeable_flag ≡ true)
    (index code : ℕ) (h : index < 2 ^ 32) (h' : code < 2 ^ 32) where
  head : List ℕ
  head = be_bytes 4 index ++ be_bytes 4 code

  put_head : Packet.put32 big (Packet.put32 big p index) code ≡ extended p head
  unfolding Packet.have_flag head
  put_head =
      ap (λ q. Packet.put32 big q code) (put32_on p big w index h)
      ∙ put32_on (extended p (be_bytes 4 index)) big w code h'
      ∙ ap (λ l. record p { data_bytes = l })
          (append_assoc p.data_bytes (be_bytes 4 index) (be_bytes 4 code))

  put_bytes :
      (bytes : List ℕ)
      → (Packet.write_raw (Packet.put32 big (Packet.put32 big p index) code) bytes).1
        ≡ extended (extended p head) bytes
  unfolding Packet.have_flag
  put_bytes bytes =
      ap (λ q. (Packet.write_raw q bytes).1) put_head
      ∙ ap (λ t. t.1) (write_raw_on (extended p head) bytes w)

-- The packet of an answer before anything is written.
blank : Packet
blank = record { id = rpc_response_id; data_bytes = []; offset = 0; flag = 10 }

blank_writeable : Packet.have_flag blank Packet.writeable_flag ≡ true
unfolding blank Packet.have_flag
blank_writeable = refl

-- The packet that answers a request: the index and the error code, each in 32 bits and highest byte
-- first, and then the bytes.
pub response_packet_lem :
    (big : Bool) (index : ℕ) (outcome : Outcome)
    → index < 2 ^ 32
    → code_of outcome < 2 ^ 32
    → let p = response_packet big index outcome in
      (p.id ≡ rpc_response_id)
      × (p.data_bytes ≡ be_bytes 4 index ++ (be_bytes 4 (code_of outcome) ++ bytes_of outcome))
unfolding response_packet Packet.set_call_response Packet.set_writeable Packet.set_id
    Packet.new_packet blank head
response_packet_lem big index (refused code) h h' =
    let e = put_head big blank blank_writeable index code h h' in
    (
      ap (λ q. q.id) e,
      ap (λ q. q.data_bytes) e
          ∙ ap (λ l. be_bytes 4 index ++ l) (sym (append-nil (be_bytes 4 code))),
    )
response_packet_lem big index (returned bytes) h h' =
    let e = put_bytes big blank blank_writeable index 0 h (omega arith) bytes in
    (
      ap (λ q. q.id) e,
      ap (λ q. q.data_bytes) e ∙ append_assoc (be_bytes 4 index) (be_bytes 4 0) bytes,
    )

-- What a response does, whose next bytes are an index, an error code and more.
module _ (big : Bool) (c : Connection) (q : Packet)
    (readable : Packet.have_flag q Packet.readable_flag ≡ true) (index code : ℕ) (bytes : List ℕ)
    (h : index < 2 ^ 32) (h' : code < 2 ^ 32)
    (ahead : drop q.offset q.data_bytes ≡ be_bytes 4 index ++ (be_bytes 4 code ++ bytes)) where
  indexed : Packet
  indexed = record q { offset = q.offset + 4 }

  read_index : Packet.get32 big q ≡ (index, indexed)
  unfolding indexed
  read_index = get32_number q big readable index (be_bytes 4 code ++ bytes) h ahead

  code_ahead : drop indexed.offset indexed.data_bytes ≡ be_bytes 4 code ++ bytes
  unfolding indexed
  code_ahead = pending_number q big readable index (be_bytes 4 code ++ bytes) h ahead

  still_readable : Packet.have_flag indexed Packet.readable_flag ≡ true
  unfolding Packet.have_flag indexed
  still_readable = readable

  read_code : Packet.get32 big indexed ≡ (code, record indexed { offset = indexed.offset + 4 })
  read_code = get32_number indexed big still_readable code bytes h' code_ahead

  bytes_ahead : drop (indexed.offset + 4) indexed.data_bytes ≡ bytes
  bytes_ahead = pending_number indexed big still_readable code bytes h' code_ahead

  -- The packet behind the two numbers.
  read_packet : Packet
  read_packet = record q { offset = q.offset + 4 + 4 }

  -- What the promise is given.
  given : Answer
  given =
      if code == 0
      then answered (q.offset + 4 + 4) (length q.data_bytes - (q.offset + 4 + 4))
      else failed code

  -- A call that is there is answered if its promise is not set, and else the function throws.
  response_handled :
      (call : Call)
      → 0 < index
      → find_call index c.callings ≡ some call
      → handle_rpc_response big q c ≡ (
          if is_unanswered call.promise
          then (back true, read_packet, record c { callings = set_promise index given c.callings })
          else (thrown, read_packet, c))
  unfolding handle_rpc_response indexed read_packet given
  response_handled call some_index known =
      let called : (index == 0) ≡ false = ground arith in
      rw (handle_rpc_response, read_index, called, known) (rw (read_index, read_code) refl)

-- The call at the index has the promise, and the others have theirs.
find_call-set_promise :
    (index : ℕ) (answer : Answer) (calls : List (ℕ × Call)) (call : Call)
    → find_call index calls ≡ some call
    → find_call index (set_promise index answer calls) ≡ some (record call { promise = answer })
unfolding find_call set_promise
find_call-set_promise index answer [] call h = absurd (none-ne-some call h)
find_call-set_promise index answer ((k, first) ∷ calls) call h = elim (Bool-cases (index == k)) [
  | inl here ↦
      let same : some first ≡ some call = rw here at h in
      let promised : Call → Option Call = λ t. some (record t { promise = answer }) in
      rw here (rw here (ap promised (some-injective first call same)))
  | inr later ↦
      let rest : find_call index calls ≡ some call = rw later at h in
      rw later (rw later (find_call-set_promise index answer calls call rest))
]

find_call-set_promise_ne :
    (index : ℕ) (answer : Answer) (calls : List (ℕ × Call)) (k : ℕ)
    → k ≢ index
    → find_call k (set_promise index answer calls) ≡ find_call k calls
unfolding find_call set_promise
find_call-set_promise_ne index answer [] k d = refl
find_call-set_promise_ne index answer ((j, first) ∷ calls) k d = elim (Bool-cases (index == j)) [
  | inl here ↦ let other : (k == j) ≡ false = ground (arith, here, d) in rw here (rw other refl)
  | inr later ↦ rw later (elim (Bool-cases (k == j)) [
    | inl this ↦ rw this refl
    | inr that ↦ rw that (find_call-set_promise_ne index answer calls k d)
  ])
]

promised_form :
    (outcome : Outcome)
    → (if code_of outcome == 0
        then answered 8 (length (bytes_of outcome))
        else failed (code_of outcome))
      ≡ promised outcome
promised_form (refused code) = refl
promised_form (returned bytes) = refl

-- The answer to a request, as it is received.
module _ (big big' : Bool) (index : ℕ) (outcome : Outcome) (c : Connection) (call : Call)
    (some_index : 0 < index) (small : index < 2 ^ 32) (small_code : code_of outcome < 2 ^ 32)
    (known : find_call index c.callings ≡ some call) where
  sent : Packet
  sent = response_packet big index outcome

  got : Packet
  got = make_packet sent.id sent.data_bytes

  behind_numbers : Packet
  behind_numbers = record got { offset = 8 }

  got_response : Packet.is_call_response got ≡ true
  unfolding got sent
  got_response =
      let (id, written) = response_packet_lem big index outcome small small_code in
      let (_, _, _, _, _, _, response, _) = make_packet_lem sent.id sent.data_bytes in
      response ∙ ap (λ n. n == rpc_response_id) id

  got_start : got.offset ≡ 0
  unfolding got
  got_start = (make_packet_lem sent.id sent.data_bytes).2

  got_bytes :
      got.data_bytes ≡ be_bytes 4 index ++ (be_bytes 4 (code_of outcome) ++ bytes_of outcome)
  unfolding got sent
  got_bytes =
      (make_packet_lem sent.id sent.data_bytes).1
      ∙ (response_packet_lem big index outcome small small_code).1

  got_readable : Packet.have_flag got Packet.readable_flag ≡ true
  unfolding got
  got_readable = (make_packet_lem sent.id sent.data_bytes).3

  got_ahead :
      drop got.offset got.data_bytes
      ≡ be_bytes 4 index ++ (be_bytes 4 (code_of outcome) ++ bytes_of outcome)
  got_ahead = ap₂ drop got_start got_bytes

  left : drop 8 got.data_bytes ≡ bytes_of outcome
  unfolding got indexed
  left =
      ap (λ n. drop (n + 4 + 4) got.data_bytes) (sym got_start)
      ∙ bytes_ahead big' c got got_readable index (code_of outcome) (bytes_of outcome) small
          small_code got_ahead

  same_answer :
      given big' c got got_readable index
        (code_of outcome)
        (bytes_of outcome)
        small
        small_code
        got_ahead
      ≡ promised outcome
  unfolding given
  same_answer =
      let size : length got.data_bytes - 8 ≡ length (bytes_of outcome) =
        sym (length-drop 8 got.data_bytes) ∙ ap length left in
      ap
        (λ n.
          if code_of outcome == 0
          then answered (n + 4 + 4) (length got.data_bytes - (n + 4 + 4))
          else failed (code_of outcome))
        got_start
      ∙ ap (λ n. if code_of outcome == 0 then answered 8 n else failed (code_of outcome)) size
      ∙ promised_form outcome

  -- The function answers the call, or throws.
  got_handled : handle_rpc_response big' got c ≡ (
      if is_unanswered call.promise
      then (
        back true,
        behind_numbers,
        record c { callings = set_promise index (promised outcome) c.callings },
      )
      else (thrown, behind_numbers, c))
  unfolding read_packet behind_numbers
  got_handled =
      let packet_read : (record got { offset = got.offset + 4 + 4 }) ≡ behind_numbers =
        ap (λ n. record got { offset = n + 4 + 4 }) got_start in
      response_handled big' c got got_readable index (code_of outcome) (bytes_of outcome) small
        small_code got_ahead call some_index known
      ∙ ap₂
          (λ r a.
            if is_unanswered call.promise
            then (back true, r, record c { callings = set_promise index a c.callings })
            else (thrown, r, c))
          packet_read same_answer

-- A call comes back. The packet that answers a request with an index of 1 to 2^32 - 1 is a response
-- for the receiver, also behind `decode`. If the call at that index there has a promise that is not
-- set, the promise is given just the range of the packet's bytes that the function returned, or the
-- exception of the error code, not 0, that the request was refused with, and the other calls are as
-- they were. The call stays: to a second response with its index the function throws.
pub response_reaches_call :
    (big big' : Bool) (index : ℕ) (outcome later : Outcome) (c : Connection) (call : Call)
    → 0 < index
    → index < 2 ^ 32
    → code_of outcome < 2 ^ 32
    → code_of later < 2 ^ 32
    → find_call index c.callings ≡ some call
    → call.promise ≡ unanswered
    → let p = response_packet big index outcome in
      let p' = response_packet big index later in
      let q = make_packet p.id p.data_bytes in
      let (exit, read, c') = handle_rpc_response big' q c in
      let promise = promised outcome in
      (Packet.is_call_response q ≡ true)
      × (exit ≡ back true)
      × (find_call index c'.callings ≡ some (record call { promise = promise }))
      × ((k : ℕ) → k ≢ index → find_call k c'.callings ≡ find_call k c.callings)
      × (take (length (bytes_of outcome)) (drop 8 read.data_bytes) ≡ bytes_of outcome)
      × ((handle_rpc_response big' (make_packet p'.id p'.data_bytes) c').0 ≡ thrown)
unfolding got sent behind_numbers
response_reaches_call big big' index outcome later c call some_index small code_small later_small
      known waiting =
    let handled = got_handled big big' index outcome c call some_index small code_small known in
    let c' = record c { callings = set_promise index (promised outcome) c.callings } in
    let open_yet : is_unanswered call.promise ≡ true = ap is_unanswered waiting in
    let p = response_packet big index outcome in
    let q = make_packet p.id p.data_bytes in
    let answered_now : handle_rpc_response big' q c ≡ (back true, record q { offset = 8 }, c') =
      handled ∙ rw open_yet refl in
    let there = find_call-set_promise index (promised outcome) c.callings call known in
    let again =
      got_handled big big' index later c' (record call { promise = promised outcome }) some_index
        small later_small there in
    rw answered_now (
      got_response big big' index outcome c call some_index small code_small known,
      refl,
      there,
      find_call-set_promise_ne index (promised outcome) c.callings,
      rest_taken (left big big' index outcome c call some_index small code_small known),
      ap (λ t. t.0) again ∙ rw (promised-is_unanswered outcome) refl,
    )
  where
    rest_taken :
        {xs : List ℕ}
        → xs ≡ bytes_of outcome
        → take (length (bytes_of outcome)) xs ≡ bytes_of outcome
    rest_taken e =
        ap (take (length (bytes_of outcome))) e
        ∙ take_all (length (bytes_of outcome)) (bytes_of outcome) (omega arith)

    promised-is_unanswered : (outcome : Outcome) → is_unanswered (promised outcome) ≡ false
    promised-is_unanswered (refused code) = ground arith
    promised-is_unanswered (returned bytes) = refl
