-- ===== src/Net/Stream/Tests.antt =====
-- Streams on concrete bytes and outcomes of the socket.
use plain.Prelude.{ℕ, zero, suc, ◌≤◌, ◌≡◌, refl, true, false, [], ◌∷◌, ◌++◌, length, arith}
use plain.Ring
use plain.Ring.{Ring}
use plain.Ring.Invariant.{IsValid}
use plain.Net.Stream.{Stream, push, Sent, sent, send_error}
use plain.Net.Stream.Flow.{held, Counts, push_flows}

-- Three bytes that go round the end of the cells.
abbrev three_bytes : Stream
three_bytes = record {
  buffer = record {
    storage = Ring.dynamic 4;
    head = 6;
    tail = 3;
    size = 4;
    mask = 3;
    buffer = 24 ∷ 25 ∷ 0 ∷ 23 ∷ [];
  };
  encrypt_key = [];
  compressed = false;
}

three_bytes-IsValid : IsValid three_bytes.buffer
three_bytes-IsValid = record {
  order = 2;
  small = omega arith;
  power = refl;
  masked = refl;
  cells = omega arith;
  head_in = omega arith;
  tail_in = omega arith;
  within = omega arith;
}

-- A socket that takes a byte and then fails.
abbrev one_then_error : ℕ → ℕ → Sent
one_then_error zero zero = sent 0
one_then_error zero (suc n) = sent 1
one_then_error (suc i) n = send_error

one_takes : (i offered n : ℕ) → one_then_error i offered ≡ sent n → n ≤ offered
one_takes zero zero n e = ground (arith, e)
one_takes zero (suc k) n e = ground (arith, e)
one_takes (suc i) k n e = ground (arith, e)

push_flows_example :
    let (result, s', wire') = push true one_then_error three_bytes (9 ∷ []) in
    (wire' ++ held s' ≡ (9 ∷ []) ++ held three_bytes)
    × IsValid s'.buffer
    × Counts result 1 (length wire')
push_flows_example =
    push_flows true one_then_error one_takes three_bytes (9 ∷ []) three_bytes-IsValid
