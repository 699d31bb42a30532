-- ===== src/Concurrency/Pool/Idle.antt =====
-- The set of idle workers, framework/core/src/concurrency/executor/thread_pool.cc: a flag for each
-- worker and a counter. A call is one step here; the counter is a signed word of 64 bits.
use plain.Prelude.{
  ℕ, zero, suc, ◌+◌, ◌-◌, ◌%◌, ◌^◌, min, Bool, true, false, List, [], ◌∷◌, ◌++◌, get_or, set,
  replicate, leb, ◌==◌, if◌then◌else◌,
}

pub data Status : Type 0 where
  active idle : Status

pub record IdleWorkerSet : Type 0 where
  pub approx_size : ℕ
  pub idle_flags : List Status
  pub size : ℕ

-- `static_cast<size_t>(-1)`
abbrev pub npos : ℕ
npos = 2 ^ 64 - 1

abbrev pub is_idle : Status → Bool
is_idle active = false
is_idle idle = true

abbrev pub fetch_add : ℕ → ℕ
fetch_add n = (n + 1) % 2 ^ 64

abbrev pub fetch_sub : ℕ → ℕ
fetch_sub n = (n + (2 ^ 64 - 1)) % 2 ^ 64

-- `n <= 0` of a signed word
abbrev pub not_positive : ℕ → Bool
not_positive n = if n == 0 then true else leb (2 ^ 63) n

abbrev pub flag_of : IdleWorkerSet → ℕ → Status
flag_of s index = get_or s.idle_flags index active

abbrev pub exchange : IdleWorkerSet → ℕ → Status → IdleWorkerSet
exchange s index v = record s { idle_flags = set s.idle_flags index v }

unfoldable pub new_set : ℕ → IdleWorkerSet
new_set size = record { approx_size = 0; idle_flags = replicate size active; size = size }

unfoldable pub set_idle : IdleWorkerSet → ℕ → IdleWorkerSet
set_idle s idle_thread =
    let t = exchange s idle_thread idle in
    if is_idle (flag_of s idle_thread)
    then t
    else record t { approx_size = fetch_add t.approx_size }

unfoldable pub set_active : IdleWorkerSet → ℕ → IdleWorkerSet
set_active s idle_thread =
    let t = exchange s idle_thread active in
    if is_idle (flag_of s idle_thread)
    then record t { approx_size = fetch_sub t.approx_size }
    else t

-- In one step, the flag that is exchanged is the one that was loaded.
unfoldable pub try_acquire_flag : IdleWorkerSet → ℕ → IdleWorkerSet × Bool
try_acquire_flag s index =
    let t = exchange s index active in
    if is_idle (flag_of s index)
    then (record t { approx_size = fetch_sub t.approx_size }, true)
    else (s, false)

-- The loop of `find_idle_worker` from `i`, with `n` turns left.
unfoldable pub find_loop : ℕ → ℕ → ℕ → ℕ → IdleWorkerSet → IdleWorkerSet × ℕ
find_loop zero i starting_pos caller_index s = (s, npos)
find_loop (suc n) i starting_pos caller_index s =
    let index = (starting_pos + i) % s.size in
    let skipped = find_loop n (suc i) starting_pos caller_index s in
    let r = try_acquire_flag s index in
    let rest = find_loop n (suc i) starting_pos caller_index r.0 in
    if index == caller_index then skipped else if r.1 then (r.0, index) else rest

-- `hashed_id` is the hash of the calling thread's id.
unfoldable pub find_idle_worker : ℕ → IdleWorkerSet → ℕ → IdleWorkerSet × ℕ
unfolding find_loop
find_idle_worker hashed_id s caller_index =
    let starting_pos = if caller_index == npos then hashed_id % s.size else caller_index in
    if not_positive s.approx_size then (s, npos) else find_loop s.size 0 starting_pos caller_index s

-- The loop of `find_idle_workers` from `i`, with `n` turns and `room` workers left.
unfoldable pub find_all_loop : ℕ → ℕ → ℕ → ℕ → IdleWorkerSet → IdleWorkerSet × List ℕ
find_all_loop zero i room caller_index s = (s, [])
find_all_loop (suc n) i zero caller_index s = (s, [])
find_all_loop (suc n) i (suc room) caller_index s =
    let index = (caller_index + i) % s.size in
    let skipped = find_all_loop n (suc i) (suc room) caller_index s in
    let r = try_acquire_flag s index in
    let found = find_all_loop n (suc i) room caller_index r.0 in
    let rest = find_all_loop n (suc i) (suc room) caller_index r.0 in
    if index == caller_index then skipped else if r.1 then (found.0, index ∷ found.1) else rest

-- The workers found stand behind those of the buffer.
unfoldable pub find_idle_workers : IdleWorkerSet → ℕ → List ℕ → ℕ → IdleWorkerSet × List ℕ
unfolding find_all_loop
find_idle_workers s caller_index result_buffer max_count =
    let r = find_all_loop s.size 0 (min s.approx_size max_count) caller_index s in
    if not_positive s.approx_size then (s, result_buffer) else (r.0, result_buffer ++ r.1)
