-- ===== src/Net/Manager.antt =====
-- The connection manager, framework/core/src/net/connection/manager.cc: the table of connections and
-- the balance of their work. A call takes the mutex, so calls follow one another. The executor, the
-- sockets and the callbacks are outside: arguments say what they answer. An id is a number, and
-- `none` stands for `kInvalidId`.
pub mod Table
pub mod Remove
pub mod Accept
pub mod Line
pub mod Balance
pub mod Turns
mod Tests
use plain.Prelude.{
  ℕ, zero, suc, ◌+◌, ◌-◌, ◌%◌, ◌^◌, Bool, true, false, not, ◌&&◌, ◌||◌, Option, none, some, List,
  [], ◌∷◌, ◌++◌, ◌≡◌, length, get_elem?, set, replicate, ltb, leb, ◌==◌, if◌then◌else◌,
}
use plain.Prelude.Sets.{has, emplace_id, erase_id}
use plain.Net.Connection
use plain.Net.Connection.{Connection}

-- `detail::ConnectionInfo`, with `max_count` of the setting. The set of ids that a running broadcast
-- still has is replaced by a copy, so it is a value of its own.
pub record ConnectionInfo : Type 0 where
  pub list : List Connection
  pub ids : List ℕ
  pub free_ids : List ℕ
  pub size : ℕ
  pub max_id : ℕ
  pub max_count : ℕ

-- The connections that `init_connections` makes: as many as `default_count`.
unfoldable pub new_table : ℕ → ℕ → ConnectionInfo
new_table default_count max_count = record {
  list = replicate default_count Connection.new_connection;
  ids = [];
  free_ids = [];
  size = 0;
  max_id = 0;
  max_count = max_count;
}

-- The id 0 wraps round to an index behind the list.
unfoldable pub get_conn : ConnectionInfo → ℕ → Option Connection
get_conn t zero = none
get_conn t (suc index) = get_elem? t.list index

unfoldable pub is_full : ConnectionInfo → Bool
is_full t = (length t.free_ids == 0) && leb t.max_count t.max_id

-- The least free id, or the next one with a connection for it.
unfoldable pub take_id : ConnectionInfo → ℕ × ConnectionInfo
take_id t = elim t.free_ids [
  | id ∷ free_ids ↦ (id, record t { free_ids = free_ids })
  | [] ↦
      let id = t.max_id + 1 in
      (
        id,
        record t {
          max_id = id;
          list =
              if ltb (length t.list) id then t.list ++ (Connection.new_connection ∷ []) else t.list;
        },
      )
]

-- `set_id` and `init` of the connection in its place.
unfoldable pub reset_conn : Bool → ℕ → List Connection → List Connection
reset_conn closed id list = elim (get_elem? list (id - 1)) [
  | none ↦ list
  | some c ↦ set list (id - 1) (Connection.init closed (record c { id = some id })).1
]

-- The id of the new connection, `none` if there is none. `closed` is whether its old socket can be
-- closed.
unfoldable pub new_conn : Bool → ConnectionInfo → Option ℕ × ConnectionInfo
new_conn closed t =
    let (id, t') = take_id t in
    if is_full t then (none, t) else (
      some id,
      record t' {
        list = reset_conn closed id t'.list;
        size = t'.size + 1;
        ids = emplace_id id t'.ids;
      },
    )

-- `on_disconnect`, unless there is to be no event, and `close`.
unfoldable pub drop_conn : Bool → Connection → Connection
drop_conn no_event c = Connection.close (if no_event then c else Connection.on_disconnect c)

-- `remove` of an id: a connection that is kept alive keeps its id.
unfoldable pub remove : ℕ → Bool → ConnectionInfo → ConnectionInfo
remove id no_event t = elim (if (id == 0) || ltb t.max_id id then none else get_conn t id) [
  | none ↦ t
  | some c ↦
      let list = set t.list (id - 1) (drop_conn no_event c) in
      if c.keep_alive then record t { list = list } else record t {
        list = list;
        free_ids = emplace_id id t.free_ids;
        size = t.size - 1;
        ids = erase_id id t.ids;
      }
]

-- `remove` of a connection, which has no id before its first use.
unfoldable pub remove_conn : Connection → Bool → ConnectionInfo → ConnectionInfo
remove_conn c no_event t = elim c.id [ none ↦ t | some id ↦ remove id no_event t ]

-- `Manager::size`
unfoldable pub size : ConnectionInfo → ℕ
size t = length t.ids

-- The ids of the connections that `broadcast` sends to and `foreach` calls: the valid ones.
unfoldable pub valid_ids : ConnectionInfo → List ℕ → List ℕ
valid_ids t [] = []
valid_ids t (id ∷ ids) =
    let rest = valid_ids t ids in
    elim (get_conn t id) [ none ↦ rest | some c ↦ if c.valid then id ∷ rest else rest ]

unfoldable pub foreach : ConnectionInfo → List ℕ
foreach t = valid_ids t t.ids

-- The steps of `accept` behind `new_conn`, and whether each of them succeeds.
pub record Accepting : Type 0 where
  pub listening : Bool
  pub closed : Bool
  pub accepted : Bool
  pub nonblocking : Bool
  pub no_error : Bool
  pub no_linger : Bool
  pub added : Bool

-- The socket that was accepted is valid.
unfoldable pub connect : ℕ → List Connection → List Connection
connect index list = elim (get_elem? list index) [
  | none ↦ list
  | some c ↦ set list index (record c { valid = true })
]

-- The steps with the connection that `new_conn` gives.
unfoldable pub accept_on : Accepting → Option ℕ → ConnectionInfo → Option ℕ × ConnectionInfo
accept_on a none t = (none, t)
accept_on a (some id) t =
    let connected = record t { list = connect (id - 1) t.list } in
    if a.accepted && a.nonblocking && a.no_error && a.no_linger && a.added
    then (some id, connected)
    else (none, remove id true (if a.accepted then connected else t))

unfoldable pub accept : Accepting → ConnectionInfo → Option ℕ × ConnectionInfo
accept a t =
    let (found, t') = new_conn a.closed t in
    if not a.listening then (none, t) else accept_on a found t'

-- The part of `Manager::Impl` that balances the work. `waiting` is the deque, `waiting_ids` its set,
-- and `max_count` is 0 for no limit. `jobs` are the calls of `work` that the executor has and that
-- have not counted down yet; `returning` are the calls of `enqueue` that they make behind that.
pub record WorkQueue : Type 0 where
  pub running : Bool
  pub count : ℕ
  pub max_count : ℕ
  pub waiting : List ℕ
  pub waiting_ids : List ℕ
  pub jobs : List ℕ
  pub returning : List (Option ℕ)

unfoldable pub pop_work_id : WorkQueue → Option ℕ × WorkQueue
pop_work_id b = elim b.waiting [
  | [] ↦ (none, b)
  | id ∷ rest ↦ (some id, record b { waiting = rest; waiting_ids = erase_id id b.waiting_ids })
]

unfoldable pub push_work_id : ℕ → WorkQueue → WorkQueue
push_work_id id b =
    if has id b.waiting_ids
    then b
    else record b { waiting = b.waiting ++ (id ∷ []); waiting_ids = emplace_id id b.waiting_ids }

-- `fetch_add` and `enqueue` of the executor.
unfoldable pub give_job : ℕ → WorkQueue → WorkQueue
give_job id b = record b { count = b.count + 1; jobs = b.jobs ++ (id ∷ []) }

unfoldable pub enqueue : Option ℕ → WorkQueue → WorkQueue
unfolding pop_work_id push_work_id give_job
enqueue id b =
    let (popped, b') = pop_work_id b in
    if not b.running
    then b
    else if (b.max_count == 0) || ltb b.count b.max_count
    then elim id [
      | some k ↦ give_job k b
      | none ↦ elim popped [ none ↦ b' | some k ↦ give_job k b' ]
    ]
    else elim id [ none ↦ b | some k ↦ push_work_id k b ]

-- What a job finds: no valid connection, or that `work` of the connection fails, or that it
-- succeeds and leaves the connection idle or busy.
pub data Worked : Type 0 where
  no_conn broken idle busy : Worked

-- The call of `enqueue` with which `work` ends: the connection's own id if it is still busy.
abbrev pub next_call : ℕ → Worked → Option ℕ
next_call id busy = some id
next_call id no_conn = none
next_call id broken = none
next_call id idle = none

-- A job of the connection `id` counts down; `jobs` are those that stay.
unfoldable pub count_down : ℕ → Worked → List ℕ → WorkQueue → WorkQueue
count_down id worked jobs b = record b {
  count = b.count - 1;
  jobs = jobs;
  returning = b.returning ++ (next_call id worked ∷ []);
}

-- What can happen: a connection asks for work, one of the jobs counts down, one of the calls behind
-- that is made, and the manager stops.
pub data Step : WorkQueue → WorkQueue → Type 0 where
  asks : (id : ℕ) (b : WorkQueue) → Step b (enqueue (some id) b)
  ends :
      (id : ℕ) (worked : Worked) (before after : List ℕ) (b : WorkQueue)
      → b.jobs ≡ before ++ (id ∷ after)
      → Step b (count_down id worked (before ++ after) b)
  returns :
      (call : Option ℕ) (before after : List (Option ℕ)) (b : WorkQueue)
      → b.returning ≡ before ++ (call ∷ after)
      → Step b (enqueue call (record b { returning = before ++ after }))
  stops : (b : WorkQueue) → Step b (record b { running = false })

pub data Steps : WorkQueue → WorkQueue → Type 0 where
  at_start : (b : WorkQueue) → Steps b b
  and_then : (b b' b'' : WorkQueue) → Steps b b' → Step b' b'' → Steps b b''

-- A manager that has just started.
unfoldable pub new_queue : ℕ → WorkQueue
new_queue max_count = record {
  running = true;
  count = 0;
  max_count = max_count;
  waiting = [];
  waiting_ids = [];
  jobs = [];
  returning = [];
}
