-- ===== src/Net/Manager/Tests.antt =====
-- The manager on small tables and short orders of steps.
use plain.Prelude.{
  ℕ, ◌≡◌, refl, true, false, not, ◌&&◌, ◌||◌, none, some, [], ◌∷◌, ◌++◌, length, ◌==◌,
}
use plain.Prelude.Sets.{has}
use plain.Net.Connection
use plain.Net.Connection.{Connection}
use plain.Net.Manager.{
  ConnectionInfo, Accepting, accept, new_table, get_conn, new_conn, remove, take_id, is_full,
  reset_conn, drop_conn, WorkQueue, enqueue, pop_work_id, push_work_id, give_job, count_down, idle,
  Steps, at_start, and_then, asks, new_queue,
}
use plain.Net.Manager.Table.{IsTable, Gained, new_conn-IsTable}
use plain.Net.Manager.Remove.{new_table-IsTable, remove-IsTable}
use plain.Net.Manager.Accept.{none_kept, Accepted, accept-IsTable}
use plain.Net.Manager.Line.{IsBalanced}
use plain.Net.Manager.Balance.{reachable-IsBalanced}
use plain.Net.Manager.Turns.{turn, turns, all_have_their_turn}

-- A table of at most two connections, with one in use, and with none again.
abbrev one_used : ConnectionInfo
one_used = (new_conn true (new_table 1 2)).1

one_used-IsTable : IsTable one_used
one_used-IsTable = (new_conn-IsTable true (new_table 1 2) (new_table-IsTable 1 2)).0

abbrev none_used : ConnectionInfo
none_used = remove 1 true one_used

first_used : has 1 one_used.ids ≡ true
unfolding new_conn take_id is_full new_table
first_used = refl

none_used-IsTable : IsTable none_used
none_used-IsTable =
    let (c, found, v, ids) = remove-IsTable 1 true one_used one_used-IsTable first_used in v

new_conn-IsTable_example :
    let (found, t') = new_conn true one_used in IsTable t' × Gained one_used found t'
new_conn-IsTable_example = new_conn-IsTable true one_used one_used-IsTable

remove-IsTable_example :
    let t' = remove 1 false one_used in
    (c : Connection) × (get_conn one_used 1 ≡ some c)
    × IsTable t'
    × ((k : ℕ) → has k t'.ids ≡ (has k one_used.ids && (c.keep_alive || not (k == 1))))
remove-IsTable_example = remove-IsTable 1 false one_used one_used-IsTable first_used

-- The connection 1, removed twice.
abbrev removed_conn : Connection
removed_conn =
    drop_conn true (Connection.init true (record Connection.new_connection { id = some 1 })).1

removed_free : has 1 none_used.free_ids ≡ true
unfolding new_conn take_id is_full new_table remove get_conn reset_conn Connection.new_connection
    Connection.init
removed_free = refl

removed_found : get_conn none_used 1 ≡ some removed_conn
unfolding new_conn take_id is_full new_table remove get_conn reset_conn Connection.new_connection
    Connection.init drop_conn
removed_found = refl

removed_gone : removed_conn.keep_alive ≡ false
unfolding Connection.new_connection Connection.init drop_conn Connection.close
removed_gone = refl

-- A limit of one job, for which the connections 5 and 7 ask.
abbrev both_asked : WorkQueue
both_asked = enqueue (some 7) (enqueue (some 5) (new_queue 1))

both_ask : Steps (new_queue 1) both_asked
both_ask =
    let start = new_queue 1 in
    let one = enqueue (some 5) start in
    and_then start one both_asked (and_then start start one (at_start start) (asks 5 start))
      (asks 7 one)

reachable-IsBalanced_example : IsBalanced both_asked
reachable-IsBalanced_example = reachable-IsBalanced 1 both_asked both_ask

all_have_their_turn_example :
    Steps both_asked (turns (length (both_asked.jobs ++ both_asked.waiting)) both_asked).1
    × ((turns (length (both_asked.jobs ++ both_asked.waiting)) both_asked).0
        ≡ both_asked.jobs ++ both_asked.waiting)
    × ((turns (length (both_asked.jobs ++ both_asked.waiting)) both_asked).1.jobs ≡ [])
    × ((turns (length (both_asked.jobs ++ both_asked.waiting)) both_asked).1.waiting ≡ [])
unfolding enqueue new_queue
all_have_their_turn_example = all_have_their_turn 1 both_asked both_ask refl refl

-- The turns of both.
turns_test : (turns 2 both_asked).0 ≡ 5 ∷ 7 ∷ []
unfolding enqueue new_queue turns pop_work_id push_work_id give_job turn
turns_test = refl

-- The connection 5 asks, its job leaves it idle, and the call behind that is made.
abbrev asked : WorkQueue
asked = enqueue (some 5) (new_queue 1)

abbrev ended : WorkQueue
ended = count_down 5 idle [] asked

abbrev returned : WorkQueue
returned = enqueue none (record ended { returning = [] })

-- A socket that could be accepted, but not made nonblocking.
abbrev blocking : Accepting
blocking = record {
  listening = true;
  closed = true;
  accepted = true;
  nonblocking = false;
  no_error = true;
  no_linger = true;
  added = true;
}

none_kept_yet : none_kept one_used.list ≡ true
unfolding new_conn take_id is_full new_table reset_conn Connection.new_connection Connection.init
none_kept_yet = refl

accept-IsTable_example :
    let (found, t') = accept blocking one_used in IsTable t' × Accepted one_used found t'
accept-IsTable_example = accept-IsTable blocking one_used one_used-IsTable none_kept_yet
