-- ===== src/Net/Manager/Accept.antt =====
-- Accepting a connection.
use plain.Prelude.{
  ℕ, zero, suc, ◌+◌, ◌-◌, ◌<◌, ◌≡◌, ◌∙◌, refl, sym, ap, Bool, true, false, not, ◌&&◌, Option, none,
  some, List, [], ◌∷◌, ◌++◌, length, length-set, get_elem?, set, if◌then◌else◌, Bool-cases, inl,
  inr, arith,
}
use plain.Prelude.Sets.{has}
use plain.Net.Connection
use plain.Net.Connection.{Connection}
use plain.Net.Manager.{
  ConnectionInfo, get_conn, reset_conn, new_conn, remove, Accepting, accept, accept_on, connect,
}
use plain.Net.Manager.Table.{
  IsTable, Gained, new_conn-IsTable, List-cases, longer, new_conn_reuses, new_conn_extends,
  new_conn_refused,
}
use plain.Net.Manager.Remove.{in_range, remove-IsTable, listed-IsTable, get_elem?-some}
use mathlib.Core.Option.{none-ne-some, some-injective}
use native.Mathlib.Decide.{dec_lt}

-- No connection of the list is to be kept alive.
abbrev pub none_kept : List Connection → Bool
none_kept [] = true
none_kept (c ∷ list) = not c.keep_alive && none_kept list

none_kept-set :
    (list : List Connection) (i : ℕ) (c : Connection)
    → none_kept list ≡ true
    → c.keep_alive ≡ false
    → none_kept (set list i c) ≡ true
none_kept-set [] i c h h' = refl
none_kept-set (x ∷ list) zero c h h' = ground (arith, h, h')
none_kept-set (x ∷ list) (suc i) c h h' =
    ground (arith, h, λ (q : none_kept list ≡ true). none_kept-set list i c q h')

none_kept-append :
    (list : List Connection) (c : Connection)
    → none_kept list ≡ true
    → c.keep_alive ≡ false
    → none_kept (list ++ (c ∷ [])) ≡ true
none_kept-append [] c h h' = ground (arith, h')
none_kept-append (x ∷ list) c h h' =
    ground (arith, h, λ (q : none_kept list ≡ true). none_kept-append list c q h')

none_kept-get_elem? :
    (list : List Connection) (i : ℕ) (c : Connection)
    → none_kept list ≡ true
    → get_elem? list i ≡ some c
    → c.keep_alive ≡ false
none_kept-get_elem? [] i c h e = absurd (none-ne-some c e)
none_kept-get_elem? (x ∷ list) zero c h e =
    ap (λ y. y.keep_alive) (sym (some-injective x c e)) ∙ ground (arith, h)
none_kept-get_elem? (x ∷ list) (suc i) c h e = none_kept-get_elem? list i c (ground (arith, h)) e

-- Nothing that happens to a connection of the list here makes it one that is kept alive.
none_kept-reset_conn :
    (closed : Bool) (id : ℕ) (list : List Connection)
    → none_kept list ≡ true
    → none_kept (reset_conn closed id list) ≡ true
unfolding reset_conn Connection.init
none_kept-reset_conn closed id list h = by_found (get_elem? list (id - 1)) refl
  where
    by_found :
        (o : Option Connection)
        → get_elem? list (id - 1) ≡ o
        → none_kept (elim o as (λ _. List Connection) [
          | none ↦ list
          | some c ↦ set list (id - 1) (Connection.init closed (record c { id = some id })).1
        ])
          ≡ true
    by_found none e = h
    by_found (some c) e =
        none_kept-set list (id - 1) (Connection.init closed (record c { id = some id })).1 h
          (ground (arith, none_kept-get_elem? list (id - 1) c h e))

none_kept-connect :
    (index : ℕ) (list : List Connection)
    → none_kept list ≡ true
    → none_kept (connect index list) ≡ true
unfolding connect
none_kept-connect index list h = by_found (get_elem? list index) refl
  where
    by_found :
        (o : Option Connection)
        → get_elem? list index ≡ o
        → none_kept (elim o as (λ _. List Connection) [
          | none ↦ list
          | some c ↦ set list index (record c { valid = true })
        ])
          ≡ true
    by_found none e = h
    by_found (some c) e =
        none_kept-set list index (record c { valid = true }) h
          (none_kept-get_elem? list index c h e)

length-connect : (index : ℕ) (list : List Connection) → length (connect index list) ≡ length list
unfolding connect
length-connect index list =
    elim (get_elem? list index)
      as (λ o.
        length (elim o as (λ _. List Connection) [
          | none ↦ list
          | some c ↦ set list index (record c { valid = true })
        ])
        ≡ length list) [ none ↦ refl | some c ↦ length-set list index (record c { valid = true }) ]

get_elem?-set :
    (list : List Connection) (index : ℕ) (c : Connection)
    → index < length list
    → get_elem? (set list index c) index ≡ some c
get_elem?-set [] index c h = absurd (omega arith)
get_elem?-set (x ∷ list) zero c h = refl
get_elem?-set (x ∷ list) (suc index) c h = get_elem?-set list index c (omega arith)

connect_found :
    (list : List Connection) (index : ℕ) (c : Connection)
    → get_elem? list index ≡ some c
    → connect index list ≡ set list index (record c { valid = true })
unfolding connect
connect_found list index c e = ground (arith, e)

get_conn_index : (t : ConnectionInfo) (id : ℕ) → 0 < id → get_conn t id ≡ get_elem? t.list (id - 1)
unfolding get_conn
get_conn_index t zero h = absurd (omega arith)
get_conn_index t (suc index) h = ap (get_elem? t.list) (omega arith)

get_elem?-connect :
    (list : List Connection) (index : ℕ)
    → index < length list
    → (c : Connection) × (get_elem? (connect index list) index ≡ some c) × (c.valid ≡ true)
get_elem?-connect list index h =
    let (c, e) = get_elem?-some list index h in
    (
      record c { valid = true },
      ap (λ l. get_elem? l index) (connect_found list index c e)
          ∙ get_elem?-set list index (record c { valid = true }) h,
      refl,
    )

none_kept-longer : (t : ConnectionInfo) → none_kept t.list ≡ true → none_kept (longer t) ≡ true
unfolding Connection.new_connection
none_kept-longer t h = ground (arith, h, none_kept-append t.list Connection.new_connection h refl)

none_kept-new_conn :
    (closed : Bool) (t : ConnectionInfo)
    → none_kept t.list ≡ true
    → none_kept (new_conn closed t).1.list ≡ true
none_kept-new_conn closed t h = elim (List-cases t.free_ids) [
  | inr (id, rest, e) ↦
      rw (new_conn_reuses closed t id rest e) (none_kept-reset_conn closed id t.list h)
  | inl e ↦ elim (dec_lt t.max_id t.max_count) [
    | yes room ↦
        rw (new_conn_extends closed t e room)
          (none_kept-reset_conn closed (t.max_id + 1) (longer t) (none_kept-longer t h))
    | no full ↦ rw (new_conn_refused closed t e (omega arith)) h
  ]
]

-- What `accept` gives: nothing, and the ids in use are those that were; or an id that was not in use
-- and now is, beside the others, with a connection whose socket is valid.
abbrev pub Accepted : ConnectionInfo → Option ℕ → ConnectionInfo → Type 0
Accepted t none t' = (k : ℕ) → has k t'.ids ≡ has k t.ids
Accepted t (some id) t' =
    Gained t (some id) t' × ((c : Connection) × (get_conn t' id ≡ some c) × (c.valid ≡ true))

module _ (t : ConnectionInfo) (id : ℕ) (t' : ConnectionInfo) (v : IsTable t')
    (gained : Gained t (some id) t') (kept : none_kept t'.list ≡ true) where
  used : has id t'.ids ≡ true
  used = ground (arith, gained.3 id)

  -- The way back.
  dropped : IsTable (remove id true t') × Accepted t none (remove id true t')
  dropped =
      let (c, found, v', ids) = remove-IsTable id true t' v used in
      let not_kept : c.keep_alive ≡ false =
        none_kept-get_elem? t'.list (id - 1) c kept (sym (get_conn_index t' id gained.1) ∙ found) in
      (v', λ k. ground (arith, ids k, not_kept, gained.3 k, gained.0))

  connected : ConnectionInfo
  connected = record t' { list = connect (id - 1) t'.list }

  connected-IsTable : IsTable connected
  unfolding connected
  connected-IsTable =
      listed-IsTable true t' v (connect (id - 1) t'.list) (length-connect (id - 1) t'.list)

  connected-valid : (c : Connection) × (get_conn connected id ≡ some c) × (c.valid ≡ true)
  unfolding connected
  connected-valid =
      let in_list : id - 1 < length t'.list =
        omega (arith, gained.1, (in_range true t' v id used).1, v.listed) in
      let (c, found, valid) = get_elem?-connect t'.list (id - 1) in_list in
      (c, get_conn_index connected id gained.1 ∙ found, valid)

Refused : ConnectionInfo → ConnectionInfo → Type 0
Refused t t' = IsTable t' × Accepted t none t'

refused :
    (a : Accepting) (t : ConnectionInfo) (id : ℕ) (t' : ConnectionInfo)
    → IsTable t'
    → Gained t (some id) t'
    → none_kept t'.list ≡ true
    → Refused t
        (remove id true (if a.accepted then record t' { list = connect (id - 1) t'.list } else t'))
unfolding Refused connected
refused a t id t' v gained kept = elim (Bool-cases a.accepted) [
  | inr early ↦ rw early (dropped t id t' v gained kept)
  | inl late ↦ rw late (
      dropped t id (connected t id t' v gained kept) (connected-IsTable t id t' v gained kept)
        gained (none_kept-connect (id - 1) t'.list kept))
]

accept_on-IsTable :
    (a : Accepting) (t : ConnectionInfo) (found : Option ℕ) (t' : ConnectionInfo)
    → IsTable t'
    → Gained t found t'
    → none_kept t'.list ≡ true
    → IsTable (accept_on a found t').1
      × Accepted t (accept_on a found t').0 (accept_on a found t').1
unfolding accept_on connected Refused
accept_on-IsTable a t none t' v gained kept = (v, λ k. ap (λ u. has k u.ids) gained.0)
accept_on-IsTable a t (some id) t' v gained kept =
    elim (Bool-cases (a.accepted && a.nonblocking && a.no_error && a.no_linger && a.added)) [
      | inl ready ↦
          rw ready (
            connected-IsTable t id t' v gained kept,
            (gained, connected-valid t id t' v gained kept),
          )
      | inr failed ↦ rw failed (refused a t id t' v gained kept)
    ]

-- `accept` of a valid table in which no connection is to be kept alive, whatever of its steps
-- succeed: the table stays valid. Either it gives no connection, and the
-- same ids are in use as before; or it gives an id from 1 to the largest count that was not in use,
-- just this id comes into use, and its connection has a valid socket.
pub accept-IsTable :
    (a : Accepting) (t : ConnectionInfo)
    → IsTable t
    → none_kept t.list ≡ true
    → let (found, t') = accept a t in IsTable t' × Accepted t found t'
unfolding accept
accept-IsTable a t v kept = elim (Bool-cases a.listening) [
  | inr deaf ↦ simp deaf (v, λ k. refl)
  | inl listening ↦
      let (v', gained) = new_conn-IsTable a.closed t v in
      simp listening (
        accept_on-IsTable a t (new_conn a.closed t).0 (new_conn a.closed t).1 v' gained
          (none_kept-new_conn a.closed t kept))
]
