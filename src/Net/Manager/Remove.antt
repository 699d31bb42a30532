-- ===== src/Net/Manager/Remove.antt =====
-- Removing a connection from the table.
use plain.Prelude.{
  ℕ, zero, suc, ◌-◌, ◌≤◌, ◌<◌, ◌≡◌, refl, ap, inl, inr, Bool, true, false, not, ◌&&◌, ◌||◌, some,
  List, [], ◌∷◌, length, length-set, get_elem?, set, ltb, leb, ◌==◌, if◌then◌else◌, Bool-cases,
  arith,
}
use plain.Prelude.Sets.{
  has, emplace_id, erase_id, has-emplace_id, has-erase_id, erase_id_absent, length-emplace_id,
  length-erase_id, emplace_id-IsDistinct, erase_id-IsDistinct,
}
use plain.Net.Connection.{Connection}
use plain.Net.Manager.{ConnectionInfo, new_table, get_conn, drop_conn, remove}
use native.Mathlib.Decide.{ℕ_discrete}
use plain.Net.Manager.Table.{IsTable}

module _ (no_event : Bool) (t : ConnectionInfo) (v : IsTable t) where
  -- The table without an id in use.
  freed : ℕ → List Connection → ConnectionInfo
  freed id list = record t {
    list = list;
    free_ids = emplace_id id t.free_ids;
    size = t.size - 1;
    ids = erase_id id t.ids;
  }

  module _ (id : ℕ) (used : has id t.ids ≡ true) where
    pub in_range : (0 < id) × (id ≤ t.max_id)
    in_range = ground (arith, v.parts id, used)

    not_free : has id t.free_ids ≡ false
    not_free = ground (arith, v.parts id, used)

    freed_free : (k : ℕ) → has k (emplace_id id t.free_ids) ≡ true → (0 < k) × (k ≤ t.max_id)
    freed_free k h = elim (ℕ_discrete k id) [
      | yes same ↦ ground (arith, same, in_range)
      | no other ↦ v.free_in k (ground (arith, h, has-emplace_id k id t.free_ids))
    ]

    freed_parts :
        (k : ℕ)
        → has k (erase_id id t.ids)
          ≡ (ltb 0 k && leb k t.max_id && not (has k (emplace_id id t.free_ids)))
    freed_parts k =
        ground (arith, has-erase_id k id t.ids, has-emplace_id k id t.free_ids, v.parts k)

    freed-IsTable : (list : List Connection) → length list ≡ length t.list → IsTable (freed id list)
    unfolding freed
    freed-IsTable list same = record {
      distinct_ids = erase_id-IsDistinct id t.ids v.distinct_ids;
      distinct_free = emplace_id-IsDistinct id t.free_ids v.distinct_free;
      free_in = freed_free;
      parts = freed_parts;
      counted = omega (arith, v.counted, length-erase_id id t.ids v.distinct_ids used);
      total = omega (
        arith,
        v.total,
        length-erase_id id t.ids v.distinct_ids used,
        length-emplace_id id t.free_ids not_free,
      );
      listed = omega (arith, same, v.listed);
      bounded = v.bounded;
    }

  pub listed-IsTable :
      (list : List Connection) → length list ≡ length t.list → IsTable (record t { list = list })
  listed-IsTable list same = record {
    distinct_ids = v.distinct_ids;
    distinct_free = v.distinct_free;
    free_in = v.free_in;
    parts = v.parts;
    counted = v.counted;
    total = v.total;
    listed = omega (arith, same, v.listed);
    bounded = v.bounded;
  }

pub get_elem?-some :
    (list : List Connection) (i : ℕ)
    → i < length list
    → (c : Connection) × (get_elem? list i ≡ some c)
get_elem?-some [] i h = absurd (omega arith)
get_elem?-some (c ∷ list) zero h = (c, refl)
get_elem?-some (c ∷ list) (suc i) h = get_elem?-some list i (omega arith)

-- An id in range has a connection.
pub get_conn-some :
    (t : ConnectionInfo) (id : ℕ)
    → 0 < id
    → id ≤ length t.list
    → (c : Connection) × (get_conn t id ≡ some c)
unfolding get_conn
get_conn-some t zero h h' = absurd (omega arith)
get_conn-some t (suc index) h h' = get_elem?-some t.list index (omega arith)

remove_found :
    (id : ℕ) (no_event : Bool) (t : ConnectionInfo) (c : Connection)
    → 0 < id
    → id ≤ t.max_id
    → get_conn t id ≡ some c
    → remove id no_event t ≡ (
        let list = set t.list (id - 1) (drop_conn no_event c) in
        if c.keep_alive then record t { list = list } else record t {
          list = list;
          free_ids = emplace_id id t.free_ids;
          size = t.size - 1;
          ids = erase_id id t.ids;
        })
unfolding remove
remove_found id no_event t c low high found =
    let in_range : ((id == 0) || ltb t.max_id id) ≡ false = ground arith in
    rw (remove, in_range, found) refl

-- `remove` of an id in use keeps the table valid and takes just this id out of use, unless its
-- connection is to be kept alive; then the same ids stay in use.
pub remove-IsTable :
    (id : ℕ) (no_event : Bool) (t : ConnectionInfo)
    → IsTable t
    → has id t.ids ≡ true
    → let t' = remove id no_event t in
      (c : Connection) × (get_conn t id ≡ some c)
      × IsTable t'
      × ((k : ℕ) → has k t'.ids ≡ (has k t.ids && (c.keep_alive || not (k == id))))
unfolding freed
remove-IsTable id no_event t v used =
    let range = in_range no_event t v id used in
    let (c, found) = get_conn-some t id range.0 (omega (arith, range, v.listed)) in
    let same = length-set t.list (id - 1) (drop_conn no_event c) in
    let removed = remove_found id no_event t c range.0 range.1 found in
    (
      c,
      found,
      elim (Bool-cases c.keep_alive) [
        | inl kept ↦
            rw (removed, kept)
              (listed-IsTable no_event t v (set t.list (id - 1) (drop_conn no_event c)) same)
        | inr gone ↦
            rw (removed, gone)
              (freed-IsTable no_event t v id used (set t.list (id - 1) (drop_conn no_event c)) same)
      ],
      λ k. elim (Bool-cases c.keep_alive) [
        | inl kept ↦ rw (removed, kept) (ground arith)
        | inr gone ↦ rw (removed, gone) (has-erase_id k id t.ids)
      ],
    )

-- `remove` of an id that is free already, whose connection is not to be kept alive, leaves the same
-- ids in use, but takes one off the count of the connections.
pub remove_counts_again :
    (id : ℕ) (no_event : Bool) (t : ConnectionInfo) (c : Connection)
    → IsTable t
    → has id t.free_ids ≡ true
    → get_conn t id ≡ some c
    → c.keep_alive ≡ false
    → let t' = remove id no_event t in (t'.ids ≡ t.ids) × (t'.size ≡ length t.ids - 1)
remove_counts_again id no_event t c v free found gone =
    let range = v.free_in id free in
    let unused : has id t.ids ≡ false = ground (arith, v.parts id, free) in
    rw (remove_found id no_event t c range.0 range.1 found, gone)
      (erase_id_absent id t.ids unused, ap (λ n. n - 1) v.counted)

-- A manager starts with a valid table.
pub new_table-IsTable : (default_count max_count : ℕ) → IsTable (new_table default_count max_count)
unfolding new_table
new_table-IsTable default_count max_count = record {
  distinct_ids = tt;
  distinct_free = tt;
  free_in = λ k h. ground (arith, h);
  parts = λ k. ground arith;
  counted = refl;
  total = refl;
  listed = omega arith;
  bounded = omega arith;
}
