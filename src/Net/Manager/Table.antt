-- ===== src/Net/Manager/Table.antt =====
-- The table of connections: its ids are those in use and those that are free, and no others.
use plain.Prelude.{
  ℕ, ◌+◌, ◌-◌, ◌≤◌, ◌<◌, ◌≡◌, ◌∙◌, refl, sym, ap, ◌⊎◌, inl, inr, Bool, true, false, not, ◌&&◌, ◌||◌,
  Option, none, some, List, [], ◌∷◌, ◌++◌, length, length-append, length-set, get_elem?, set, ltb,
  leb, ◌==◌, if◌then◌else◌, arith,
}
use plain.Prelude.Sets.{
  has, emplace_id, IsDistinct, has-emplace_id, length-emplace_id, emplace_id-IsDistinct,
}
use plain.Net.Connection
use plain.Net.Connection.{Connection}
use plain.Net.Manager.{ConnectionInfo, is_full, take_id, reset_conn, new_conn}
use mathlib.Core.Path.{subst}
use mathlib.Core.Bool.{false≢true}
use native.Mathlib.Decide.{dec_lt, ℕ_discrete}

pub record IsTable (t : ConnectionInfo) : Type 0 where
  pub distinct_ids : IsDistinct t.ids
  pub distinct_free : IsDistinct t.free_ids
  pub free_in : (k : ℕ) → has k t.free_ids ≡ true → (0 < k) × (k ≤ t.max_id)
  pub parts : (k : ℕ) → has k t.ids ≡ (ltb 0 k && leb k t.max_id && not (has k t.free_ids))
  pub counted : t.size ≡ length t.ids
  pub total : length t.ids + length t.free_ids ≡ t.max_id
  pub listed : t.max_id ≤ length t.list
  pub bounded : t.max_id ≤ t.max_count

pub List-cases : (xs : List ℕ) → (xs ≡ []) ⊎ ((x : ℕ) × (rest : List ℕ) × (xs ≡ x ∷ rest))
List-cases [] = inl refl
List-cases (x ∷ rest) = inr (x, rest, refl)

length-reset_conn :
    (closed : Bool) (id : ℕ) (list : List Connection)
    → length (reset_conn closed id list) ≡ length list
unfolding reset_conn
length-reset_conn closed id list =
    elim (get_elem? list (id - 1))
      as (λ o.
        length (elim o as (λ _. List Connection) [
          | none ↦ list
          | some c ↦ set list (id - 1) (Connection.init closed (record c { id = some id })).1
        ])
        ≡ length list) [
          | none ↦ refl
          | some c ↦ length-set list (id - 1) (Connection.init closed (record c { id = some id })).1
        ]

-- The table with a free id in use again, and with the next id.
abbrev pub reused : Bool → ℕ → List ℕ → ConnectionInfo → ConnectionInfo
reused closed id rest t = record t {
  free_ids = rest;
  list = reset_conn closed id t.list;
  size = t.size + 1;
  ids = emplace_id id t.ids;
}

abbrev pub longer : ConnectionInfo → List Connection
longer t =
    if ltb (length t.list) (t.max_id + 1)
    then t.list ++ (Connection.new_connection ∷ [])
    else t.list

abbrev pub extended : Bool → ConnectionInfo → ConnectionInfo
extended closed t = record t {
  max_id = t.max_id + 1;
  list = reset_conn closed (t.max_id + 1) (longer t);
  size = t.size + 1;
  ids = emplace_id (t.max_id + 1) t.ids;
}

module _ (closed : Bool) (t : ConnectionInfo) where
  pub new_conn_reuses :
      (id : ℕ) (rest : List ℕ)
      → t.free_ids ≡ id ∷ rest
      → new_conn closed t ≡ (some id, reused closed id rest t)
  unfolding new_conn take_id is_full
  new_conn_reuses id rest e = simp e (ground arith)

  pub new_conn_extends :
      t.free_ids ≡ []
      → t.max_id < t.max_count
      → new_conn closed t ≡ (some (t.max_id + 1), extended closed t)
  unfolding new_conn take_id is_full
  new_conn_extends e room = simp e (ground arith)

  pub new_conn_refused : t.free_ids ≡ [] → t.max_count ≤ t.max_id → new_conn closed t ≡ (none, t)
  unfolding new_conn take_id is_full
  new_conn_refused e full = simp e (ground arith)

  module _ (v : IsTable t) (id : ℕ) (rest : List ℕ) (e : t.free_ids ≡ id ∷ rest) where
    free : (k : ℕ) → has k t.free_ids ≡ ((k == id) || has k rest)
    free k = ap (has k) e

    distinct : (has id rest ≡ false) × IsDistinct rest
    distinct = subst IsDistinct e v.distinct_free

    free_id : has id t.free_ids ≡ true
    free_id = ground (arith, free id)

    pub reused_new : has id t.ids ≡ false
    reused_new = ground (arith, v.parts id, free_id)

    reused_parts :
        (k : ℕ) → has k (emplace_id id t.ids) ≡ (ltb 0 k && leb k t.max_id && not (has k rest))
    reused_parts k = elim (ℕ_discrete k id) [
      | yes same ↦ ground (arith, same, has-emplace_id k id t.ids, v.free_in id free_id, distinct.0)
      | no other ↦ ground (arith, has-emplace_id k id t.ids, v.parts k, free k)
    ]

    pub reused-IsTable : IsTable (reused closed id rest t)
    reused-IsTable = record {
      distinct_ids = emplace_id-IsDistinct id t.ids v.distinct_ids;
      distinct_free = distinct.1;
      free_in = λ k h. v.free_in k (ground (arith, free k, h));
      parts = reused_parts;
      counted = omega (arith, v.counted, length-emplace_id id t.ids reused_new);
      total = omega (arith, v.total, ap length e, length-emplace_id id t.ids reused_new);
      listed = omega (arith, length-reset_conn closed id t.list, v.listed);
      bounded = v.bounded;
    }

  module _ (v : IsTable t) (e : t.free_ids ≡ []) (room : t.max_id < t.max_count) where
    free_none : (k : ℕ) → has k t.free_ids ≡ false
    free_none k = ap (has k) e

    pub extended_new : has (t.max_id + 1) t.ids ≡ false
    extended_new = ground (arith, v.parts (t.max_id + 1))

    extended_parts :
        (k : ℕ)
        → has k (emplace_id (t.max_id + 1) t.ids)
          ≡ (ltb 0 k && leb k (t.max_id + 1) && not (has k t.free_ids))
    extended_parts k = elim (ℕ_discrete k (t.max_id + 1)) [
      | yes same ↦ ground (arith, same, has-emplace_id k (t.max_id + 1) t.ids, free_none k)
      | no other ↦ ground (arith, has-emplace_id k (t.max_id + 1) t.ids, v.parts k, free_none k)
    ]

    length-longer : t.max_id + 1 ≤ length (longer t)
    length-longer = ground (arith, v.listed, length-append t.list (Connection.new_connection ∷ []))

    pub extended-IsTable : IsTable (extended closed t)
    extended-IsTable = record {
      distinct_ids = emplace_id-IsDistinct (t.max_id + 1) t.ids v.distinct_ids;
      distinct_free = v.distinct_free;
      free_in = λ k h. absurd (false≢true (sym (free_none k) ∙ h));
      parts = extended_parts;
      counted = omega (arith, v.counted, length-emplace_id (t.max_id + 1) t.ids extended_new);
      total = omega (arith, v.total, length-emplace_id (t.max_id + 1) t.ids extended_new);
      listed = omega (arith, length-reset_conn closed (t.max_id + 1) (longer t), length-longer);
      bounded = omega (arith, room);
    }

-- What `new_conn` gives: nothing, if every id up to the largest count is in use; else an id that was
-- not in use and now is, beside the others.
abbrev pub Gained : ConnectionInfo → Option ℕ → ConnectionInfo → Type 0
Gained t none t' = (t' ≡ t) × (t.max_count ≤ length t.ids)
Gained t (some id) t' =
    (has id t.ids ≡ false)
    × (0 < id)
    × (id ≤ t.max_count)
    × ((k : ℕ) → has k t'.ids ≡ ((k == id) || has k t.ids))

-- `new_conn` keeps the table valid. It fails and changes nothing just when as many ids as the
-- largest count are in use; else it gives an id from 1 up to that count which was not in use, and
-- just this id comes into use.
pub new_conn-IsTable :
    (closed : Bool) (t : ConnectionInfo)
    → IsTable t
    → let (found, t') = new_conn closed t in IsTable t' × Gained t found t'
new_conn-IsTable closed t v = elim (List-cases t.free_ids) [
  | inr (id, rest, e) ↦ rw (new_conn_reuses closed t id rest e) (
    reused-IsTable closed t v id rest e,
    (
      reused_new closed t v id rest e,
      (v.free_in id (free_id closed t v id rest e)).0,
      omega (arith, v.free_in id (free_id closed t v id rest e), v.bounded),
      λ k. has-emplace_id k id t.ids,
    ),
  )
  | inl e ↦ elim (dec_lt t.max_id t.max_count) [
    | yes room ↦ rw (new_conn_extends closed t e room) (
      extended-IsTable closed t v e room,
      (
        extended_new closed t v e room,
        omega arith,
        omega (arith, room),
        λ k. has-emplace_id k (t.max_id + 1) t.ids,
      ),
    )
    | no full ↦
        rw (new_conn_refused closed t e (omega arith))
          (v, (refl, omega (arith, v.total, ap length e)))
  ]
]
