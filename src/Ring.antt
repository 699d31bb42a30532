-- ===== src/Ring.antt =====
-- The ring buffer of framework/core/include/plain/basic/ring.h: the class template `Ring` and the
-- two classes that give it storage, `FixedRing` and `DynamicRing`. One thread calls at a time, so
-- an atomic is its value. A method that changes the ring returns the new ring beside its result.
pub mod Window
pub mod Invariant
pub mod Store
pub mod Grow
pub mod Write
pub mod Read
pub mod Loss
pub mod Insert
mod Tests
use plain.Prelude.{
  ℕ, zero, suc, ◌+◌, ◌-◌, bit_and, Bool, true, false, ◌&&◌, Option, none, some, List, [], ◌∷◌, ◌++◌,
  length, get_or, set, take, replicate, ltb, leb, ◌==◌, if◌then◌else◌,
}
use plain.Prelude.Words.{add64, sub64, shl64}

-- The class that holds the storage, with the template argument SIZE of `DynamicRing`.
pub data Storage : Type 0 where
  fixed : Storage
  dynamic : ℕ → Storage

pub record Ring {ℓ} (A : Type ℓ) : Type ℓ where
  pub storage : Storage
  pub head : ℕ
  pub tail : ℕ
  pub size : ℕ
  pub mask : ℕ
  pub buffer : List A

-- The rounds of the loop that doubles the size until `count` items fit beside the `used` ones.
unfoldable pub grow_size : ℕ → ℕ → ℕ → ℕ → ℕ
grow_size zero used count size = size
grow_size (suc rounds) used count size =
    let more = grow_size rounds used count (shl64 size) in
    if leb count (sub64 size used) then size else more

module _ {ℓ} {A : Type ℓ} where
  unfoldable pub set_buffer : Ring A → List A → ℕ → Ring A
  set_buffer r buffer size = record r { buffer = buffer; size = size; mask = sub64 size 1 }

  unfoldable pub read_avail : Ring A → ℕ
  read_avail r = sub64 r.head r.tail

  unfoldable pub write_avail : Ring A → ℕ
  write_avail r = sub64 r.size (sub64 r.head r.tail)

  unfoldable pub full : Ring A → Bool
  unfolding write_avail
  full r = 0 == write_avail r

  unfoldable pub empty : Ring A → Bool
  unfolding read_avail
  empty r = 0 == read_avail r

  unfoldable pub consumer_clear : Ring A → Ring A
  consumer_clear r = record r { tail = 0; head = 0 }

  unfoldable pub producer_clear : Ring A → Ring A
  unfolding consumer_clear
  producer_clear r = consumer_clear r

  -- `remove(std::size_t count)`
  unfoldable pub remove_count : Ring A → ℕ → ℕ × Ring A
  remove_count r n =
      let avail = sub64 r.head r.tail in
      let count = if ltb avail n then avail else n in
      if count == avail
      then (count, record r { tail = 0; head = 0 })
      else (count, record r { tail = add64 r.tail count })

  -- `buffer_[tmp_head++ & mask_] = buffer[i]` for each item; the last `tmp_head` and the cells.
  unfoldable pub store : ℕ → ℕ → List A → List A → ℕ × List A
  store mask tmp_head [] cells = (tmp_head, cells)
  store mask tmp_head (x ∷ xs) cells =
      store mask (add64 tmp_head 1) xs (set cells (bit_and tmp_head mask) x)

-- `blank` is the value `T{}` that a new cell holds.
module _ {ℓ} {A : Type ℓ} (blank : A) where
  -- `std::vector<T>::resize`
  unfoldable pub resize_vector : List A → ℕ → List A
  resize_vector cells n = take n cells ++ replicate (n - length cells) blank

  resize_dynamic : ℕ → Ring A → ℕ → Ring A
  unfolding resize_vector set_buffer
  resize_dynamic initial r n =
      if n == 0
      then set_buffer r (resize_vector [] initial) initial
      else set_buffer r (resize_vector r.buffer n) n

  resize_by : Storage → Ring A → ℕ → Bool × Ring A
  unfolding resize_dynamic
  resize_by fixed r n = (false, r)
  resize_by (dynamic initial) r n = (true, resize_dynamic initial r n)

  -- The virtual method `resize`: `Ring::resize` refuses, and `DynamicRing::resize` overrides it.
  unfoldable pub resize : Ring A → ℕ → Bool × Ring A
  unfolding resize_by
  resize r n = resize_by r.storage r n

  unfoldable pub empty_ring : Storage → Ring A
  empty_ring storage = record {
    storage = storage;
    head = 0;
    tail = 0;
    size = 0;
    mask = 0;
    buffer = [];
  }

  -- The constructors: `T buffer_[SIZE + 1]{0}`, and a vector of SIZE cells.
  unfoldable pub fixed_ring : ℕ → Ring A
  unfolding empty_ring set_buffer
  fixed_ring n = set_buffer (empty_ring fixed) (replicate (n + 1) blank) n

  unfoldable pub dynamic_ring : ℕ → Ring A
  unfolding empty_ring set_buffer resize_vector
  dynamic_ring n = set_buffer (empty_ring (dynamic n)) (resize_vector [] n) n

  unfoldable pub can_insert : Ring A → Bool × Ring A
  can_insert r = if sub64 r.head r.tail == r.size then resize r (shl64 r.size) else (true, r)

  unfoldable pub insert : Ring A → A → Bool × Ring A
  unfolding can_insert
  insert r x =
      let tmp_head = r.head in
      let (room, r') = can_insert r in
      if room
      then (
        true,
        record r' { buffer = set r'.buffer (bit_and tmp_head r'.mask) x; head = add64 tmp_head 1 },
      )
      else (false, r')

  -- `remove(T *data)`: the result and what goes through `data`.
  unfoldable pub remove : Ring A → Option A × Ring A
  remove r = if r.tail == r.head then (none, r) else (
    some (get_or r.buffer (bit_and r.tail r.mask) blank),
    record r { tail = add64 r.tail 1 },
  )

  -- The part of `write` that makes room: the available cells, and the ring.
  unfoldable pub reserve : Ring A → ℕ → ℕ × Ring A
  reserve r count =
      let used = sub64 r.head r.tail in
      let (done, r') = resize r (grow_size 99 used count (shl64 r.size)) in
      if ltb (sub64 r.size used) count
      then (if done then sub64 r'.size used else sub64 r.size used, r')
      else (sub64 r.size used, r)

  unfoldable pub write : Ring A → List A → Bool → ℕ × Ring A
  unfolding reserve store
  write r items all =
      let count = length items in
      let (available, r') = reserve r count in
      let to_write = if ltb available count then available else count in
      let (tmp_head, cells) = store r'.mask r.head (take to_write items) r'.buffer in
      if ltb available count && all
      then (0, r')
      else (to_write, record r' { head = tmp_head; buffer = cells })

  -- `buffer[i] = buffer_[tmp_tail++ & mask_]`: the items, and the last `tmp_tail`.
  unfoldable pub load : ℕ → ℕ → ℕ → List A → List A × ℕ
  load mask tmp_tail zero cells = ([], tmp_tail)
  load mask tmp_tail (suc n) cells =
      let (items, last) = load mask (add64 tmp_tail 1) n cells in
      (get_or cells (bit_and tmp_tail mask) blank ∷ items, last)

  -- The items that `read` copies out; the count that it returns is their number.
  unfoldable pub read : Ring A → ℕ → Bool → List A × Ring A
  unfolding load
  read r count read_only =
      let available = sub64 r.head r.tail in
      let to_read = if ltb available count then available else count in
      let (items, tmp_tail) = load r.mask r.tail to_read r.buffer in
      if read_only
      then (items, r)
      else if to_read == available
      then (items, record r { head = 0; tail = 0 })
      else (items, record r { tail = tmp_tail })

  unfoldable pub clear : Ring A → Ring A
  unfolding resize
  clear r = record (resize r 0).1 { tail = 0; head = 0 }

  -- The cell that the returned pointer names, `none` for nullptr.
  unfoldable pub peek : Ring A → ℕ → Option A
  unfolding read_avail
  peek r count =
      if ltb (read_avail r) count
      then none
      else some (get_or r.buffer (bit_and r.tail r.mask) blank)

  unfoldable pub at : Ring A → ℕ → Option A
  at r index =
      if leb (sub64 r.head r.tail) index
      then none
      else some (get_or r.buffer (bit_and (add64 r.tail index) r.mask) blank)

  -- `operator[]`
  unfoldable pub index_at : Ring A → ℕ → A
  index_at r index = get_or r.buffer (bit_and (add64 r.tail index) r.mask) blank
