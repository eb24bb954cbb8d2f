-- ===== src/Caches/HeapCache.antt =====
-- src/caches/lfu_cache.hpp and heap_cache.tpp: `heap_cache`, a map from keys to items and a binary
-- max-heap of the keys by how often they were looked up. A method returns the new state.
pub mod Invariant
pub mod Trade
pub mod Sift
pub mod Remove
pub mod Resize
pub mod Evict
pub mod Push
pub mod Insert
pub mod Lookup
pub mod Contract
pub mod Print
mod Tests
use cpp_util.Prelude.{
  ℕ, zero, suc, ◌+◌, ◌-◌, ◌/◌, ◌%◌, ◌^◌, Bool, true, false, Option, none, some, List, [], ◌∷◌, ◌++◌,
  ite, length, get_elem?, set, drop_last, back, ltb, leb, ◌==◌, if◌then◌else◌, Run, ok, fault,
  undefined, out_of_range, out_of_fuel, ◌>>=◌, ◌>>◌, assert, or_else,
}
use cpp_util.Dict.{find, emplace, erase, modify}

-- `citem`
pub record Citem {ℓ} (V : Type ℓ) : Type ℓ where
  pub val : V
  pub loc : ℕ
  pub count : ℕ  -- size_t

pub record HeapCache {ℓ} (K V : Type ℓ) : Type ℓ where
  pub keymap : List (K × Citem V)
  pub heap : List K
  pub max_size : ℕ

module _ {ℓ} {K V : Type ℓ} where
  -- The constructor; `key0` is `Key()`, the entry of the heap that no index uses.
  unfoldable pub heap_cache : K → ℕ → HeapCache K V
  heap_cache key0 max = record { keymap = []; heap = key0 ∷ []; max_size = max }

  unfoldable pub size : HeapCache K V → ℕ
  size h = length h.keymap

  unfoldable pub empty : HeapCache K V → Bool
  unfolding size
  empty h = size h == 0

  unfoldable pub get_max_size : HeapCache K V → ℕ
  get_max_size h = h.max_size

module _ {ℓ} {V : Type ℓ} where
  -- `++it->second.count`
  abbrev pub count_up : Citem V → Citem V
  count_up c = record c { count = (c.count + 1) % 2 ^ 64 }

  abbrev pub move_to : ℕ → Citem V → Citem V
  move_to l c = record c { loc = l }

module _ {ℓ} {K : Type ℓ} where
  -- `std::swap(heap[i], heap[j])`
  unfoldable pub swap_heap : ℕ → ℕ → List K → Run (List K)
  swap_heap i j heap = do
    x ← or_else (get_elem? heap i) undefined
    y ← or_else (get_elem? heap j) undefined
    ok (set (set heap i y) j x)

module _ {ℓ} {K V : Type ℓ} (dec : Discrete K) where
  unfoldable pub contains : HeapCache K V → K → Bool
  unfolding find
  contains h k = elim (find dec k h.keymap) [ none ↦ false | some _ ↦ true ]

  -- `keymap.at(k)`
  abbrev pub at : K → HeapCache K V → Run (Citem V)
  at k h = or_else (find dec k h.keymap) out_of_range

  -- The two swaps of a round, `c` and `p` being the items of `k` and of its parent `pk`.
  unfoldable pub swap_parent : K → K → Citem V → Citem V → HeapCache K V → Run (HeapCache K V)
  unfolding swap_heap
  swap_parent k pk c p h = do
    heap ← swap_heap p.loc c.loc h.heap
    ok (record h {
      keymap = modify dec pk (move_to c.loc) (modify dec k (move_to p.loc) h.keymap);
      heap = heap;
    })

  -- The `while` of `increase_key`.
  unfoldable pub sift_up : ℕ → K → HeapCache K V → Run (HeapCache K V)
  sift_up zero k h = fault out_of_fuel
  sift_up (suc fuel) k h = do
    c ← at k h
    let round : Run (HeapCache K V) = do
      pk ← or_else (get_elem? h.heap (c.loc / 2)) undefined
      p ← at pk h
      let rise = swap_parent k pk c p h >>= sift_up fuel k
      if leb c.count p.count then ok h else rise
    if ltb 1 c.loc then round else ok h

  unfoldable pub increase_key : K → HeapCache K V → Run (HeapCache K V)
  unfolding sift_up swap_parent
  increase_key k h = do
    c ← at k h
    assert (ltb c.loc (length h.heap))
    assert (ltb 0 c.loc)
    sift_up (c.loc + 1) k h

  unfoldable pub del_back : HeapCache K V → Run (HeapCache K V)
  del_back h = do
    assert (ltb 1 (length h.heap))
    k ← or_else (back h.heap) undefined
    ok (record h { keymap = erase dec k h.keymap; heap = drop_last h.heap })

  -- A loop of `n` calls.
  unfoldable pub del_back_times : ℕ → HeapCache K V → Run (HeapCache K V)
  del_back_times zero h = ok h
  del_back_times (suc n) h = del_back h >>= del_back_times n

  -- max_size * REFRESH_RATIO, rounded down, is max_size / 2: the product of a double below 2^53.
  unfoldable pub del_back_full : HeapCache K V → Run (HeapCache K V)
  unfolding del_back_times del_back
  del_back_full h =
      if leb h.max_size 4 then del_back h else del_back_times (h.max_size - h.max_size / 2) h

  -- The part of `insert` behind the emplacement of a new key.
  unfoldable pub make_room : K → HeapCache K V → Run (HeapCache K V)
  unfolding del_back_full
  make_room k h =
      if length h.keymap == h.max_size
      then (do
        h' ← del_back_full h
        ok (record h' { keymap = modify dec k (move_to (length h'.heap)) h'.keymap }))
      else ok h

  -- `while(heap.size() != max) _del_back();`
  unfoldable pub del_back_until : ℕ → ℕ → HeapCache K V → Run (HeapCache K V)
  del_back_until zero max h = fault out_of_fuel
  del_back_until (suc fuel) max h =
      let rest = del_back h >>= del_back_until fuel max in
      if length h.heap == max then ok h else rest

  module _ (key0 : K) where
    unfoldable pub consistency_check : HeapCache K V → Run (Unit {0})
    consistency_check h = do
      assert (leb 1 (length h.heap))
      assert (leb (length h.heap - 1) h.max_size)
      assert (leb (length h.keymap) h.max_size)
      assert (length h.keymap + 1 == length h.heap)
      k ← or_else (get_elem? h.heap 0) undefined
      assert (ite (dec k key0) true false)

    unfoldable pub insert : K → V → HeapCache K V → Run (HeapCache K V × Bool)
    unfolding consistency_check make_room
    insert k v h = do
      consistency_check h
      let (m, fresh) = emplace dec k (record { val = v; loc = length h.heap; count = 0 }) h.keymap
      let add : Run (HeapCache K V × Bool) = do
        h' ← make_room k (record h { keymap = m })
        ok (record h' { heap = h'.heap ++ k ∷ [] }, true)
      if h.max_size == 0 then ok (h, false) else if fresh then add else ok (h, false)

    unfoldable pub lookup : K → HeapCache K V → Run (HeapCache K V × Option V)
    unfolding consistency_check increase_key
    lookup k h = do
      consistency_check h
      elim (find dec k h.keymap) [
        | none ↦ ok (h, none)
        | some c ↦ do
          h' ← increase_key k (record h { keymap = modify dec k count_up h.keymap })
          ok (h', some c.val)
      ]

    unfoldable pub clear : HeapCache K V → Run (HeapCache K V)
    unfolding consistency_check
    clear h = do consistency_check h; ok (record h { keymap = []; heap = key0 ∷ [] })

    unfoldable pub set_max_size : ℕ → HeapCache K V → Run (HeapCache K V)
    unfolding consistency_check del_back_until del_back
    set_max_size max h = do
      consistency_check h
      let h' = record h { max_size = max }
      if ltb max (length h.heap - 1) then del_back_until (length h.heap + 1) max h' else ok h'

    -- `*this = other`, for another object.
    unfoldable pub copy_assign : HeapCache K V → HeapCache K V → Run (HeapCache K V)
    unfolding clear empty
    copy_assign other h = do
      h' ← clear h
      let sized = record h' { max_size = other.max_size }
      ok (if empty other then sized else record sized { heap = other.heap; keymap = other.keymap })

    -- `*this = std::move(other)`, for another object; what is left of `other` is unspecified.
    unfoldable pub move_assign : HeapCache K V → HeapCache K V → Run (HeapCache K V)
    unfolding clear
    move_assign other h = do
      h' ← clear h
      ok (record h' { max_size = other.max_size; heap = other.heap; keymap = other.keymap })

    -- The copy constructor, which assigns to a cache of size 1.
    unfoldable pub copy : HeapCache K V → Run (HeapCache K V)
    unfolding copy_assign heap_cache
    copy other = copy_assign other (heap_cache key0 1)

    -- The move constructor.
    unfoldable pub move : HeapCache K V → Run (HeapCache K V)
    unfolding move_assign heap_cache
    move other = move_assign other (heap_cache key0 1)
