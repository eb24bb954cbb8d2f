-- ===== src/Caches/HeapCache/Evict.antt =====
-- The evictions of `insert`: the new key's item is in the map while the heap makes room for it.
use cpp_util.Prelude.{
  ℕ, zero, suc, ◌-◌, ◌/◌, ◌<◌, ◌≡◌, refl, ◌≢◌, ap, none, ◌∷◌, length, leb, ◌==◌, if◌then◌else◌,
  Bool-cases, Option-cases, inl, inr, Returns, returns, Returns-map, Returns-bind, if_pos, if_neg,
  lt→ltb, arith,
}
use cpp_util.Dict.{find, erase, modify}
use cpp_util.Caches.HeapCache.{
  Citem, HeapCache, size, del_back, del_back_times, del_back_full, make_room,
}
use cpp_util.Caches.HeapCache.Invariant.{IsSound}
use cpp_util.Caches.HeapCache.Remove.{
  Dropped, Dropped-refl, Dropped-trans, Shrunk, last_key, without, without-IsSound, without-Dropped,
  evicted,
}

-- The item of a new key.
abbrev pub item {ℓ} : {V : Type ℓ} → V → ℕ → Citem V
item v l = record { val = v; loc = l; count = 0 }

-- How many entries an insertion into `h` evicts.
abbrev pub room_made {ℓ} : {K V : Type ℓ} → HeapCache K V → ℕ
room_made h = if suc (size h) == h.max_size then evicted h.max_size else 0

module _ {ℓ} {K V : Type ℓ} (dec : Discrete K) (key0 k : K) where
  -- The map has an item for `k`, and the heap has no place for it yet.
  abbrev pub pend : Citem V → HeapCache K V → HeapCache K V
  pend c h = record h { keymap = (k, c) ∷ h.keymap }

  -- A pending cache whose heap has lost `n` entries.
  abbrev PendShrunk : Citem V → ℕ → HeapCache K V → HeapCache K V → Type ℓ
  PendShrunk c n h g = (h' : HeapCache K V) × (g ≡ pend c h') × Shrunk dec key0 n h h'

  pend-del_back :
      (c : Citem V) (h : HeapCache K V)
      → IsSound dec key0 h
      → find dec k h.keymap ≡ none
      → 1 < length h.heap
      → Returns (PendShrunk c 1 h) (del_back dec (pend c h))
  unfolding del_back erase
  pend-del_back c h s fresh more =
      let (q, d, at_back, f, l) = last_key dec h s more in
      let u : k ≢ q = λ e. cc (fresh, f, ap (λ x. find dec x h.keymap) e) in
      rw (lt→ltb _ _ more, at_back, if_neg (dec k q) u)
        (returns (
          without dec key0 h s q d f l,
          refl,
          (without-IsSound dec key0 h s q d f l, without-Dropped dec key0 h s q d f l),
        ))

  pub still_fresh :
      {n : ℕ} (h h' : HeapCache K V)
      → Dropped dec n h h'
      → find dec k h.keymap ≡ none
      → find dec k h'.keymap ≡ none
  still_fresh h h' d fresh = elim (Option-cases (find dec k h'.keymap)) [
    | inl gone ↦ gone
    | inr (c, there) ↦ absurd (cc (d.fewer k c there))
  ]

  pend-del_back_times :
      (n : ℕ) (c : Citem V) (h : HeapCache K V)
      → IsSound dec key0 h
      → find dec k h.keymap ≡ none
      → n < length h.heap
      → Returns (PendShrunk c n h) (del_back_times dec n (pend c h))
  unfolding del_back_times
  pend-del_back_times zero c h s fresh more = returns (h, refl, (s, Dropped-refl dec h))
  pend-del_back_times (suc n) c h s fresh more =
      Returns-bind (pend-del_back c h s fresh (omega arith)) λ g (h', e, (s', d)). rw e (
        Returns-map
          (pend-del_back_times n c h' s' (still_fresh h h' d fresh) (omega (arith, d.shorter)))
          λ g' (h'', e', (s'', d')). (h'', e', (s'', Dropped-trans dec d d')))

  pend-del_back_full :
      (c : Citem V) (h : HeapCache K V)
      → IsSound dec key0 h
      → find dec k h.keymap ≡ none
      → length h.heap ≡ h.max_size
      → 1 < h.max_size
      → Returns (PendShrunk c (evicted h.max_size) h) (del_back_full dec (pend c h))
  unfolding del_back_full
  pend-del_back_full c h s fresh full big = elim (Bool-cases (leb h.max_size 4)) [
    | inl few ↦ rw few (pend-del_back c h s fresh (omega arith))
    | inr many ↦
        rw many (pend-del_back_times (h.max_size - h.max_size / 2) c h s fresh (ground arith))
  ]

  pub make_room-Shrunk :
      (v : V) (h : HeapCache K V)
      → IsSound dec key0 h
      → find dec k h.keymap ≡ none
      → 1 < h.max_size
      → Returns
          (λ g.
            (h' : HeapCache K V) × (g ≡ pend (item v (length h'.heap)) h')
            × Shrunk dec key0 (room_made h) h h')
          (make_room dec k (pend (item v (length h.heap)) h))
  unfolding make_room size modify
  make_room-Shrunk v h s fresh big = elim (Bool-cases (suc (length h.keymap) == h.max_size)) [
    | inl full ↦ rw full (
        Returns-bind
          (pend-del_back_full (item v (length h.heap)) h s fresh (ground (arith, s.sized)) big)
          λ g (h', e, shrunk). rw e (returns (h', rw (if_pos (dec k k) refl) refl, shrunk)))
    | inr free ↦ rw free (returns (h, refl, (s, Dropped-refl dec h)))
  ]
