-- ===== src/Caches/HeapCache/Resize.antt =====
-- `_consistency_check`, `clear`, `set_max_size` and the copy assignment.
use cpp_util.Prelude.{
  ℕ, ◌+◌, ◌-◌, ◌≤◌, ◌<◌, ◌≡◌, refl, sym, some, List, [], ◌∷◌, length, get_elem?, ltb, ◌==◌,
  if◌then◌else◌, Bool-cases, inl, inr, true, false, ok, Returns, returns, Returns-map, Returns-if,
  if_pos, le→leb, eq→==, arith,
}
use cpp_util.Dict.{find}
use cpp_util.Caches.HeapCache.{
  Citem, HeapCache, heap_cache, size, empty, consistency_check, set_max_size, clear, copy_assign,
  move_assign, copy, move,
}
use cpp_util.Caches.HeapCache.Invariant.{IsSound, IsValid}
use cpp_util.Caches.HeapCache.Remove.{del_back_until-Shrunk}

bottom_alone {ℓ} :
    {K : Type ℓ} (k : K) (l : List K) → length l ≡ 1 → get_elem? l 0 ≡ some k → l ≡ k ∷ []
bottom_alone k [] n e = absurd (omega arith)
bottom_alone k (x ∷ []) n e = cc
bottom_alone k (x ∷ y ∷ l) n e = absurd (omega arith)

nothing {ℓ} : {A : Type ℓ} (m : List A) → length m ≡ 0 → m ≡ []
nothing [] n = refl
nothing (x ∷ m) n = absurd (omega arith)

module _ {ℓ} {K V : Type ℓ} (dec : Discrete K) (key0 : K) where
  -- A valid cache passes the check of every method.
  pub consistency_check-ok :
      (h : HeapCache K V) → IsValid dec key0 h → consistency_check dec key0 h ≡ ok tt
  unfolding consistency_check
  consistency_check-ok h v =
      rw
        (
          le→leb 1 (length h.heap) (omega (arith, v.sound.sized)),
          le→leb (length h.heap - 1) h.max_size (omega (arith, v.sound.sized, v.bounded)),
          le→leb (length h.keymap) h.max_size v.bounded,
          v.sound.sized,
          eq→== (length h.heap) (length h.heap) refl,
          v.sound.sentinel,
          if_pos (dec key0 key0) refl true false,
        )
        refl

  pub heap_cache-IsValid : (max : ℕ) → IsValid {V = V} dec key0 (heap_cache key0 max)
  unfolding heap_cache find
  heap_cache-IsValid max = record {
    sound = record {
      linked = record {
        unique = tt;
        located = λ k c f. absurd (ground arith);
        held = λ i k pos g. absurd (ground arith);
      };
      ordered = λ k p c d f g o. absurd (ground arith);
      sized = refl;
      sentinel = refl;
    };
    bounded = omega arith;
  }

  -- What `set_max_size(max)` makes of a cache.
  pub record Resized (max : ℕ) (h h' : HeapCache K V) : Type ℓ where
    pub valid : IsValid dec key0 h'
    pub limit : h'.max_size ≡ max
    pub sized : size h' ≡ (if ltb max (size h) then max - 1 else size h)
    pub fewer : (k : K) (c : Citem V) → find dec k h'.keymap ≡ some c → find dec k h.keymap ≡ some c
    pub stays :
        (k : K) (c : Citem V)
        → find dec k h.keymap ≡ some c
        → c.loc ≤ size h'
        → find dec k h'.keymap ≡ some c

  -- A valid cache is resized to any positive bound: it stays valid, has the new bound, and if it
  -- was larger than that it keeps the first max - 1 places of its heap, and else everything.
  pub set_max_size-Resized :
      (max : ℕ) (h : HeapCache K V)
      → IsValid dec key0 h
      → 0 < max
      → Returns (Resized max h) (set_max_size dec key0 max h)
  unfolding set_max_size size
  set_max_size-Resized max h v pos =
      let sound : IsSound dec key0 (record h { max_size = max }) = record {
        linked = record {
          unique = v.sound.linked.unique;
          located = v.sound.linked.located;
          held = v.sound.linked.held;
        };
        ordered = v.sound.ordered;
        sized = v.sound.sized;
        sentinel = v.sound.sentinel;
      } in
      rw (consistency_check-ok h v) (
        Returns-if (ltb max (length h.heap - 1))
          (λ smaller.
            let size = v.sound.sized in
            Returns-map
              (del_back_until-Shrunk dec (length h.heap + 1) max key0 _ sound pos (ground arith)
                (omega arith))
              λ h' (s, d). record {
                valid = record { sound = s; bounded = ground (arith, s.sized, d.shorter, d.limit) };
                limit = d.limit;
                sized = ground (arith, s.sized, d.shorter);
                fewer = d.fewer;
                stays = λ k c f l. d.stays k c f (omega (arith, s.sized));
              })
          (λ larger. returns (record {
            valid = record { sound = sound; bounded = ground (arith, v.sound.sized) };
            limit = refl;
            sized = ground (arith, v.sound.sized);
            fewer = λ k c f. f;
            stays = λ k c f l. f;
          })))

  -- `clear` leaves a new cache with the same bound.
  pub clear-heap_cache :
      (h : HeapCache K V) → IsValid dec key0 h → clear dec key0 h ≡ ok (heap_cache key0 h.max_size)
  unfolding clear heap_cache
  clear-heap_cache h v = rw (consistency_check-ok h v) refl

  -- The copy assignment of a valid cache gives exactly that cache, an empty one included.
  pub copy_assign-other :
      (other h : HeapCache K V)
      → IsValid dec key0 other
      → IsValid dec key0 h
      → copy_assign dec key0 other h ≡ ok other
  unfolding copy_assign empty size
  copy_assign-other other h vo v =
      rw (consistency_check-ok h v) (elim (Bool-cases (length other.keymap == 0)) [
        | inl none_there ↦
            let m = nothing other.keymap (ground arith) in
            let l =
              bottom_alone key0 other.heap (ground (arith, vo.sound.sized)) vo.sound.sentinel in
            rw none_there
              (λ i. ok (record { keymap = sym m i; heap = sym l i; max_size = other.max_size }))
        | inr some_there ↦ rw some_there refl
      ])

  -- Of a valid cache, the move assignment to a valid cache, the copy constructor and the move
  -- constructor all give exactly that cache.
  pub move_assign-other :
      (other h : HeapCache K V)
      → IsValid dec key0 other
      → IsValid dec key0 h
      → (move_assign dec key0 other h ≡ ok other)
        × (copy dec key0 other ≡ ok other)
        × (move dec key0 other ≡ ok other)
  unfolding move_assign move copy
  move_assign-other other h vo v = (
    rw (consistency_check-ok h v) refl,
    copy_assign-other other (heap_cache key0 1) vo (heap_cache-IsValid 1),
    rw (consistency_check-ok (heap_cache key0 1) (heap_cache-IsValid 1)) refl,
  )
