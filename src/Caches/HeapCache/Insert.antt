-- ===== src/Caches/HeapCache/Insert.antt =====
-- `insert`, on every branch.
use cpp_util.Prelude.{
  ℕ, suc, ◌+◌, ◌<◌, ◌≡◌, refl, ◌≢◌, ◌∙◌, sym, ap, none, some, [], ◌∷◌, length, ◌==◌, Bool-cases,
  inl, inr, true, false, ok, fault, uassert, Returns, returns, Returns-bind, ge→ltb, le→leb, eq→==,
  ne→==, length-append, arith,
}
use cpp_util.Dict.{find}
use cpp_util.Dict.Laws.{emplace_absent, emplace_present, find-cons_self, find-cons_ne}
use cpp_util.Caches.HeapCache.{
  Citem, HeapCache, size, insert, lookup, clear, set_max_size, copy_assign, move_assign,
  consistency_check,
}
use cpp_util.Caches.HeapCache.Invariant.{IsSound, IsValid}
use cpp_util.Caches.HeapCache.Remove.{Shrunk}
use cpp_util.Caches.HeapCache.Resize.{consistency_check-ok}
use cpp_util.Caches.HeapCache.Evict.{item, room_made, still_fresh, make_room-Shrunk}
use cpp_util.Caches.HeapCache.Push.{pushed, pushed-IsSound}

module _ {ℓ} {K V : Type ℓ} (dec : Discrete K) (key0 k : K) where
  -- What `insert(k, v)` makes of a cache that did not have `k`.
  pub record Inserted (v : V) (h h' : HeapCache K V) : Type ℓ where
    pub valid : IsValid dec key0 h'
    pub limit : h'.max_size ≡ h.max_size
    pub room : size h' < h'.max_size
    pub sized : size h' + room_made h ≡ size h + 1
    pub here : find dec k h'.keymap ≡ some (item v (size h'))
    pub fewer :
        (j : K) (c : Citem V) → find dec j h'.keymap ≡ some c → k ≢ j → find dec j h.keymap ≡ some c
    pub stays :
        (j : K) (c : Citem V)
        → find dec j h.keymap ≡ some c
        → c.loc < size h'
        → find dec j h'.keymap ≡ some c

  pushed-Inserted :
      (v : V) (h h' : HeapCache K V)
      → IsSound dec key0 h
      → find dec k h.keymap ≡ none
      → 1 < h.max_size
      → size h < h.max_size
      → Shrunk dec key0 (room_made h) h h'
      → Inserted v h (pushed dec key0 k v h')
  unfolding size
  pushed-Inserted v h h' s fresh big room (s', d) =
      let fresh' = still_fresh dec key0 k h h' d fresh in
      let fits : length h'.keymap + 1 < h.max_size = ground (arith, s.sized, s'.sized, d.shorter) in
      record {
        valid = record {
          sound = pushed-IsSound dec key0 k v h' s' fresh';
          bounded = omega (arith, d.limit);
        };
        limit = d.limit;
        room = omega (arith, d.limit);
        sized = omega (arith, s.sized, s'.sized, d.shorter);
        here =
            find-cons_self dec k _ h'.keymap
            ∙ ap (λ (l : ℕ). some (item v l)) (omega (arith, s'.sized));
        fewer = λ j c f u. d.fewer j c (sym (find-cons_ne dec j k _ h'.keymap u) ∙ f);
        stays = λ j c f l.
            find-cons_ne dec j k _ h'.keymap (λ e. cc (fresh, f, ap (λ x. find dec x h.keymap) e))
            ∙ d.stays j c f (omega (arith, s'.sized));
      }

  -- A key that the cache does not have goes in, with a count of 0 and at the last place, into a
  -- valid cache with room and a bound of at least 2: the result is true and the cache is valid
  -- and has room again. If the new size would be the bound, one entry (up to a bound of 4) or half
  -- the bound, rounded up, goes first, from the last places; the other entries are untouched.
  pub insert-Inserted :
      (v : V) (h : HeapCache K V)
      → IsValid dec key0 h
      → 1 < h.max_size
      → size h < h.max_size
      → find dec k h.keymap ≡ none
      → Returns (λ r. Inserted v h r.0 × (r.1 ≡ true)) (insert dec key0 k v h)
  unfolding insert
  insert-Inserted v h valid big room fresh =
      rw
        (
          consistency_check-ok dec key0 h valid,
          emplace_absent dec k (item v (length h.heap)) h.keymap fresh,
          ne→== h.max_size 0 (omega arith),
        )
        (Returns-bind (make_room-Shrunk dec key0 k v h valid.sound fresh big) λ g (h', e, shrunk).
          rw e (returns (pushed-Inserted v h h' valid.sound fresh big room shrunk, refl)))

  -- A key that is there is left alone, whatever the new value.
  pub insert-present :
      (v : V) (h : HeapCache K V) (c : Citem V)
      → IsValid dec key0 h
      → find dec k h.keymap ≡ some c
      → insert dec key0 k v h ≡ ok (h, false)
  unfolding insert
  insert-present v h c valid there =
      rw
        (
          consistency_check-ok dec key0 h valid,
          emplace_present dec k (item v (length h.heap)) c h.keymap there,
        )
        (elim (Bool-cases (h.max_size == 0)) [ inl z ↦ rw z refl | inr nz ↦ rw nz refl ])

  -- Each call that checks the cache first fails.
  abbrev pub AllFail : HeapCache K V → Type ℓ
  AllFail x =
      ((j : K) (w : V) → insert dec key0 j w x ≡ fault uassert)
      × ((j : K) → lookup dec key0 j x ≡ fault uassert)
      × (clear dec key0 x ≡ fault uassert)
      × ((max : ℕ) → set_max_size dec key0 max x ≡ fault uassert)
      × ((other : HeapCache K V) → copy_assign dec key0 other x ≡ fault uassert)
      × ((other : HeapCache K V) → move_assign dec key0 other x ≡ fault uassert)

  overfull_fails : (x : HeapCache K V) → consistency_check dec key0 x ≡ fault uassert → AllFail x
  unfolding insert lookup clear set_max_size copy_assign move_assign
  overfull_fails x bad = (
    λ j w. rw bad refl,
    λ j. rw bad refl,
    rw bad refl,
    λ max. rw bad refl,
    λ other. rw bad refl,
    λ other. rw bad refl,
  )

  -- A cache that is full, as `set_max_size` may leave it, takes one new key too many without
  -- evicting any; behind that every call of `insert`, `lookup`, `clear` and `set_max_size` and every
  -- copy or move assignment to the cache fails the check.
  pub insert-overfull :
      (v : V) (h : HeapCache K V)
      → IsValid dec key0 h
      → 0 < h.max_size
      → size h ≡ h.max_size
      → find dec k h.keymap ≡ none
      → Returns (λ r. (size r.0 ≡ suc r.0.max_size) × AllFail r.0) (insert dec key0 k v h)
  unfolding insert size
  insert-overfull v h valid pos full fresh =
      rw
        (
          consistency_check-ok dec key0 h valid,
          emplace_absent dec k (item v (length h.heap)) h.keymap fresh,
          ne→== h.max_size 0 (omega arith),
          ne→== (suc (length h.keymap)) h.max_size (omega arith),
        )
        (returns (
          ap suc full,
          overfull_fails _ (ground (arith, length-append h.heap (k ∷ []), valid.sound.sized)),
        ))

  -- With a bound of 1 the first insertion fails the assertion in `_del_back`.
  pub insert-one :
      (v : V) (h : HeapCache K V)
      → IsValid dec key0 h
      → h.max_size ≡ 1
      → size h ≡ 0
      → find dec k h.keymap ≡ none
      → insert dec key0 k v h ≡ fault uassert
  unfolding insert size
  insert-one v h valid one none_there fresh =
      rw
        (
          consistency_check-ok dec key0 h valid,
          emplace_absent dec k (item v (length h.heap)) h.keymap fresh,
          ne→== h.max_size 0 (omega arith),
          eq→== (suc (length h.keymap)) h.max_size (omega arith),
          le→leb h.max_size 4 (omega arith),
          ge→ltb 1 (length h.heap) (omega (arith, valid.sound.sized)),
        )
        refl
