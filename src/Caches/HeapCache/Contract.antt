-- ===== src/Caches/HeapCache/Contract.antt =====
-- heap_cache as a `cache`.
use cpp_util.Prelude.{
  ℕ, ◌+◌, ◌^◌, ◌<◌, ◌≡◌, refl, ◌≢◌, ap, ◌∙◌, sym, subst, Option, none, some, true, Option-cases,
  inl, inr, Returns, returns, Returns-map, arith,
}
use cpp_util.Dict.{find}
use cpp_util.Caches.Cache.{Cache, Contract}
use cpp_util.Caches.HeapCache.{
  Citem, HeapCache, heap_cache, empty, size, get_max_size, insert, lookup, clear,
}
use cpp_util.Caches.HeapCache.Invariant.{IsValid, facts}
use cpp_util.Caches.HeapCache.Resize.{heap_cache-IsValid, clear-heap_cache}
use cpp_util.Caches.HeapCache.Insert.{insert-Inserted, insert-present}
use cpp_util.Caches.HeapCache.Lookup.{lookup-LookedUp, lookup_miss}

module _ {ℓ} {K V : Type ℓ} (dec : Discrete K) (key0 : K) where
  -- heap_cache as an implementation of the class.
  abbrev pub as_cache : Cache K V (HeapCache K V)
  as_cache = record {
    is_empty = empty;
    get_size = size;
    max = get_max_size;
    put_pair = insert dec key0;
    get_value = lookup dec key0;
    remove_all = clear dec key0;
  }

  -- The map that a caller sees.
  abbrev pub value_of : Option (V × ℕ) → Option V
  value_of none = none
  value_of (some (v, n)) = some v

  abbrev pub contents : HeapCache K V → K → Option V
  contents h k = value_of (facts (find dec k h.keymap))

  -- A valid cache with a bound of at least two, below it.
  pub record Fine (h : HeapCache K V) : Type ℓ where
    pub valid : IsValid dec key0 h
    pub big : 1 < h.max_size
    pub room : size h < h.max_size

  pub record Countable (k : K) (h : HeapCache K V) : Type ℓ where
    pub below : (c : Citem V) → find dec k h.keymap ≡ some c → c.count + 1 < 2 ^ 64

  found :
      {o : Option (Citem V)} {v : V}
      → value_of (facts o) ≡ some v
      → (c : Citem V) × (o ≡ some c) × (c.val ≡ v)
  found {o = none} e = absurd (ground arith)
  found {o = some c} e = (c, refl, ground arith)

  not_found : {o : Option (Citem V)} → value_of (facts o) ≡ none → o ≡ none
  not_found {o = none} e = refl
  not_found {o = some c} e = absurd (ground arith)

  insert_new :
      (k : K) (v : V) (h : HeapCache K V)
      → Fine h
      → contents h k ≡ none
      → Returns
          (λ (h', fresh).
            Fine h'
            × (fresh ≡ true)
            × (contents h' k ≡ some v)
            × (get_max_size h' ≡ get_max_size h)
            × ((j : K) (w : V) → k ≢ j → contents h' j ≡ some w → contents h j ≡ some w))
          (insert dec key0 k v h)
  unfolding get_max_size
  insert_new k v h fine absent =
      Returns-map (insert-Inserted dec key0 k v h fine.valid fine.big fine.room (not_found absent))
        λ (h', fresh) (i, is_fresh). (
          record { valid = i.valid; big = omega (arith, i.limit); room = i.room },
          is_fresh,
          ap (λ o. value_of (facts o)) i.here,
          i.limit,
          λ j w ne there.
              let (c, at, is_w) = found there in
              ap (λ o. value_of (facts o)) (i.fewer j c at ne) ∙ ap some is_w,
        )

  lookup_any :
      (k : K) (h : HeapCache K V)
      → Fine h
      → Countable k h
      → Returns
          (λ (h', o).
            Fine h'
            × (o ≡ contents h k)
            × (size h' ≡ size h)
            × ((j : K) → contents h' j ≡ contents h j))
          (lookup dec key0 k h)
  lookup_any k h fine countable = elim (Option-cases (find dec k h.keymap)) [
    | inl gone ↦
        rw (lookup_miss dec key0 k h fine.valid gone)
          (returns (fine, sym (ap (λ o. value_of (facts o)) gone), refl, λ j. refl))
    | inr (c, there) ↦
        Returns-map (lookup-LookedUp dec key0 k h c fine.valid there (countable.below c there))
          λ (h', o) (l, is_c). (
            record {
              valid = l.valid;
              big = omega (arith, l.limit, fine.big);
              room = omega (arith, l.limit, l.sized, fine.room);
            },
            is_c ∙ sym (ap (λ o. value_of (facts o)) there),
            l.sized,
            λ j. elim (dec k j) [
              | yes e ↦
                  subst (λ x. contents h' x ≡ contents h x) e
                    (ap value_of l.here ∙ sym (ap (λ o. value_of (facts o)) there))
              | no ne ↦ ap value_of (l.others j ne)
            ],
          )
  ]

  -- heap_cache keeps what the class documents, but for the value of a key that is there, as long as
  -- its bound is at least two and its size is below it, which the methods of the class preserve, and
  -- the count of the key looked up is not at its largest: empty, size and get_max_size agree, insert
  -- of a new key adds it and invents no other, insert of a known key changes no value and says so,
  -- lookup gives what is there and changes no value, and clear empties.
  pub heap_cache-Contract : Contract as_cache Fine Countable contents
  unfolding heap_cache empty size get_max_size find
  heap_cache-Contract = record {
    emptiness = λ h fine. refl;
    bounded = λ h fine. fine.valid.bounded;
    inserts = insert_new;
    refuses = λ k v w h fine there.
        let (c, at, is_w) = found there in
        rw (insert-present dec key0 k v h c fine.valid at) (returns (fine, refl, λ j. refl));
    looks_up = lookup_any;
    clears = λ h fine. rw (clear-heap_cache dec key0 h fine.valid) (
        returns (
          record {
            valid = heap_cache-IsValid dec key0 h.max_size;
            big = fine.big;
            room = omega (arith, fine.big);
          },
          refl,
          refl,
          λ j. refl,
        ));
  }
