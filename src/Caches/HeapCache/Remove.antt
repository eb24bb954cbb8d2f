-- ===== src/Caches/HeapCache/Remove.antt =====
-- `_del_back`, its loops, and `set_max_size`, `clear`: entries go from the back of the heap.
use cpp_util.Prelude.{
  ℕ, zero, suc, ◌+◌, ◌-◌, ◌/◌, ◌≤◌, ◌<◌, ◌≡◌, refl, ◌≢◌, sym, ap, ◌∙◌, some, length, get_elem?,
  drop_last, back, length-drop_last, get_elem?-drop_last, get_elem?-back, get_elem?_lt,
  lt_of_get_elem?, leb, ◌==◌, lt→ltb, Returns, returns, Returns-map, Returns-bind, Returns-if,
  arith, Bool-cases, inl, inr, if◌then◌else◌,
}
use cpp_util.Dict.{find, erase}
use cpp_util.Dict.Laws.{find-erase_self, find-erase_ne, erase-IsUnique, length-erase}
use cpp_util.Caches.HeapCache.{
  Citem, HeapCache, del_back, del_back_times, del_back_full, del_back_until,
}
use cpp_util.Caches.HeapCache.Trade.{loc-ne}
use cpp_util.Caches.HeapCache.Invariant.{IsLinked, IsSound}

-- How many entries go when the cache is full: one of up to four, else half of them, rounded up.
abbrev pub evicted : ℕ → ℕ
evicted max = if leb max 4 then 1 else max - max / 2

module _ {ℓ} {K V : Type ℓ} (dec : Discrete K) where
  -- `n` entries are gone from the back of the heap, and the others are as they were.
  pub record Dropped (n : ℕ) (h h' : HeapCache K V) : Type ℓ where
    pub shorter : length h'.heap + n ≡ length h.heap
    pub limit : h'.max_size ≡ h.max_size
    pub fewer : (k : K) (c : Citem V) → find dec k h'.keymap ≡ some c → find dec k h.keymap ≡ some c
    pub stays :
        (k : K) (c : Citem V)
        → find dec k h.keymap ≡ some c
        → c.loc < length h'.heap
        → find dec k h'.keymap ≡ some c

  pub Dropped-refl : (h : HeapCache K V) → Dropped 0 h h
  Dropped-refl h = record {
    shorter = omega arith;
    limit = refl;
    fewer = λ k c f. f;
    stays = λ k c f l. f;
  }

  pub Dropped-trans :
      {n : ℕ} {a b c : HeapCache K V} → Dropped 1 a b → Dropped n b c → Dropped (suc n) a c
  Dropped-trans {n} p q = record {
    shorter = omega (arith, p.shorter, q.shorter);
    limit = q.limit ∙ p.limit;
    fewer = λ k c f. p.fewer k c (q.fewer k c f);
    stays = λ k c f l. q.stays k c (p.stays k c f (omega (arith, q.shorter))) l;
  }

  module _ (key0 : K) (h : HeapCache K V) (s : IsSound dec key0 h) (k : K) (c : Citem V)
      (fk : find dec k h.keymap ≡ some c) (last : c.loc + 1 ≡ length h.heap) where
    open s use {linked, ordered, sized, sentinel}

    abbrev pub without : HeapCache K V
    without = record h { keymap = erase dec k h.keymap; heap = drop_last h.heap }

    without-fewer :
        (j : K) (d : Citem V)
        → find dec j without.keymap ≡ some d
        → (k ≢ j) × (find dec j h.keymap ≡ some d)
    without-fewer j d f = elim (dec k j) [
      | yes e ↦ absurd (cc (find-erase_self dec k h.keymap linked.unique, e))
      | no u ↦ (u, sym (find-erase_ne dec j k h.keymap u) ∙ f)
    ]

    kept : (i : ℕ) → i < c.loc → get_elem? without.heap i ≡ get_elem? h.heap i
    kept i below = get_elem?-drop_last h.heap i ∙ rw (lt→ltb (suc i) (length h.heap) (omega arith))

    -- Only the last key stands in the last place.
    before_last : (j : K) (d : Citem V) → k ≢ j → find dec j h.keymap ≡ some d → d.loc < c.loc
    before_last j d u f =
        omega (arith, linked.located j d f, loc-ne dec linked k j c d fk f u, last)

    without-IsLinked : IsLinked dec without
    without-IsLinked = record {
      unique = erase-IsUnique dec k h.keymap linked.unique;
      located = λ j d f.
          let (u, g) = without-fewer j d f in
          let below = before_last j d u g in
          let place = linked.located j d g in
          (place.0, omega (arith, length-drop_last h.heap), kept d.loc below ∙ place.2);
      held = λ i q pos g.
          let below : i < c.loc =
            omega (arith, lt_of_get_elem? without.heap i g, length-drop_last h.heap) in
          let (d, f, l) = linked.held i q pos (sym (kept i below) ∙ g) in
          let u : k ≢ q = λ e. ground (arith, fk, ap (λ x. find dec x h.keymap) e) in
          (d, find-erase_ne dec q k h.keymap u ∙ f, l);
    }

    pub without-IsSound : IsSound dec key0 without
    without-IsSound = record {
      linked = without-IsLinked;
      ordered = λ j q d e f g o. ordered j q d e (without-fewer j d f).1 (without-fewer q e g).1 o;
      sized = omega (arith, length-erase dec k h.keymap c fk, length-drop_last h.heap);
      sentinel = kept 0 (linked.located k c fk).0 ∙ sentinel;
    }

    pub without-Dropped : Dropped 1 h without
    without-Dropped = record {
      shorter = omega (arith, length-drop_last h.heap);
      limit = refl;
      fewer = λ j d f. (without-fewer j d f).1;
      stays = λ j d f l.
          let u : k ≢ j =
            λ e. ground (arith, fk, ap (λ x. find dec x h.keymap) e, length-drop_last h.heap) in
          find-erase_ne dec j k h.keymap u ∙ f;
    }

  -- The key that `_del_back` takes.
  pub last_key :
      {key0 : K} (h : HeapCache K V)
      → IsSound dec key0 h
      → 1 < length h.heap
      → (k : K) × (c : Citem V) × (back h.heap ≡ some k)
        × (find dec k h.keymap ≡ some c)
        × (c.loc + 1 ≡ length h.heap)
  last_key h s more =
      let (k, e) = get_elem?_lt h.heap (length h.heap - 1) (omega arith) in
      let (c, f, l) = s.linked.held (length h.heap - 1) k (omega arith) e in
      (k, c, get_elem?-back h.heap ∙ e, f, omega arith)

  -- A sound cache of fewer entries.
  abbrev pub Shrunk : K → ℕ → HeapCache K V → HeapCache K V → Type ℓ
  Shrunk key0 n h h' = IsSound dec key0 h' × Dropped n h h'

  pub del_back-Shrunk :
      (key0 : K) (h : HeapCache K V)
      → IsSound dec key0 h
      → 1 < length h.heap
      → Returns (Shrunk key0 1 h) (del_back dec h)
  unfolding del_back
  del_back-Shrunk key0 h s more =
      let (k, c, at_back, f, l) = last_key h s more in
      rw (lt→ltb _ _ more, at_back)
        (returns (without-IsSound key0 h s k c f l, without-Dropped key0 h s k c f l))

  pub del_back_times-Shrunk :
      (n : ℕ) (key0 : K) (h : HeapCache K V)
      → IsSound dec key0 h
      → n < length h.heap
      → Returns (Shrunk key0 n h) (del_back_times dec n h)
  unfolding del_back_times
  del_back_times-Shrunk zero key0 h s more = returns (s, Dropped-refl h)
  del_back_times-Shrunk (suc n) key0 h s more =
      Returns-bind (del_back-Shrunk key0 h s (omega arith)) λ h' (s', d).
        Returns-map (del_back_times-Shrunk n key0 h' s' (omega (arith, d.shorter)))
          λ h'' (s'', d'). (s'', Dropped-trans d d')

  pub del_back_full-Shrunk :
      (key0 : K) (h : HeapCache K V)
      → IsSound dec key0 h
      → length h.heap ≡ h.max_size
      → 1 < h.max_size
      → Returns (Shrunk key0 (evicted h.max_size) h) (del_back_full dec h)
  unfolding del_back_full
  del_back_full-Shrunk key0 h s full big = elim (Bool-cases (leb h.max_size 4)) [
    | inl few ↦ rw few (del_back-Shrunk key0 h s (omega arith))
    | inr many ↦
        rw many (del_back_times-Shrunk (h.max_size - h.max_size / 2) key0 h s (ground arith))
  ]

  -- The loop of `set_max_size` ends with `max` entries in the heap.
  pub del_back_until-Shrunk :
      (fuel max : ℕ) (key0 : K) (h : HeapCache K V)
      → IsSound dec key0 h
      → 0 < max
      → max ≤ length h.heap
      → length h.heap - max < fuel
      → Returns (Shrunk key0 (length h.heap - max) h) (del_back_until dec fuel max h)
  unfolding del_back_until
  del_back_until-Shrunk zero max key0 h s pos le f = absurd (omega arith)
  del_back_until-Shrunk (suc fuel) max key0 h s pos le f =
      Returns-if (length h.heap == max)
        (λ e.
          let none_left : length h.heap - max ≡ 0 = ground arith in
          rw none_left (returns (s, Dropped-refl h)))
        (λ ne.
          let size : length h.heap - max ≡ suc (length h.heap - 1 - max) = ground arith in
          Returns-bind (del_back-Shrunk key0 h s (ground arith)) λ h' (s', d).
            let size' : length h'.heap - max ≡ length h.heap - 1 - max = omega (arith, d.shorter) in
            Returns-map
              (del_back_until-Shrunk fuel max key0 h' s' pos (ground (arith, d.shorter))
                (omega arith))
              λ h'' (s'', d'). (s'', rw size (Dropped-trans d (rw size' at d'))))
