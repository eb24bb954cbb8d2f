-- ===== src/Caches/HeapCache/Sift.antt =====
-- `increase_key` restores the order of a heap in which one key was counted up.
use cpp_util.Prelude.{
  ℕ, zero, suc, ◌+◌, ◌/◌, ◌≤◌, ◌<◌, ◌≡◌, sym, ap, ◌∙◌, some, lt→ltb, get_elem?_lt, ltb, leb,
  Returns, returns, Returns-map, Returns-if, arith,
}
use cpp_util.Dict.{find}
use cpp_util.Caches.HeapCache.{Citem, HeapCache, move_to, sift_up, increase_key}
use cpp_util.Caches.HeapCache.Invariant.{
  IsLinked, IsEdge, IsOrdered, IsSame, IsSame-refl, IsSame-trans,
}
use cpp_util.Caches.HeapCache.Trade.{
  loc-ne, IsSifting, risen, swap_parent-risen, risen-IsSifting, risen-IsSame,
}

module _ {ℓ} {K V : Type ℓ} (dec : Discrete K) where
  -- The cache is linked and in order, and differs from `h` in places alone.
  abbrev pub Restored : HeapCache K V → HeapCache K V → Type ℓ
  Restored h h' = IsLinked dec h' × IsOrdered dec h' × IsSame dec h h'

  settled :
      (k : K) (c : Citem V) (h : HeapCache K V)
      → IsSifting dec k c h
      → ((q : K) (e : Citem V) → find dec q h.keymap ≡ some e → IsEdge e c → c.count ≤ e.count)
      → IsOrdered dec h
  settled k c h s top j q d e f g o = elim (dec j k) [
    | yes same ↦ ground (arith, s.here, ap (λ x. find dec x h.keymap) same, top q e g)
    | no other ↦ s.edges j q d e f g o other
  ]

  -- The parent's place has one key.
  same_parent :
      (h : HeapCache K V) (k pk : K) (c p : Citem V) (s : IsSifting dec k c h)
      → find dec pk h.keymap ≡ some p
      → IsEdge p c
      → (q : K) (e : Citem V) → find dec q h.keymap ≡ some e
      → IsEdge e c
      → c.count ≤ p.count
      → c.count ≤ e.count
  same_parent h k pk c p s fp up q e g o le = elim (dec pk q) [
    | yes same ↦ ground (arith, ap (λ x. find dec x h.keymap) same)
    | no other ↦ absurd (loc-ne dec s.linked pk q p e fp g other (up.1 ∙ sym o.1))
  ]

  sift_up-Restored :
      (fuel : ℕ) (k : K) (c : Citem V) (h : HeapCache K V)
      → c.loc < fuel
      → IsSifting dec k c h
      → Returns (Restored h) (sift_up dec fuel k h)
  unfolding sift_up
  sift_up-Restored zero k c h f s = absurd (omega arith)
  sift_up-Restored (suc fuel) k c h f s = rw s.here (
      Returns-if (ltb 1 c.loc)
        (λ below.
          let place = s.linked.located k c s.here in
          let (pk, at_p) = get_elem?_lt h.heap (c.loc / 2) (omega arith) in
          let (p, fp, lp) = s.linked.held (c.loc / 2) pk (ground arith) at_p in
          let up : IsEdge p c = (ground arith, lp) in
          rw (at_p, fp, swap_parent-risen dec h k pk c p s fp up)
            (Returns-if (leb c.count p.count)
              (λ stop. returns (
                s.linked,
                settled k c h s (λ q e g o. same_parent h k pk c p s fp up q e g o (ground arith)),
                IsSame-refl dec h,
              ))
              (λ rise.
                Returns-map
                  (sift_up-Restored fuel k (move_to p.loc c) (risen dec h k pk c p s fp up)
                    (ground arith) (risen-IsSifting dec h k pk c p s fp up (ground arith)))
                  λ h' r. (r.0, r.1, IsSame-trans dec (risen-IsSame dec h k pk c p s fp up) r.2))))
        (λ root.
          returns
            (s.linked, settled k c h s (λ q e g o. absurd (ground arith)), IsSame-refl dec h)))

  -- A key that was counted up, in a cache that was in order before.
  pub increase_key-Restored :
      (k : K) (c : Citem V) (h : HeapCache K V)
      → IsSifting dec k c h
      → Returns (Restored h) (increase_key dec k h)
  unfolding increase_key
  increase_key-Restored k c h s =
      let place = s.linked.located k c s.here in
      rw (s.here, lt→ltb _ _ place.1, lt→ltb _ _ place.0)
        (sift_up-Restored (c.loc + 1) k c h (omega arith) s)
