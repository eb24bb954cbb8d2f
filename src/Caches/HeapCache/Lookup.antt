-- ===== src/Caches/HeapCache/Lookup.antt =====
-- `lookup`, on both branches.
use cpp_util.Prelude.{
  ℕ, ◌+◌, ◌%◌, ◌^◌, ◌<◌, ◌≡◌, refl, ◌≢◌, ◌⊎◌, inl, inr, ◌∙◌, sym, ap, subst, Option, none, some,
  get_elem?, ok, Returns, returns, Returns-bind, arith,
}
use cpp_util.Dict.{find, modify}
use cpp_util.Dict.Laws.{find-modify_self, find-modify_ne, modify-IsUnique, length-modify}
use cpp_util.Caches.HeapCache.{Citem, HeapCache, count_up, size, lookup}
use cpp_util.Caches.HeapCache.Invariant.{IsLinked, IsSound, IsValid, facts}
use cpp_util.Caches.HeapCache.Trade.{IsSifting}
use cpp_util.Caches.HeapCache.Sift.{increase_key-Restored}
use cpp_util.Caches.HeapCache.Resize.{consistency_check-ok}

module _ {ℓ} {K V : Type ℓ} (dec : Discrete K) (key0 k : K) where
  module _ (h : HeapCache K V) (s : IsSound dec key0 h) (c : Citem V)
      (there : find dec k h.keymap ≡ some c) (small : c.count + 1 < 2 ^ 64) where
    open s use {linked, ordered, sized, sentinel}

    -- The cache after `++it->second.count`.
    abbrev counted : HeapCache K V
    counted = record h { keymap = modify dec k count_up h.keymap }

    counted-find :
        (j : K) (d : Citem V)
        → find dec j counted.keymap ≡ some d
        → ((k ≡ j) × (d ≡ count_up c)) ⊎ ((k ≢ j) × (find dec j h.keymap ≡ some d))
    counted-find j d f = elim (dec k j) [
      | yes e ↦ inl (e, cc (find-modify_self dec k count_up h.keymap c there, e))
      | no u ↦ inr (u, sym (find-modify_ne dec j k count_up h.keymap u) ∙ f)
    ]

    counted_here : find dec k counted.keymap ≡ some (count_up c)
    counted_here = find-modify_self dec k count_up h.keymap c there

    counted-IsLinked : IsLinked dec counted
    counted-IsLinked = record {
      unique = modify-IsUnique dec k count_up h.keymap linked.unique;
      located = λ j d f. elim (counted-find j d f) [
        | inl (e, same) ↦
            let (p, l, g) = linked.located k c there in
            let at : d.loc ≡ c.loc = ap (λ (x : Citem V). x.loc) same in
            (omega arith, omega arith, ap (get_elem? h.heap) at ∙ g ∙ ap some e)
        | inr (u, g) ↦ linked.located j d g
      ];
      held = λ i q pos g.
          let (d, f, l) = linked.held i q pos g in
          elim (dec k q) [
            | yes e ↦
                let same : d ≡ c = cc (there, f, ap (λ x. find dec x h.keymap) e) in
                (
                  count_up c,
                  subst (λ x. find dec x counted.keymap ≡ some (count_up c)) e counted_here,
                  sym (ap (λ (x : Citem V). x.loc) same) ∙ l,
                )
            | no u ↦ (d, find-modify_ne dec q k count_up h.keymap u ∙ f, l)
          ];
    }

    counted-IsSifting : IsSifting dec k (count_up c) counted
    counted-IsSifting = record {
      linked = counted-IsLinked;
      here = counted_here;
      edges = λ j q d e f g o n. elim (counted-find j d f) [
        | inl (same, _) ↦ absurd (n (sym same))
        | inr (u, f') ↦ elim (counted-find q e g) [
          | inl (same, is_new) ↦
              let loc = ap (λ (x : Citem V). x.loc) is_new in
              let count = ap (λ (x : Citem V). x.count) is_new in
              omega (arith, ordered j k d c f' there (o.0, sym loc ∙ o.1), count)
          | inr (u', g') ↦ ordered j q d e f' g' o
        ]
      ];
      bridged = λ j q d e f g o n. elim (counted-find j d f) [
        | inl (same, is_new) ↦ absurd (omega (arith, ap (λ (x : Citem V). x.loc) is_new))
        | inr (u, f') ↦ elim (counted-find q e g) [
          | inl (same, is_new) ↦ absurd (omega (arith, ap (λ (x : Citem V). x.loc) is_new))
          | inr (u', g') ↦ omega (arith, ordered j k d c f' there o, ordered k q c e there g' n)
        ]
      ];
    }

  -- What `lookup(k)` makes of a cache that has `k`.
  pub record LookedUp (c : Citem V) (h h' : HeapCache K V) : Type ℓ where
    pub valid : IsValid dec key0 h'
    pub limit : h'.max_size ≡ h.max_size
    pub sized : size h' ≡ size h
    pub here : facts (find dec k h'.keymap) ≡ some (c.val, c.count + 1)
    pub others : (j : K) → k ≢ j → facts (find dec j h'.keymap) ≡ facts (find dec j h.keymap)

  -- A hit returns the value and counts the key up; the cache stays valid, its order included, and
  -- no other key's value or count changes. The count must not be at its largest.
  pub lookup-LookedUp :
      (h : HeapCache K V) (c : Citem V)
      → IsValid dec key0 h
      → find dec k h.keymap ≡ some c
      → c.count + 1 < 2 ^ 64
      → Returns (λ r. LookedUp c h r.0 × (r.1 ≡ some c.val)) (lookup dec key0 k h)
  unfolding lookup size
  lookup-LookedUp h c v there small =
      let s = v.sound in
      let fits : (c.count + 1) % 2 ^ 64 ≡ c.count + 1 = omega arith in
      let up = ap {B = Option (V × ℕ)} (λ n. some (c.val, n)) fits in
      let same_size = length-modify dec k count_up h.keymap in
      rw (consistency_check-ok dec key0 h v, there)
        (Returns-bind
          (increase_key-Restored dec k (count_up c) (counted h s c there small)
            (counted-IsSifting h s c there small))
          λ h' (linked, ordered, same). returns (
            record {
              valid = record {
                sound = record {
                  linked = linked;
                  ordered = ordered;
                  sized = omega (arith, same.entries, same.places, s.sized, same_size);
                  sentinel = same.bottom ∙ s.sentinel;
                };
                bounded = omega (arith, same.entries, same.limit, v.bounded, same_size);
              };
              limit = same.limit;
              sized = same.entries ∙ same_size;
              here = same.kept k ∙ ap facts (counted_here h s c there small) ∙ up;
              others = λ j u. same.kept j ∙ ap facts (find-modify_ne dec j k count_up h.keymap u);
            },
            refl,
          ))

  -- A miss changes nothing.
  pub lookup_miss :
      (h : HeapCache K V)
      → IsValid dec key0 h
      → find dec k h.keymap ≡ none
      → lookup dec key0 k h ≡ ok (h, none)
  unfolding lookup
  lookup_miss h v gone = rw (consistency_check-ok dec key0 h v, gone)
