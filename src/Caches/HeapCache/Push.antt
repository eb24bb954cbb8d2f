-- ===== src/Caches/HeapCache/Push.antt =====
-- The last lines of `insert`: the new key goes to the last place of the heap.
use cpp_util.Prelude.{
  ℕ, suc, ◌<◌, ◌≡◌, refl, ◌≢◌, ◌∙◌, sym, ap, none, some, [], ◌∷◌, ◌++◌, length, get_elem?, inl, inr,
  eq→==, ne→==, length-append, get_elem?-push, lt_of_get_elem?, arith, ◌⊎◌, ℕ_discrete, subst,
}
use cpp_util.Dict.{find}
use cpp_util.Dict.Laws.{find-cons_self, find-cons_ne}
use cpp_util.Caches.HeapCache.{Citem, HeapCache}
use cpp_util.Caches.HeapCache.Invariant.{IsLinked, IsOrdered, IsSound}
use cpp_util.Caches.HeapCache.Evict.{item, pend}

module _ {ℓ} {K V : Type ℓ} (dec : Discrete K) (key0 k : K) where
  -- The cache after the last line of `insert`.
  abbrev pub pushed : V → HeapCache K V → HeapCache K V
  pushed v h = record (pend dec key0 k (item v (length h.heap)) h) { heap = h.heap ++ k ∷ [] }

  module _ (v : V) (h : HeapCache K V) (s : IsSound dec key0 h)
      (fresh : find dec k h.keymap ≡ none) where
    open s use {linked, ordered, sized, sentinel}

    -- An item of the longer map is the new one or an old one.
    pushed-find :
        (j : K) (d : Citem V)
        → find dec j (pushed v h).keymap ≡ some d
        → ((k ≡ j) × (d ≡ item v (length h.heap))) ⊎ ((k ≢ j) × (find dec j h.keymap ≡ some d))
    pushed-find j d f = elim (dec k j) [
      | yes e ↦ inl (e, cc (find-cons_self dec k (item v (length h.heap)) h.keymap, e))
      | no u ↦ inr (u, sym (find-cons_ne dec j k _ h.keymap u) ∙ f)
    ]

    old_place : (i : ℕ) → i < length h.heap → get_elem? (pushed v h).heap i ≡ get_elem? h.heap i
    old_place i below = get_elem?-push h.heap k i ∙ rw (ne→== i (length h.heap) (omega arith)) refl

    new_place : get_elem? (pushed v h).heap (length h.heap) ≡ some k
    new_place =
        get_elem?-push h.heap k (length h.heap)
        ∙ rw (eq→== (length h.heap) (length h.heap) refl) refl

    longer : length (pushed v h).heap ≡ suc (length h.heap)
    longer = omega (arith, length-append h.heap (k ∷ []))

    pushed-IsLinked : IsLinked dec (pushed v h)
    pushed-IsLinked = record {
      unique = (fresh, linked.unique);
      located = λ j d f. elim (pushed-find j d f) [
        | inl (e, is_new) ↦
            let l : d.loc ≡ length h.heap = ap (λ (x : Citem V). x.loc) is_new in
            (
              omega arith,
              omega (arith, longer),
              ap (get_elem? (pushed v h).heap) l ∙ new_place ∙ ap some e,
            )
        | inr (u, g) ↦
            let place = linked.located j d g in
            (place.0, omega (arith, longer), old_place d.loc place.1 ∙ place.2)
      ];
      held = λ i q pos g. elim (ℕ_discrete i (length h.heap)) [
        | yes last ↦
            let e : k ≡ q = cc (new_place, ap (get_elem? (pushed v h).heap) last) in
            (
              item v (length h.heap),
              subst (λ x. find dec x (pushed v h).keymap ≡ some (item v (length h.heap))) e
                  (find-cons_self dec k _ h.keymap),
              sym last,
            )
        | no u ↦
            let below : i < length h.heap =
              omega (arith, longer, lt_of_get_elem? (pushed v h).heap i g) in
            let (d, f, l) = linked.held i q pos (sym (old_place i below) ∙ g) in
            (
              d,
              find-cons_ne dec q k _ h.keymap (λ e. cc (fresh, f, ap (λ x. find dec x h.keymap) e))
                  ∙ f,
              l,
            )
      ];
    }

    pushed-IsOrdered : IsOrdered dec (pushed v h)
    pushed-IsOrdered j q d e f g o = elim (pushed-find j d f) [
      | inl (same, is_new) ↦ omega (arith, ap (λ (x : Citem V). x.count) is_new)
      | inr (u, f') ↦ elim (pushed-find q e g) [
        | inl (same, is_new) ↦
            absurd (omega (arith, ap (λ (x : Citem V). x.loc) is_new, linked.located j d f'))
        | inr (u', g') ↦ ordered j q d e f' g' o
      ]
    ]

    pub pushed-IsSound : IsSound dec key0 (pushed v h)
    pushed-IsSound = record {
      linked = pushed-IsLinked;
      ordered = pushed-IsOrdered;
      sized = omega (arith, longer);
      sentinel = old_place 0 (omega arith) ∙ sentinel;
    }
