-- ===== src/Fibheap/Decrease.antt =====
-- `decrease_key`, both overloads.
use cpp_util.Prelude.{
  ℕ, ◌≤◌, ◌≡◌, refl, ◌≢◌, ap, ◌∙◌, sym, Bool, true, false, ◌==◌, if◌then◌else◌, Bool-cases, dec_lt,
  ◌<◌, subst, inl, inr, ok, Returns, returns, Returns-bind, ==→eq, ==→ne, arith, ◌>>=◌,
}
use cpp_util.Fibheap.Memory.{Ptr, null, Memory, update, deref}
use cpp_util.Fibheap.Methods.{Fibheap, decrease, decrease_key, decrease_key_move}
use cpp_util.Fibheap.Rings.{ne_null, spliced, rl_splice-spliced, torn, rlt_cut-torn}
use cpp_util.Fibheap.Family.{IsFamily, tally, raised-IsFamily}
use cpp_util.Fibheap.Forest.{
  IsStrictOrder, IsForest, IsLeast, IsValid, consistency_check-ok, torn-IsForest, marked-IsForest,
  spliced-IsForest,
}
use cpp_util.Fibheap.Cascade.{IsKept, IsKept-trans, cascade-Regrown}

module _ {ℓ} {T : Type ℓ} (comp : T → T → Bool) where
  -- What `decrease_key(k, v)` makes of a heap: the key keeps its node, with the new value.
  pub record Decreased (rank : Ptr → ℕ) (k : Ptr) (v : T) (f : Fibheap) (m : Memory T)
      (f' : Fibheap) (m' : Memory T) : Type ℓ where
    pub valid : IsValid comp rank f' m'
    pub sized : f'.size ≡ f.size
    pub same_nodes : m'.live ≡ m.live
    pub values : m'.val ≡ update m.val k v

  module _ (order : IsStrictOrder comp) (rank : Ptr → ℕ) (k : Ptr) (v : T) (f : Fibheap)
      (m : Memory T) (valid : IsValid comp rank f m) (live_k : m.live k ≡ true)
      (lower : comp v (m.val k) ≡ true) where
    open order use {irrefl, trans}

    nonempty : f.size ≢ 0
    nonempty z = cc (valid.no_node z k)

    below_next : (p : Ptr) → m.live p ≡ true → p < m.next
    below_next p l = elim (dec_lt p m.next) [
      | yes h ↦ h
      | no nh ↦ cc (valid.unused p (omega (arith, nh)), l)
    ]

    -- The memory behind the first two assignments.
    abbrev lowered : Memory T
    lowered = record m { val = update m.val k v; marked = update m.marked k false }

    -- A root may be lowered.
    lowered-IsForest :
        (x : Memory T)
        → IsForest comp rank x
        → x.up k ≡ null
        → x.val ≡ m.val
        → IsForest comp rank (record x { val = update x.val k v })
    lowered-IsForest x w root same = record {
      rings = w.rings;
      level = w.level;
      parents = w.parents;
      rising = w.rising;
      ordered = λ p l u.
          ground
            (arith, w.ordered p l, lower, ap (λ g. g k) same, root, trans (x.val p) v (x.val k));
    }

    min_root : IsLeast comp f.min m
    min_root = valid.minimum nonempty

    -- `min` is chosen anew by one comparison.
    finish :
        (e : Memory T)
        → IsForest comp rank e
        → IsFamily e
        → IsKept lowered e
        → e.up k ≡ null
        → Decreased rank k v f m (if comp v (e.val f.min) then record f { min = k } else f) e
    finish e w fam kept root =
        let at = λ (q : Ptr). ap (λ g. g q) kept.val in
        let live = λ (q : Ptr). ap (λ g. g q) kept.live in
        record {
          valid = record {
            forest = w;
            family = fam;
            sized = ground (
              arith,
              subst (λ n. f.size ≡ tally e.live n) (sym kept.next)
                  (subst (λ g. f.size ≡ tally g m.next) (sym kept.live) valid.sized),
            );
            unused = λ p h. ground (arith, valid.unused p, live p, kept.next);
            address = ground (arith, valid.address, kept.next);
            none_left = λ z. absurd (nonempty (ground arith));
            no_node = λ z. absurd (nonempty (ground arith));
            minimum = λ _. record {
              live_min = ground (arith, live k, live f.min, min_root);
              root = ground (arith, root, kept.root f.min, min_root);
              least = λ p l. ground (
                arith,
                live p,
                at p,
                at k,
                at f.min,
                min_root.least p,
                min_root.least k,
                lower,
                irrefl v,
                trans (m.val p) v (m.val k),
                trans (m.val p) v (m.val f.min),
              );
            };
          };
          sized = ground arith;
          same_nodes = kept.live;
          values = kept.val;
        }

    -- `k` cut from its parent, before the loop.
    module _ (child : (m.up k == null) ≡ false) where
      lowered_marks-IsForest : IsForest comp rank (record m { marked = update m.marked k false })
      lowered_marks-IsForest = marked-IsForest comp rank m valid.forest k false

      abbrev alone : Memory T
      alone = torn lowered valid.forest.rings k live_k

      alone-IsForest : IsForest comp rank alone
      alone-IsForest =
          lowered-IsForest
            (torn (record m { marked = update m.marked k false }) valid.forest.rings k live_k)
            (torn-IsForest comp rank _ lowered_marks-IsForest k live_k) (ground arith) refl

      abbrev moved : Memory T
      moved = spliced f.min k alone

      moved-IsForest : IsForest comp rank moved
      moved-IsForest =
          spliced-IsForest comp rank alone alone-IsForest f.min k min_root.live_min live_k
            (ground (arith, min_root.root)) (ground arith)

      moved-IsFamily : IsFamily moved
      moved-IsFamily =
          raised-IsFamily lowered valid.forest.rings valid.forest.level
            (record { gathered = valid.family.gathered; children = valid.family.children }) k live_k
            (==→ne (m.up k) null child) f.min alone-IsForest.level min_root.live_min min_root.root
            (below_next k live_k)

    -- The choice of `min` behind the forest's change.
    tail-Decreased :
        (e : Memory T)
        → IsForest comp rank e
        → IsFamily e
        → IsKept lowered e
        → e.up k ≡ null
        → Returns
            (λ (f', m'). Decreased rank k v f m f' m')
            (do
              w ← deref f.min e (e.val f.min)
              x ← deref k e (e.val k)
              ok (if comp x w then record f { min = k } else f, e))
    tail-Decreased e w fam kept root =
        let at : e.val k ≡ v = ap (λ g. g k) kept.val ∙ ground arith in
        rw (ap (λ g. g f.min) kept.live ∙ min_root.live_min, ap (λ g. g k) kept.live ∙ live_k, at)
          (returns (finish e w fam kept root))

    pub decrease-Decreased :
        (fuel : ℕ)
        → rank k ≤ fuel
        → Returns (λ (f', m'). Decreased rank k v f m f' m') (decrease comp fuel k v f m)
    unfolding decrease
    decrease-Decreased fuel enough = elim (Bool-cases (m.up k == null)) [
      | inl root ↦
          rw (live_k, live_k, live_k, root)
            (tail-Decreased lowered
              (lowered-IsForest (record m { marked = update m.marked k false })
                (marked-IsForest comp rank m valid.forest k false) (==→eq _ _ root) refl)
              (record { gathered = valid.family.gathered; children = valid.family.children })
              (record { next = refl; live = refl; val = refl; root = λ p u. u }) (==→eq _ _ root))
      | inr child ↦
          let below = ==→ne (m.up k) null child in
          let live_up = valid.forest.parents k live_k below in
          rw
            (
              live_k,
              live_k,
              live_k,
              child,
              rlt_cut-torn lowered valid.forest.rings k live_k child live_up,
              rl_splice-spliced (alone child) (alone-IsForest child).rings f.min k min_root.live_min
                  live_k,
            )
            (Returns-bind
              (cascade-Regrown comp rank fuel f.min (m.up k) (moved child) (moved-IsForest child)
                (moved-IsFamily child) below_next min_root.live_min (ground (arith, min_root.root))
                live_up (ground (arith, valid.forest.rising k live_k below)))
              λ e (w, fam, kept).
                tail-Decreased e w fam
                  (IsKept-trans
                    (record { next = refl; live = refl; val = refl; root = λ p u. ground arith })
                    kept)
                  (kept.root k (ground arith)))
    ]

    -- A valid heap under a strict order, a live key `k` and a value `v` below the key's own: both
    -- overloads return (the loop climbs at most `rank k` levels), the key's node has the value
    -- `v`, no other node or value changes, the size is the same, and the heap is valid again:
    -- all roots are in the ring of `min`, which is the least of them, all children of a node in the
    -- ring that its `down` leads to, and counted, and no child is below its parent.
    pub decrease_key-Decreased :
        (fuel : ℕ)
        → rank k ≤ fuel
        → Returns (λ (f', m'). Decreased rank k v f m f' m') (decrease_key comp fuel k v f m)
          × Returns (λ (f', m'). Decreased rank k v f m f' m') (decrease_key_move comp fuel k v f m)
    unfolding decrease_key decrease_key_move
    decrease_key-Decreased fuel enough =
        rw (ne_null valid.forest.rings k live_k, consistency_check-ok comp rank f m valid)
          (rw (live_k, lower) (decrease-Decreased fuel enough), decrease-Decreased fuel enough)
