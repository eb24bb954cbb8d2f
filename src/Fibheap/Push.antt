-- ===== src/Fibheap/Push.antt =====
-- `push`: the new node is a root, and `min` stays least.
use cpp_util.Prelude.{
  ℕ, ◌+◌, ◌^◌, ◌<◌, ◌≡◌, refl, ◌≢◌, inl, inr, ap, ◌∙◌, sym, subst, Bool, true, false, ◌==◌,
  if◌then◌else◌, Bool-cases, ok, Returns, returns, ne→==, eq→==, ℕ_discrete, arith,
}
use cpp_util.Fibheap.Memory.{Ptr, null, Memory, new_node}
use cpp_util.Fibheap.Nodes.{incr, rl_splice}
use cpp_util.Fibheap.Methods.{Fibheap, insert_new_node, push}
use cpp_util.Fibheap.Rings.{ne_null, spliced, rl_splice-spliced, new_node-IsRings}
use cpp_util.Fibheap.Family.{here, IsApart, Along, IsChildren, spliced-IsGathered, tally}
use cpp_util.Fibheap.Newborn.{grown-IsApart, grown-IsChildren, grown-tally}
use cpp_util.Fibheap.Forest.{
  IsStrictOrder, IsForest, IsLeast, IsValid, consistency_check-ok, spliced-IsForest,
}

module _ {ℓ} {T : Type ℓ} (comp : T → T → Bool) where
  -- What `push(p)` makes of a heap: one more node, with a key that no node had, under `min`'s order.
  pub record Pushed (rank : Ptr → ℕ) (p : T) (f : Fibheap) (m : Memory T) (k : Ptr) (f' : Fibheap)
      (m' : Memory T) : Type ℓ where
    pub valid : IsValid comp rank f' m'
    pub sized : f'.size ≡ f.size + 1
    pub new_key : m.live k ≡ false
    pub one_more : (q : Ptr) → m'.live q ≡ (if k == q then true else m.live q)
    pub at_key : m'.val k ≡ p
    pub elsewhere : (q : Ptr) → k ≢ q → m'.val q ≡ m.val q

  module _ (order : IsStrictOrder comp) (rank : Ptr → ℕ) (p : T) (f : Fibheap) (m : Memory T)
      (v : IsValid comp rank f m) where
    open order use {irrefl, trans}

    -- The memory with the new node.
    abbrev grown : Memory T
    grown = new_node p m

    unused_next : m.live m.next ≡ false
    unused_next = v.unused m.next (omega arith)

    -- No live node points at unused memory.
    old_up : (q : Ptr) → m.live q ≡ true → m.up q ≢ null → m.up q ≢ m.next
    old_up q l u = λ e. cc (v.forest.parents q l u, unused_next, ap m.live e)

    old_right : (q : Ptr) → m.live q ≡ true → m.right q ≢ m.next
    old_right q l = λ e. cc ((v.forest.rings.linked q l).live_right, unused_next, ap m.live e)

    grown-IsForest : IsForest comp rank grown
    unfolding new_node
    grown-IsForest = record {
      rings = new_node-IsRings m v.forest.rings unused_next p v.address;
      level = λ q l. ground (arith, v.forest.level q, old_right q);
      parents = λ q l u. ground (arith, v.forest.parents q, old_up q);
      rising = λ q l u. ground (arith, v.forest.rising q);
      ordered = λ q l u. ground (arith, v.forest.ordered q, old_up q);
    }

    -- The least of the old nodes and the new one.
    abbrev chosen : Ptr
    chosen = if comp p (m.val f.min) then m.next else f.min

    chosen-IsLeast :
        (nz : f.size ≢ 0) (x : Memory T)
        → ((q : Ptr) → x.live q ≡ (if m.next == q then true else m.live q))
        → ((q : Ptr) → x.val q ≡ (if m.next == q then p else m.val q))
        → ((q : Ptr) → x.up q ≡ (if m.next == q then null else m.up q))
        → IsLeast comp chosen x
    chosen-IsLeast nz x live val up =
        let l = v.minimum nz in
        let apart : m.next ≢ f.min = λ e. cc (l.live_min, unused_next, ap m.live e) in
        record {
          live_min = ground (arith, live m.next, live f.min, l);
          root = ground (arith, up m.next, up f.min, l);
          least = λ q at. ground (
            arith,
            live q,
            val q,
            val m.next,
            val f.min,
            l.least q,
            irrefl p,
            trans (m.val q) p (m.val f.min),
          );
        }

    live_new : grown.live m.next ≡ true
    unfolding new_node
    live_new = ground arith

    val_new : grown.val m.next ≡ p
    unfolding new_node
    val_new = rw (eq→== m.next m.next refl) refl

    module _ (nz : f.size ≢ 0) where
      apart : m.next ≢ f.min
      apart = λ e. cc ((v.minimum nz).live_min, unused_next, ap m.live e)

      old_live : grown.live f.min ≡ true
      unfolding new_node
      old_live = ground (arith, (v.minimum nz).live_min)

      old_val : grown.val f.min ≡ m.val f.min
      unfolding new_node
      old_val = rw (ne→== m.next f.min apart) refl

      joined : rl_splice f.min m.next grown ≡ ok (spliced f.min m.next grown)
      joined = rl_splice-spliced grown grown-IsForest.rings f.min m.next old_live live_new

    module _ (small : f.size + 1 < 2 ^ 64) where
      size_up : incr f.size ≡ f.size + 1
      size_up = omega arith

      size_tally : incr f.size ≡ tally grown.live grown.next
      size_tally = omega (
        arith,
        size_up,
        v.sized,
        grown-tally m v.forest.rings v.forest.parents v.family unused_next v.address p,
      )

      born-IsChildren : IsChildren grown.live grown.up grown.down grown.num_children grown.next
      born-IsChildren =
          grown-IsChildren m v.forest.rings v.forest.parents v.family unused_next v.address p

      born-IsApart : IsApart m.next grown
      born-IsApart =
          grown-IsApart m v.forest.rings v.forest.parents v.family unused_next v.address p

      first-Pushed :
          f.size ≡ 0 → Pushed rank p f m m.next (record { min = m.next; size = incr f.size }) grown
      unfolding new_node
      first-Pushed z = record {
        valid = record {
          forest = grown-IsForest;
          family = record {
            gathered = λ q r lq lr same.
                let at_q : m.next ≡ q = ground (arith, lq, v.no_node z q) in
                let at_r : m.next ≡ r = ground (arith, lr, v.no_node z r) in
                subst (λ y. Along grown.right q y) (sym at_q ∙ at_r) here;
            children = born-IsChildren;
          };
          sized = size_tally;
          unused = λ q h. ground (arith, v.unused q);
          address = omega arith;
          none_left = λ e. absurd (omega arith);
          no_node = λ e. absurd (omega arith);
          minimum = λ nz. record {
            live_min = ground arith;
            root = ground arith;
            least = λ q l. ground (arith, v.no_node z q, irrefl p);
          };
        };
        sized = size_up;
        new_key = unused_next;
        one_more = λ q. refl;
        at_key = rw (eq→== m.next m.next refl) refl;
        elsewhere = λ q u. rw (ne→== m.next q u) refl;
      }

      later-Pushed :
          (nz : f.size ≢ 0)
          → Pushed rank p f m m.next
              (record { min = chosen; size = incr f.size })
              (spliced f.min m.next grown)
      unfolding new_node
      later-Pushed nz =
          let l = v.minimum nz in
          record {
            valid = record {
              forest =
                  spliced-IsForest comp rank grown grown-IsForest f.min m.next
                    (ground (arith, l.live_min)) (ground arith) (ground (arith, l.root))
                    (ground arith);
              family = record {
                gathered =
                    spliced-IsGathered grown grown-IsForest.rings grown-IsForest.level f.min m.next
                      (ground (arith, l.live_min)) (ground arith) (ground (arith, l.root))
                      (λ e. apart nz (sym e)) born-IsApart (ground arith);
                children = born-IsChildren;
              };
              sized = size_tally;
              unused = λ q h. ground (arith, v.unused q);
              address = omega arith;
              none_left = λ e. absurd (omega arith);
              no_node = λ e. absurd (omega arith);
              minimum = λ _.
                  chosen-IsLeast nz (spliced f.min m.next grown) (λ q. refl) (λ q. refl)
                    (λ q. refl);
            };
            sized = size_up;
            new_key = unused_next;
            one_more = λ q. refl;
            at_key = rw (eq→== m.next m.next refl) refl;
            elsewhere = λ q u. rw (ne→== m.next q u) refl;
          }

      -- A valid heap under a strict order takes any value: `push` returns a key that was no live
      -- node, every other node stays with its value, the size goes up by one, and the heap is
      -- valid again: all roots, the new one with them, are in the ring of `min`, which is the least
      -- of them, all children of a node in the ring that its `down` leads to, and counted. The size
      -- must be below its largest.
      pub push-Pushed : Returns (λ (k, f', m'). Pushed rank p f m k f' m') (push comp p f m)
      unfolding push insert_new_node
      push-Pushed = rw (consistency_check-ok comp rank f m v) (elim (ℕ_discrete f.size 0) [
        | yes z ↦ rw (eq→== f.min null (v.none_left z)) (returns (first-Pushed z))
        | no nz ↦
            rw
              (
                ne_null v.forest.rings f.min (v.minimum nz).live_min,
                joined nz,
                live_new,
                old_live nz,
                val_new,
                old_val nz,
              )
              (elim (Bool-cases (comp p (m.val f.min))) [
                | inl below ↦ rw below (returns (rw below at (later-Pushed nz)))
                | inr above ↦ rw above (returns (rw above at (later-Pushed nz)))
              ])
      ])
