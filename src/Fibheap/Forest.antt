-- ===== src/Fibheap/Forest.antt =====
-- The invariants of the nodes and of the heap: rings of siblings under one parent, no cycle
-- upwards, the heap order, and a least root at `min`.
use cpp_util.Prelude.{
  ℕ, ◌≤◌, ◌<◌, ◌≡◌, refl, ◌≢◌, Bool, true, false, ok, ne→==, eq→==, ℕ_discrete, arith,
}
use cpp_util.Fibheap.Memory.{Ptr, null, Memory, update}
use cpp_util.Fibheap.Methods.{Fibheap, consistency_check}
use cpp_util.Fibheap.Family.{IsFamily, tally}
use cpp_util.Fibheap.Rings.{IsRings, ne_null, spliced, spliced-IsRings, cut_out-IsRings, torn}

-- What a strict order must give: std::less, or any `Compare` that fits it.
pub record IsStrictOrder {ℓ} {T : Type ℓ} (comp : T → T → Bool) : Type ℓ where
  pub irrefl : (a : T) → comp a a ≡ false
  pub trans : (a b c : T) → comp a b ≡ true → comp b c ≡ true → comp a c ≡ true

module _ {ℓ} {T : Type ℓ} (comp : T → T → Bool) where
  -- A parent is live and nearer to the root, it is the parent of the whole ring, and its value is
  -- not above the child's.
  pub record IsForest (rank : Ptr → ℕ) (m : Memory T) : Type 0 where
    pub rings : IsRings m
    pub level : (p : Ptr) → m.live p ≡ true → m.up (m.right p) ≡ m.up p
    pub parents : (p : Ptr) → m.live p ≡ true → m.up p ≢ null → m.live (m.up p) ≡ true
    pub rising : (p : Ptr) → m.live p ≡ true → m.up p ≢ null → rank (m.up p) < rank p
    pub ordered :
        (p : Ptr) → m.live p ≡ true → m.up p ≢ null → comp (m.val p) (m.val (m.up p)) ≡ false

  -- `min` is a root, and no node's value is below its.
  pub record IsLeast (min : Ptr) (m : Memory T) : Type 0 where
    pub live_min : m.live min ≡ true
    pub root : m.up min ≡ null
    pub least : (p : Ptr) → m.live p ≡ true → comp (m.val p) (m.val min) ≡ false

  -- A heap with its nodes: all roots are in the ring of `min`, all children of a node in the ring that
  -- its `down` leads to, each node counts its children and the heap its nodes; the memory that `new`
  -- will give out is unused.
  pub record IsValid (rank : Ptr → ℕ) (f : Fibheap) (m : Memory T) : Type 0 where
    pub forest : IsForest rank m
    pub family : IsFamily m
    pub sized : f.size ≡ tally m.live m.next
    pub unused : (p : Ptr) → m.next ≤ p → m.live p ≡ false
    pub address : 0 < m.next
    pub none_left : f.size ≡ 0 → f.min ≡ null
    pub no_node : f.size ≡ 0 → (p : Ptr) → m.live p ≡ false
    pub minimum : f.size ≢ 0 → IsLeast f.min m

  pub consistency_check-ok :
      (rank : Ptr → ℕ) (f : Fibheap) (m : Memory T)
      → IsValid rank f m
      → consistency_check f m ≡ ok tt
  unfolding consistency_check
  consistency_check-ok rank f m v = elim (ℕ_discrete f.size 0) [
    | yes z ↦ rw (eq→== f.size 0 z, v.none_left z) refl
    | no nz ↦
        let l = v.minimum nz in
        let rings = v.forest.rings in
        let at = rings.linked f.min l.live_min in
        rw
          (
            ne→== f.size 0 nz,
            ne_null rings f.min l.live_min,
            l.live_min,
            ne_null rings (m.left f.min) at.live_left,
            ne_null rings (m.right f.min) at.live_right,
            l.root,
          )
          refl
  ]

  module _ (rank : Ptr → ℕ) (m : Memory T) (w : IsForest rank m) where
    open w use {rings, level, parents, rising, ordered}

    -- Two roots' rings may be joined.
    pub spliced-IsForest :
        (main insert : Ptr)
        → m.live main ≡ true
        → m.live insert ≡ true
        → m.up main ≡ null
        → m.up insert ≡ null
        → IsForest rank (spliced main insert m)
    spliced-IsForest main insert lm li um ui =
        let at_main = rings.linked main lm in
        let at_insert = rings.linked insert li in
        record {
          rings = spliced-IsRings m rings main insert lm li;
          level = λ p l.
              ground (arith, at_main, at_insert, level p l, level main lm, level (m.left insert));
          parents = parents;
          rising = rising;
          ordered = ordered;
        }

    -- A node may leave its parent.
    pub torn-IsForest : (n : Ptr) (l : m.live n ≡ true) → IsForest rank (torn m rings n l)
    torn-IsForest n ln =
        let at_n = rings.linked n ln in
        record {
          rings = cut_out-IsRings m rings n ln;
          level = λ p l.
              ground (arith, at_n, rings.linked p l, level p l, level n ln, level (m.left n));
          parents = λ p l u. ground (arith, parents p l);
          rising = λ p l u. ground (arith, rising p l);
          ordered = λ p l u. ground (arith, ordered p l);
        }

    -- Marks are no part of it.
    pub marked-IsForest :
        (n : Ptr) (b : Bool) → IsForest rank (record m { marked = update m.marked n b })
    marked-IsForest n b = record {
      rings = rings;
      level = level;
      parents = parents;
      rising = rising;
      ordered = ordered;
    }
