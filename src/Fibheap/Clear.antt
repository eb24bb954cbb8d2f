-- ===== src/Fibheap/Clear.antt =====
-- `clear`, on rings of trees of nodes.
use mathlib.Core.List.{append-nil, append_assoc}
use cpp_util.Prelude.{
  sym, ◌∙◌, ℕ, zero, suc, ◌+◌, ◌≤◌, ◌≡◌, refl, subst, ◌≢◌, Bool, true, false, List, [], ◌∷◌, ◌++◌,
  ok, eq→==, ne→==, ℕ_discrete, arith,
}
use cpp_util.Fibheap.Memory.{Ptr, null, update, Memory, delete_node}
use cpp_util.Fibheap.Nodes.{delete_ring, delete_subtree}
use cpp_util.Fibheap.Methods.{Fibheap, fibheap, clear, consistency_check}

-- Siblings from a node on, each with its children: `node p kids rest`.
pub data Trees : Type 0 where
  leaf : Trees
  node : Ptr → Trees → Trees → Trees

abbrev pub first_or : Trees → Ptr → Ptr
first_or leaf p = p
first_or (node q kids rest) p = q

abbrev pub size : Trees → ℕ
size leaf = 0
size (node p kids rest) = suc (size kids + size rest)

-- The nodes in the order in which they are deleted: children before their parent.
abbrev pub order : Trees → List Ptr
order leaf = []
order (node p kids rest) = order kids ++ p ∷ order rest

abbrev pub Closes : Ptr → Trees → Type 0
Closes first leaf = Unit
Closes first (node q kids rest) = q ≢ first

-- The pointers lead along the trees, each ring of siblings ends at its first node, and not before.
abbrev pub IsTrees : (right down : Ptr → Ptr) → Ptr → Trees → Type 0
IsTrees right down first leaf = Unit
IsTrees right down first (node p kids rest) =
    (p ≢ null)
    × (right p ≡ first_or rest first)
    × (down p ≡ first_or kids null)
    × Closes first rest
    × IsTrees right down (first_or kids null) kids
    × IsTrees right down first rest

-- Each node is there when its turn comes to be deleted.
abbrev pub AllLive : List Ptr → (Ptr → Bool) → Type 0
AllLive [] live = Unit
AllLive (p ∷ ps) live = (live p ≡ true) × AllLive ps (update live p false)

abbrev pub without : List Ptr → (Ptr → Bool) → Ptr → Bool
without [] live = live
without (p ∷ ps) live = without ps (update live p false)

without-append :
    (ps qs : List Ptr) (live : Ptr → Bool) → without (ps ++ qs) live ≡ without qs (without ps live)
without-append [] qs live = refl
without-append (p ∷ ps) qs live = without-append ps qs (update live p false)

without-true :
    (ps : List Ptr) (live : Ptr → Bool) (q : Ptr) → without ps live q ≡ true → live q ≡ true
without-true [] live q h = h
without-true (p ∷ ps) live q h = ground (arith, without-true ps (update live p false) q h)

AllLive-append :
    (ps qs : List Ptr) (live : Ptr → Bool)
    → AllLive (ps ++ qs) live
    → AllLive ps live × AllLive qs (without ps live)
AllLive-append [] qs live h = (tt, h)
AllLive-append (p ∷ ps) qs live (l, h) =
    let (a, b) = AllLive-append ps qs (update live p false) h in ((l, a), b)

module _ {ℓ} {T : Type ℓ} where
  abbrev pub cleared : Trees → Memory T → Memory T
  cleared ts m = record m { live = without (order ts) m.live; deleted = m.deleted ++ order ts }

  -- The loop over the ring from the first of the siblings `ts` on deletes them and what is below.
  abbrev RingCleared : Ptr → ℕ → ℕ → Memory T → Trees → Type ℓ
  RingCleared first fuel depth m leaf = Unit
  RingCleared first fuel depth m (node p kids rest) =
      delete_ring fuel (delete_subtree depth) p first m ≡ ok (cleared (node p kids rest) m)

  subtree-cleared :
      (kids : Trees) (p : Ptr) (depth : ℕ) (m : Memory T)
      → p ≢ null
      → m.live p ≡ true
      → m.down p ≡ first_or kids null
      → IsTrees m.right m.down (first_or kids null) kids
      → RingCleared (first_or kids null) (suc depth) depth m kids
      → delete_subtree (suc depth) p m ≡ ok (cleared kids m)
  unfolding delete_subtree
  subtree-cleared leaf p depth m ne l d t r = rw (ne→== p null ne, l, d, append-nil m.deleted) refl
  subtree-cleared (node q kids rest) p depth m ne l d t r =
      rw (ne→== p null ne, l, d, ne→== q null t.0) r

  step-cleared :
      (kids rest : Trees) (p first : Ptr) (fuel depth : ℕ) (m : Memory T)
      → delete_subtree depth p m ≡ ok (cleared kids m)
      → without (order kids) m.live p ≡ true
      → m.right p ≡ first_or rest first
      → Closes first rest
      → RingCleared first fuel depth
          (record m {
            live = update (without (order kids) m.live) p false;
            deleted = (m.deleted ++ order kids) ++ p ∷ [];
          })
          rest
      → delete_ring (suc fuel) (delete_subtree depth) p first m ≡ ok (cleared (node p kids rest) m)
  unfolding delete_ring delete_node
  step-cleared kids leaf p first fuel depth m below l to c r =
      rw
        (
          without-append (order kids) (p ∷ []) m.live,
          below,
          l,
          to,
          eq→== first first refl,
          append_assoc m.deleted (order kids) (p ∷ []),
        )
        refl
  step-cleared kids (node q kids' rest') p first fuel depth m below l to c r =
      rw
        (
          without-append (order kids) (p ∷ order (node q kids' rest')) m.live,
          below,
          l,
          to,
          ne→== q first c,
          sym (
              append_assoc (m.deleted ++ order kids) (p ∷ []) (order (node q kids' rest'))
              ∙ append_assoc m.deleted (order kids) (p ∷ order (node q kids' rest'))),
        )
        r

  delete_ring-cleared :
      (ts : Trees) (first : Ptr) (fuel depth : ℕ) (m : Memory T)
      → IsTrees m.right m.down first ts
      → AllLive (order ts) m.live
      → size ts ≤ fuel
      → size ts ≤ depth
      → RingCleared first fuel depth m ts
  delete_ring-cleared leaf first fuel depth m t l a b = tt
  delete_ring-cleared (node p kids rest) first zero depth m t l a b = absurd (omega arith)
  delete_ring-cleared (node p kids rest) first (suc fuel) zero m t l a b = absurd (omega arith)
  delete_ring-cleared (node p kids rest) first (suc fuel) (suc depth) m
        (ne, to, d, c, inner, later_trees) l a b =
      let (lk, (lp, lr)) = AllLive-append (order kids) (p ∷ order rest) m.live l in
      let below =
        delete_ring-cleared kids (first_or kids null) (suc depth) depth m inner lk
          (omega (arith, b)) (omega (arith, b)) in
      let m' = record m {
        live = update (without (order kids) m.live) p false;
        deleted = (m.deleted ++ order kids) ++ p ∷ [];
      } in
      let later =
        delete_ring-cleared rest first fuel (suc depth) m' later_trees lr (omega (arith, a))
          (omega (arith, b)) in
      step-cleared kids rest p first fuel (suc depth) m
        (subtree-cleared kids p depth m ne (without-true (order kids) m.live p lp) d inner below) lp
        to c later

  size-empty :
      (f : Fibheap) (m : Memory T) → consistency_check f m ≡ ok tt → f.min ≡ null → f.size ≡ 0
  unfolding consistency_check
  size-empty f m check at = elim (ℕ_discrete f.size 0) [
    | yes e ↦ e
    | no ne ↦ cc (rw (ne→== f.size 0 ne, at) at check)
  ]

  -- A heap whose check succeeds and whose roots, from `min` on, are the siblings `ts` with what is
  -- below them, all of it live, each node once: `clear` returns, when its fuel is not below the number
  -- of the nodes. It deletes them one after another as they stand in `order ts`, each behind the nodes
  -- below it, and nothing else, and the heap is empty.
  pub clear-cleared :
      (ts : Trees) (fuel : ℕ) (f : Fibheap) (m : Memory T)
      → consistency_check f m ≡ ok tt
      → f.min ≡ first_or ts null
      → IsTrees m.right m.down f.min ts
      → AllLive (order ts) m.live
      → size ts ≤ fuel
      → clear fuel f m ≡ ok (fibheap, cleared ts m)
  unfolding clear
  clear-cleared leaf fuel f m check at t l a =
      rw (check, at, size-empty f m check at, append-nil m.deleted) refl
  clear-cleared (node p kids rest) fuel f m check at t l a =
      rw
        (
          check,
          at,
          ne→== p null t.0,
          subst
              (λ x.
                delete_ring fuel (delete_subtree fuel) p x m ≡ ok (cleared (node p kids rest) m))
              at (delete_ring-cleared (node p kids rest) f.min fuel fuel m t l a a),
        )
        refl
