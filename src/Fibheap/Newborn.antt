-- ===== src/Fibheap/Newborn.antt =====
-- The families when a node is made.
use cpp_util.Prelude.{
  suc, ◌<◌, ◌≡◌, refl, ◌≢◌, ap, ◌∙◌, subst, true, false, ℕ_discrete, eq→==, ne→==, arith, ◌%◌, ◌^◌,
}
use cpp_util.Fibheap.Memory.{Ptr, null, Memory, new_node}
use cpp_util.Fibheap.Rings.{IsRings}
use cpp_util.Fibheap.Family.{
  Along, here, on_to, tally, tally-same, tally-none, child_of, IsChildren, IsFamily, IsApart,
}

module _ {ℓ} {T : Type ℓ} (m : Memory T) (rings : IsRings m)
    (parents : (p : Ptr) → m.live p ≡ true → m.up p ≢ null → m.live (m.up p) ≡ true)
    (fam : IsFamily m) (unused : m.live m.next ≡ false) (pos : 0 < m.next) (v : T) where
  abbrev grown : Memory T
  grown = new_node v m

  old_ne : (p : Ptr) → m.live p ≡ true → m.next ≢ p
  old_ne p l e = cc (unused, l, ap m.live e)

  -- A way among old nodes is still there.
  still : {p q : Ptr} → Along m.right p q → m.live p ≡ true → Along grown.right p q
  unfolding new_node
  still (here) l = here
  still {p} (Along.on w) l =
      on_to (rw (ne→== m.next p (old_ne p l)) refl) (still w (rings.linked p l).live_right)

  pub grown-IsApart : IsApart m.next grown
  unfolding new_node
  grown-IsApart = record {
    alone = ground arith;
    others = λ p q lp lq u w same.
        let l : m.live p ≡ true = ground (arith, lp, u) in
        let k : m.live q ≡ true = ground (arith, lq, w) in
        still (fam.gathered p q l k (ground (arith, same, u, w))) l;
  }

  -- Nobody has the new node as a parent.
  childless : (q : Ptr) → child_of grown.live grown.up m.next q ≡ false
  unfolding new_node
  childless q = elim (ℕ_discrete m.next q) [
    | yes e ↦ ground (arith, e, pos)
    | no u ↦ ground (arith, u, parents q, unused, pos, ap m.live)
  ]

  -- The others have the children that they had.
  same_children :
      (p : Ptr)
      → p ≢ null
      → tally (child_of grown.live grown.up p) (suc m.next) ≡ tally (child_of m.live m.up p) m.next
  unfolding new_node
  same_children p some_node =
      let rest =
        tally-same (child_of grown.live grown.up p) (child_of m.live m.up p) m.next
          (λ q l. rw (ne→== m.next q (λ e. omega (arith, e, l))) refl) in
      ground (arith, rest, some_node)

  pub grown-IsChildren : IsChildren grown.live grown.up grown.down grown.num_children grown.next
  unfolding new_node
  grown-IsChildren = record {
    has_first = λ q lq u.
        let differ : m.next ≢ q = λ e. u (ground (arith, e)) in
        let up_q : grown.up q ≡ m.up q = ground (arith, differ) in
        let some_up : m.up q ≢ null = λ e. u (up_q ∙ e) in
        let old : m.live q ≡ true = ground (arith, lq, differ) in
        let (there, back) = fam.children.has_first q old some_up in
        let off_up = old_ne (m.up q) (parents q old some_up) in
        let off_down = old_ne (m.down (m.up q)) there in
        rw (up_q, ne→== m.next (m.up q) off_up, ne→== m.next (m.down (m.up q)) off_down)
          (there, back);
    first = λ p lp u.
        let differ : m.next ≢ p = λ e. u (ground (arith, e)) in
        let old : m.live p ≡ true = ground (arith, lp, differ) in
        let same : grown.down p ≡ m.down p = ground (arith, differ) in
        let (there, back) = fam.children.first p old (λ e. u (same ∙ e)) in
        let off = old_ne (m.down p) there in
        rw (ne→== m.next p differ, ne→== m.next (m.down p) off) (there, back);
    counted = λ p lp. elim (ℕ_discrete m.next p) [
      | yes e ↦
          let none =
            tally-none (child_of grown.live grown.up m.next) (suc m.next) (λ q l. childless q) in
          subst
            (λ r.
              grown.num_children r ≡ tally (child_of grown.live grown.up r) (suc m.next) % 2 ^ 64)
            e (rw (none, eq→== m.next m.next refl) refl)
      | no u ↦
          let old : m.live p ≡ true = ground (arith, lp, u) in
          let some_node : p ≢ null = λ e. cc (rings.no_null, ap m.live e, old) in
          rw (same_children p some_node, ne→== m.next p u) (fam.children.counted p old)
    ];
  }

  pub grown-tally : tally grown.live grown.next ≡ suc (tally m.live m.next)
  unfolding new_node
  grown-tally =
      let rest =
        tally-same grown.live m.live m.next
          (λ q l. rw (ne→== m.next q (λ e. omega (arith, e, l))) refl) in
      ground (arith, rest)
