-- ===== src/Queues/HazardQueue/Threads/Grow.antt =====
-- What a node that is made, and one that is linked, leave in order.
use cpp_util.Prelude.{
  suc, ◌≤◌, ◌≡◌, ◌≢◌, ap, ◌∙◌, sym, true, false, Option, some, arith, ℕ_discrete, subst,
}
use cpp_util.Queues.HazardQueue.{Ptr, null, update}
use cpp_util.Queues.HazardQueue.Threads.Shape.{Shape, Order, IsQueued, IsPrivate, Leads, IsOrdered}
use cpp_util.Queues.HazardQueue.Threads.Facts.{Keeps}

module _ {s : Shape} {o : Order} (v : IsOrdered s o) where
  -- Only the newest node has no next one.
  pub end-newest : (p : Ptr) → o.linked p ≡ true → s.next p ≡ null → p ≡ o.newest
  end-newest p there end =
      let queued : IsQueued s o p = record {
        in_order = there;
        kept = ground (arith, v.passed p);
      } in
      elim (ℕ_discrete p o.newest) [
        | yes e ↦ e
        | no ne ↦ let (k, r) = v.follows p queued ne in absurd (v.address (s.next p) k.in_order end)
      ]

  -- `new` gives the address `a`.
  module _ (a : Ptr) (free : s.live a ≡ false) (some_node : a ≢ null) where
    abbrev pub grown : Shape
    grown = record s { next = update s.next a null; live = update s.live a true }

    linked_ne : (p : Ptr) → o.linked p ≡ true → a ≢ p
    linked_ne p h e = ground (arith, v.alive p h)

    next_same : (p : Ptr) → o.linked p ≡ true → grown.next p ≡ s.next p
    next_same p h = ground (arith, linked_ne p h)

    same-IsQueued : (p : Ptr) → IsQueued s o p → IsQueued grown o p
    same-IsQueued p h = record { in_order = h.in_order; kept = h.kept }

    IsQueued-same : (p : Ptr) → IsQueued grown o p → IsQueued s o p
    IsQueued-same p h = record { in_order = h.in_order; kept = h.kept }

    pub grown-IsOrdered : IsOrdered grown o
    grown-IsOrdered = record {
      head = same-IsQueued _ v.head;
      tail = same-IsQueued _ v.tail;
      newest = same-IsQueued _ v.newest;
      ends = next_same _ v.newest.in_order ∙ v.ends;
      apart = v.apart;
      from_head = λ p h. v.from_head p (IsQueued-same p h);
      to_newest = λ p h. v.to_newest p (IsQueued-same p h);
      unique = λ p r h k. v.unique p r (IsQueued-same p h) (IsQueued-same r k);
      follows = λ p h ne.
          let (k, r) = v.follows p (IsQueued-same p h) ne in
          rw (next_same p h.in_order) (same-IsQueued _ k, r);
      once = v.once;
      passed = λ p h. ground (arith, v.passed p h, next_same p);
      alive = λ p h. ground (arith, v.alive p h);
      address = v.address;
    }

    pub grown-Keeps : (mine held : Option Ptr) → Keeps mine held s o grown o
    grown-Keeps mine held = record {
      private = λ n e h. record {
        alive = ground (arith, h.alive);
        unlinked = h.unlinked;
        ends = ground (arith, h.alive, h.ends);
        some_node = h.some_node;
      };
      in_order = λ p e h. h;
      leads = λ p m e h. record {
        in_order = h.in_order;
        to = next_same p h.in_order ∙ h.to;
        some_node = h.some_node;
      };
      was_head = λ p e h. record { in_order = h.in_order; at_head = h.at_head };
      beyond = λ p e h ne. ne;
    }

    pub grown-IsPrivate : IsPrivate grown o a
    grown-IsPrivate = record {
      alive = ground arith;
      unlinked = ground (arith, v.alive a);
      ends = ground arith;
      some_node = some_node;
    }

  -- `n` is linked behind `p`, which has no next node.
  module _ (n p : Ptr) (new : IsPrivate s o n) (there : o.linked p ≡ true)
      (end : s.next p ≡ null) where
    abbrev pub joined : Shape
    joined = record s { next = update s.next p n }

    abbrev pub joined_order : Order
    joined_order = record o {
      linked = update o.linked n true;
      rank = update o.rank n (suc (o.rank o.newest));
      newest = n;
    }

    is_newest : p ≡ o.newest
    is_newest = end-newest p there end

    old_ne : (r : Ptr) → o.linked r ≡ true → n ≢ r
    old_ne r h e = ground (arith, new.unlinked)

    queued_old : (r : Ptr) → IsQueued s o r → IsQueued joined joined_order r
    queued_old r h = record { in_order = ground (arith, h.in_order); kept = h.kept }

    queued_new : IsQueued joined joined_order n
    queued_new = record {
      in_order = ground arith;
      kept = ground (arith, v.passed n, new.unlinked, v.once n);
    }

    old_queued : (r : Ptr) → n ≢ r → IsQueued joined joined_order r → IsQueued s o r
    old_queued r ne h = record { in_order = ground (arith, h.in_order); kept = h.kept }

    rank_old : (r : Ptr) → o.linked r ≡ true → joined_order.rank r ≡ o.rank r
    rank_old r h = ground (arith, old_ne r h)

    rank_new : joined_order.rank n ≡ suc (o.rank o.newest)
    rank_new = ground arith

    -- What holds of the old nodes and of the new one holds of all.
    each :
        {P : Ptr → Type 0}
        → P n
        → ((r : Ptr) → n ≢ r → IsQueued s o r → P r)
        → (r : Ptr) → IsQueued joined joined_order r
        → P r
    each {P} at_new at_old r h = elim (ℕ_discrete n r) [
      | yes e ↦ subst P e at_new
      | no ne ↦ at_old r ne (old_queued r ne h)
    ]

    rank_le :
        (r : Ptr) → IsQueued joined joined_order r → joined_order.rank r ≤ suc (o.rank o.newest)
    rank_le = each (ground arith) λ r ne h. ground (arith, v.to_newest r h)

    new_alone :
        (r : Ptr)
        → IsQueued joined joined_order r
        → joined_order.rank r ≡ suc (o.rank o.newest)
        → n ≡ r
    new_alone r h e = elim (ℕ_discrete n r) [
      | yes same ↦ same
      | no ne ↦ absurd (ground (arith, e, ne, v.to_newest r (old_queued r ne h)))
    ]

    joined_unique :
        (x r : Ptr)
        → IsQueued joined joined_order x
        → IsQueued joined joined_order r
        → joined_order.rank x ≡ joined_order.rank r
        → x ≡ r
    joined_unique x r h k e = elim (ℕ_discrete n x) [
      | yes same ↦ sym same ∙ new_alone r k (sym e ∙ ap joined_order.rank (sym same) ∙ rank_new)
      | no ne ↦ elim (ℕ_discrete n r) [
        | yes same ↦ sym (new_alone x h (e ∙ ap joined_order.rank (sym same) ∙ rank_new)) ∙ same
        | no ne' ↦
            v.unique x r (old_queued x ne h) (old_queued r ne' k) (ground (arith, e, ne, ne'))
      ]
    ]

    joined_follows :
        (x : Ptr)
        → IsQueued joined joined_order x
        → x ≢ n
        → IsQueued joined joined_order (joined.next x)
          × (joined_order.rank (joined.next x) ≡ suc (joined_order.rank x))
    joined_follows x h ne = elim (ℕ_discrete p x) [
      | yes same ↦
          let to : joined.next x ≡ n = ground (arith, same) in
          rw to (queued_new, ground (arith, is_newest, same, ne))
      | no other ↦
          let old = old_queued x (λ e. ne (sym e)) h in
          let (k, r) = v.follows x old (λ e. other (is_newest ∙ sym e)) in
          let to : joined.next x ≡ s.next x = ground (arith, other) in
          rw to (queued_old _ k, rank_old _ k.in_order ∙ r ∙ ap suc (sym (rank_old x old.in_order)))
    ]

    pub joined-IsOrdered : IsOrdered joined joined_order
    joined-IsOrdered = record {
      head = queued_old _ v.head;
      tail = queued_old _ v.tail;
      newest = queued_new;
      ends = ground (arith, new.ends);
      apart = ground (arith, rank_old _ v.head.in_order, rank_old _ v.tail.in_order, v.apart);
      from_head =
          each (ground (arith, rank_old _ v.head.in_order, v.to_newest _ v.head))
            λ r ne h. ground (arith, rank_old _ v.head.in_order, v.from_head r h);
      to_newest = λ r h. rw rank_new (rank_le r h);
      unique = joined_unique;
      follows = joined_follows;
      once = v.once;
      passed = λ r h. ground (arith, v.passed r h);
      alive = λ r h. ground (arith, v.alive r, new.alive);
      address = λ r h. ground (arith, v.address r, new.some_node);
    }

    pub joined-Keeps :
        (mine held : Option Ptr) → mine ≢ some n → Keeps mine held s o joined joined_order
    joined-Keeps mine held other = record {
      private = λ r e h. record {
        alive = h.alive;
        unlinked = ground (arith, h.unlinked);
        ends = ground (arith, h.ends, h.unlinked, there);
        some_node = h.some_node;
      };
      in_order = λ r e h. ground (arith, h);
      leads = λ r m e h. record {
        in_order = ground (arith, h.in_order);
        to = ground (arith, h.to, h.some_node);
        some_node = h.some_node;
      };
      was_head = λ r e h. record { in_order = ground (arith, h.in_order); at_head = h.at_head };
      beyond = λ r e h ne. ne;
    }

    pub joined-Leads : Leads joined joined_order p n
    joined-Leads = record {
      in_order = ground (arith, there);
      to = ground arith;
      some_node = new.some_node;
    }
