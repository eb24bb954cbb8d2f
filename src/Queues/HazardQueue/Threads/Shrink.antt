-- ===== src/Queues/HazardQueue/Threads/Shrink.antt =====
-- What a tail or a head that moves on leaves in order.
use cpp_util.Prelude.{suc, ◌<◌, ◌≡◌, ◌≢◌, ap, ◌∙◌, sym, Option, [], ◌∷◌, ◌++◌, arith, subst}
use cpp_util.Queues.HazardQueue.{Ptr}
use cpp_util.Queues.HazardQueue.Threads.{times}
use cpp_util.Queues.HazardQueue.Threads.Shape.{Shape, Order, IsQueued, Leads, IsOrdered}
use cpp_util.Queues.HazardQueue.Threads.Facts.{Keeps}
use cpp_util.Queues.HazardQueue.Threads.Retired.{times-append}

module _ {s : Shape} {o : Order} (v : IsOrdered s o) where
  -- A node with a next one is not the newest, so that what follows it is queued too.
  pub Leads-IsQueued :
      {p m : Ptr} → IsQueued s o p → Leads s o p m → IsQueued s o m × (o.rank m ≡ suc (o.rank p))
  Leads-IsQueued {p} {m} h l =
      let after = v.follows p h (λ e. l.some_node (sym l.to ∙ ap s.next e ∙ v.ends)) in
      subst (λ x. IsQueued s o x × (o.rank x ≡ suc (o.rank p))) l.to after

  -- The tail moves from `p` to `m`.
  module _ (p m : Ptr) (l : Leads s o p m) (at_tail : s.tail ≡ p) where
    abbrev pub forwarded : Shape
    forwarded = record s { tail = m }

    tail_queued : IsQueued s o p
    tail_queued = subst (IsQueued s o) at_tail v.tail

    forward : (r : Ptr) → IsQueued s o r → IsQueued forwarded o r
    forward r h = record { in_order = h.in_order; kept = h.kept }

    back : (r : Ptr) → IsQueued forwarded o r → IsQueued s o r
    back r h = record { in_order = h.in_order; kept = h.kept }

    pub forwarded-IsOrdered : IsOrdered forwarded o
    forwarded-IsOrdered =
        let (k, r) = Leads-IsQueued tail_queued l in
        record {
          head = forward _ v.head;
          tail = forward _ k;
          newest = forward _ v.newest;
          ends = v.ends;
          apart = ground (arith, v.apart, r, at_tail);
          from_head = λ p h. v.from_head p (back p h);
          to_newest = λ p h. v.to_newest p (back p h);
          unique = λ p r h k. v.unique p r (back p h) (back r k);
          follows = λ p h ne. let (k, r) = v.follows p (back p h) ne in (forward _ k, r);
          once = v.once;
          passed = v.passed;
          alive = v.alive;
          address = v.address;
        }

    pub forwarded-Keeps : (mine held : Option Ptr) → Keeps mine held s o forwarded o
    forwarded-Keeps mine held = record {
      private = λ n e h. record {
        alive = h.alive;
        unlinked = h.unlinked;
        ends = h.ends;
        some_node = h.some_node;
      };
      in_order = λ p e h. h;
      leads = λ p m e h. record { in_order = h.in_order; to = h.to; some_node = h.some_node };
      was_head = λ p e h. record { in_order = h.in_order; at_head = h.at_head };
      beyond = λ x e h ne same.
          let (k, r) = Leads-IsQueued tail_queued l in
          let top : x ≡ s.head = h.at_head (ap (λ y. times y s.retired) same ∙ k.kept) in
          ground (arith, ap o.rank top, ap o.rank same, r, ap o.rank at_tail, v.apart);
    }

  -- The head moves from `h`, which the tail has left, to `n`.
  module _ (h n : Ptr) (l : Leads s o h n) (at_head : s.head ≡ h) (left : h ≢ s.tail) where
    abbrev pub moved_on : Shape
    moved_on = record s { head = n; retired = s.retired ++ h ∷ [] }

    head_queued : IsQueued s o h
    head_queued = subst (IsQueued s o) at_head v.head

    stays : (r : Ptr) → h ≢ r → IsQueued s o r → IsQueued moved_on o r
    stays r ne k = record {
      in_order = k.in_order;
      kept = ground (arith, times-append r s.retired h, k.kept);
    }

    stayed : (r : Ptr) → IsQueued moved_on o r → (h ≢ r) × IsQueued s o r
    stayed r k = (
      ground (arith, times-append r s.retired h, k.kept),
      record { in_order = k.in_order; kept = ground (arith, times-append r s.retired h, k.kept) },
    )

    after : IsQueued s o n × (o.rank n ≡ suc (o.rank h))
    after = Leads-IsQueued head_queued l

    above : (r : Ptr) → h ≢ r → IsQueued s o r → o.rank h < o.rank r
    above r ne k = ground (
      arith,
      v.from_head r k,
      ap o.rank at_head,
      λ (e : o.rank h ≡ o.rank r). ne (v.unique h r head_queued k e),
    )

    not_newest : h ≢ o.newest
    not_newest e = l.some_node (sym l.to ∙ ap s.next e ∙ v.ends)

    later_ne : (r : Ptr) → o.rank h < o.rank r → h ≢ r
    later_ne r lt e = ground (arith, ap o.rank e)

    pub moved_on-IsOrdered : IsOrdered moved_on o
    moved_on-IsOrdered = record {
      head = stays n (later_ne n (omega (arith, after.1))) after.0;
      tail = stays s.tail left v.tail;
      newest = stays o.newest not_newest v.newest;
      ends = v.ends;
      apart = omega (arith, after.1, above s.tail left v.tail);
      from_head = λ r k. let (ne, k') = stayed r k in omega (arith, after.1, above r ne k');
      to_newest = λ r k. v.to_newest r (stayed r k).1;
      unique = λ x r j k. v.unique x r (stayed x j).1 (stayed r k).1;
      follows = λ r k ne.
          let (other, k') = stayed r k in
          let (j, e) = v.follows r k' ne in
          (stays (s.next r) (later_ne (s.next r) (omega (arith, e, above r other k'))) j, e);
      once = λ r. ground (arith, times-append r s.retired h, v.once r, head_queued.kept);
      passed = λ r k.
          ground (arith, times-append r s.retired h, v.passed r, l.in_order, l.to, l.some_node);
      alive = v.alive;
      address = v.address;
    }

    pub moved_on-Keeps : (mine held : Option Ptr) → Keeps mine held s o moved_on o
    moved_on-Keeps mine held = record {
      private = λ n e k. record {
        alive = k.alive;
        unlinked = k.unlinked;
        ends = k.ends;
        some_node = k.some_node;
      };
      in_order = λ p e k. k;
      leads = λ p m e k. record { in_order = k.in_order; to = k.to; some_node = k.some_node };
      was_head = λ p e k. record {
        in_order = k.in_order;
        at_head =
            λ none_left. ground (arith, times-append p s.retired h, none_left, k.at_head, at_head);
      };
      beyond = λ x e k ne. ne;
    }
