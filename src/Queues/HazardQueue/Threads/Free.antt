-- ===== src/Queues/HazardQueue/Threads/Free.antt =====
-- What the deletion of a retired node leaves in order.
use cpp_util.Prelude.{
  ◌<◌, ◌≡◌, ◌≢◌, inl, inr, ap, ◌∙◌, sym, Bool, true, false, Option, some, arith, ℕ_discrete, subst,
}
use cpp_util.Queues.HazardQueue.{Ptr, update}
use cpp_util.Queues.HazardQueue.Threads.{times, erase}
use cpp_util.Queues.HazardQueue.Threads.Shape.{Shape, Order, IsQueued, IsOrdered}
use cpp_util.Queues.HazardQueue.Threads.Facts.{Keeps}
use cpp_util.Queues.HazardQueue.Threads.Retired.{times-erase, times-erase_self}
use cpp_util.Queues.HazardQueue.Threads.{Machine}
use cpp_util.Queues.HazardQueue.Threads.Kept.{IsKept}

module _ {s : Shape} {o : Order} (v : IsOrdered s o) where
  -- The retired node `d` is deleted.
  module _ (d : Ptr) (waits : 0 < times d s.retired) where
    abbrev pub freed : Shape
    freed = record s { retired = erase d s.retired; live = update s.live d false }

    abbrev pub freed_order : Order
    freed_order = record o { linked = update o.linked d false }

    pub none_left : times d (erase d s.retired) ≡ 0
    none_left = elim (times-erase_self d s.retired) [
      | inl h ↦ omega (arith, h, v.once d)
      | inr h ↦ absurd (omega (arith, h, waits))
    ]

    queued_ne : (r : Ptr) → IsQueued s o r → d ≢ r
    queued_ne r k e = ground (arith, k.kept, ap (λ x. times x s.retired) e, waits)

    keeps_queued : (r : Ptr) → IsQueued s o r → IsQueued freed freed_order r
    keeps_queued r k = record {
      in_order = ground (arith, queued_ne r k, k.in_order);
      kept = times-erase d r s.retired (queued_ne r k) ∙ k.kept;
    }

    freed_ne : (r : Ptr) → freed_order.linked r ≡ true → d ≢ r
    freed_ne r k e = ground (arith, k)

    kept_queued : (r : Ptr) → IsQueued freed freed_order r → IsQueued s o r
    kept_queued r k =
        let ne = freed_ne r k.in_order in
        record {
          in_order = ground (arith, ne, k.in_order);
          kept = sym (times-erase d r s.retired ne) ∙ k.kept;
        }

    waiting_ne : (r : Ptr) → 0 < times r (erase d s.retired) → d ≢ r
    waiting_ne r k e = ground (arith, none_left, ap (λ x. times x (erase d s.retired)) e)

    pub freed-IsOrdered : IsOrdered freed freed_order
    freed-IsOrdered = record {
      head = keeps_queued _ v.head;
      tail = keeps_queued _ v.tail;
      newest = keeps_queued _ v.newest;
      ends = v.ends;
      apart = v.apart;
      from_head = λ r k. v.from_head r (kept_queued r k);
      to_newest = λ r k. v.to_newest r (kept_queued r k);
      unique = λ x r j k. v.unique x r (kept_queued x j) (kept_queued r k);
      follows = λ r k ne. let (j, e) = v.follows r (kept_queued r k) ne in (keeps_queued _ j, e);
      once = λ r. elim (ℕ_discrete d r) [
        | yes e ↦ ground (arith, none_left, ap (λ x. times x (erase d s.retired)) e)
        | no ne ↦ ground (arith, times-erase d r s.retired ne, v.once r)
      ];
      passed = λ r k.
          let ne = waiting_ne r k in ground (arith, v.passed r, times-erase d r s.retired ne, ne);
      alive = λ r k. ground (arith, freed_ne r k, v.alive r);
      address = λ r k. v.address r (ground (arith, freed_ne r k));
    }

    -- For a thread that does not protect the node.
    pub freed-Keeps :
        (mine held : Option Ptr) → held ≢ some d → Keeps mine held s o freed freed_order
    freed-Keeps mine held other =
        let ne : (r : Ptr) → held ≡ some r → d ≢ r = λ r e same. other (e ∙ ap some (sym same)) in
        record {
          private = λ n e k. record {
            alive = ground (arith, k.alive, k.unlinked, v.passed d waits);
            unlinked = ground (arith, k.unlinked);
            ends = k.ends;
            some_node = k.some_node;
          };
          in_order = λ r e k. ground (arith, ne r e, k);
          leads = λ r m e k. record {
            in_order = ground (arith, ne r e, k.in_order);
            to = k.to;
            some_node = k.some_node;
          };
          was_head = λ r e k. record {
            in_order = ground (arith, ne r e, k.in_order);
            at_head = λ none_left. k.at_head (sym (times-erase d r s.retired (ne r e)) ∙ none_left);
          };
          beyond = λ r e k apart. apart;
        }

module _ {ℓ} {T : Type ℓ} where
  -- The retired node `d` is deleted.
  pub freed-IsKept :
      {m : Machine T} {o : Order} (k : IsKept m o) (d : Ptr) (live : Ptr → Bool)
      → times d (erase d m.queue.retired) ≡ 0
      → IsKept
          (record m { queue = record m.queue { retired = erase d m.queue.retired }; live = live })
          (record o { linked = update o.linked d false })
  freed-IsKept {m} {o} k d live none_left =
      let differs : (p : Ptr) → update o.linked d false p ≡ true → d ≢ p =
        λ p l e. ground (arith, l, e) in
      let old : (p : Ptr) → update o.linked d false p ≡ true → o.linked p ≡ true =
        λ p l. ground (arith, l, differs p l) in
      let rest = m.queue.retired in
      record {
        gone = λ p l e. k.gone p (old p l) e;
        behind = λ p l none ne.
            k.behind p (old p l) (sym (times-erase d p rest (differs p l)) ∙ none) ne;
        waiting = λ p waits.
            let differ : d ≢ p =
              λ e. ground (arith, none_left, waits, ap (λ x. times x (erase d rest)) e) in
            k.waiting p (subst (λ t. 0 < t) (times-erase d p rest differ) waits);
        own = k.own;
      }
