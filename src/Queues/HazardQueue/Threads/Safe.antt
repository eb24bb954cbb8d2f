-- ===== src/Queues/HazardQueue/Threads/Safe.antt =====
-- What every interleaving of the steps keeps, and what none of them does.
use cpp_util.Prelude.{
  ℕ, ◌≡◌, refl, ◌≢◌, inl, inr, ap, ◌∙◌, sym, true, false, ◌==◌, arith, subst, Run, fault, undefined,
  Returns, returns, Returns-ok, eq→==,
}
use cpp_util.Queues.HazardQueue.{Ptr, null, update, hazard_queue, cas_tail}
use cpp_util.Queues.HazardQueue.Interleaved.{following}
use cpp_util.Queues.HazardQueue.Threads.{
  holding, helping, Worker, idle, inserting, removing, Machine, insert, target, is_live, unlucky,
  act, work, refused, may_fail, deleted, Step, enqueues, dequeues, works, fails, leaves, deletes,
  initial, Reaches, start, next,
}
use cpp_util.Queues.HazardQueue.Threads.Shape.{shape, Order, IsQueued}
use cpp_util.Queues.HazardQueue.Threads.Facts.{owned, Keeps-Knows}
use cpp_util.Queues.HazardQueue.Threads.Free.{freed_order, freed-IsOrdered, freed-Keeps}
use cpp_util.Queues.HazardQueue.Threads.Free.{none_left}
use cpp_util.Queues.HazardQueue.Threads.Sound.{Knows-here}
use cpp_util.Queues.HazardQueue.Threads.Free.{freed-IsKept}
use cpp_util.Queues.HazardQueue.Threads.Kinds.{Sound, stays}
use cpp_util.Queues.HazardQueue.Threads.Insert.{insertion-Sound}
use cpp_util.Queues.HazardQueue.Threads.Remove.{removal-Sound}

abbrev first : Ptr → Order
first node = record { linked = λ p. p == node; rank = λ _. 0; newest = node }

module _ {ℓ} {T : Type ℓ} where
  work-Sound :
      {m : Machine T} (a : Ptr) (i : ℕ)
      → m.live a ≡ false
      → a ≢ null
      → Sound m
      → Returns Sound (work a i m)
  unfolding work act
  work-Sound {m} a i free some_node (o, v, k) = by_place (m.threads i) refl
    where
      by_place : (w : Worker T) → m.threads i ≡ w → Returns Sound (act a i w m)
      by_place idle e = returns (stays v k i _ _ refl refl (λ x at. cc) tt (λ n h. cc))
      by_place (inserting turn) e = insertion-Sound v k a i turn e free some_node
      by_place (removing turn) e = removal-Sound v k a i turn e

  pub initial-Sound : (node : Ptr) → node ≢ null → Sound (initial {T = T} node)
  unfolding initial hazard_queue
  initial-Sound node some_node =
      let there : IsQueued (shape (hazard_queue {T = T} node) (λ p. p == node)) (first node) node =
        record { in_order = ground arith; kept = refl } in
      let only : (p : Ptr) → p == node ≡ true → p ≡ node = λ p h. ground arith in
      (
        first node,
        record {
          ordered = record {
            head = there;
            tail = there;
            newest = there;
            ends = refl;
            apart = omega arith;
            from_head = λ p h. omega arith;
            to_newest = λ p h. omega arith;
            unique = λ p r h k e. only p h.in_order ∙ sym (only r k.in_order);
            follows = λ p h ne. absurd (ne (only p h.in_order));
            once = λ p. omega arith;
            passed = λ p h. absurd (omega arith);
            alive = λ p h. h;
            address = λ p h e. some_node (sym (only p h) ∙ e);
          };
          knows = λ i. tt;
          own = λ i j n h k. cc;
        },
        record {
          gone = λ p l e. l;
          behind = λ p l e ne. absurd (ne (only p l));
          waiting = λ p h. absurd (omega arith);
          own = λ i n h. cc;
        },
      )

  refused-Sound :
      {m : Machine T} (i : ℕ)
      → may_fail (m.threads i) ≡ true
      → Sound m
      → Sound (record m { threads = update m.threads i (refused (m.threads i) m.queue) })
  unfolding refused
  refused-Sound {m = m} i other (o, v, k) = by_place (m.threads i) refl other
    where
      by_place :
          (w : Worker T)
          → m.threads i ≡ w
          → may_fail w ≡ true
          → Sound (record m { threads = update m.threads i (refused w m.queue) })
      by_place (inserting (helping n p s)) e h =
          stays v k i _ m.queue refl refl (λ x at. cc) (Knows-here v i e).0 (λ n h. ap owned e ∙ h)
      by_place (removing (following h n)) e h' =
          stays v k i _ m.queue refl refl (λ x at. cc) tt (λ n h. cc)
      by_place w e h = cc

  Step-Sound : {m m' : Machine T} → Step m m' → Sound m → Sound m'
  unfolding deleted
  Step-Sound (enqueues i t e) (o, v, k) = stays v k i _ _ refl refl (λ x at. cc) tt (λ n h. cc)
  Step-Sound (dequeues i e) (o, v, k) = stays v k i _ _ refl refl (λ x at. cc) tt (λ n h. cc)
  Step-Sound (works i a free some_node e) s =
      Returns-ok (subst (Returns Sound) e (work-Sound a i free some_node s))
  Step-Sound (fails i other) s = refused-Sound i other s
  Step-Sound (leaves i e) (o, v, k) =
      stays v k i _ _ refl refl (λ x at. elim e [ inl h ↦ cc | inr (o, h) ↦ cc ]) tt (λ n h. cc)
  Step-Sound {m} (deletes p waits unheld) (o, v, k) = (
    freed_order v.ordered p waits,
    record {
      ordered = freed-IsOrdered v.ordered p waits;
      knows =
          λ i. Keeps-Knows (m.threads i) (freed-Keeps v.ordered p waits _ _ (unheld i)) (v.knows i);
      own = v.own;
    },
    freed-IsKept k p _ (none_left v.ordered p waits),
  )

  pub Reaches-Sound : {node : Ptr} {m : Machine T} → node ≢ null → Reaches node m → Sound m
  Reaches-Sound {node} some_node start = initial-Sound node some_node
  Reaches-Sound some_node (next r s) = Step-Sound s (Reaches-Sound some_node r)

  -- In every machine that the threads reach from a new queue, the next step of any thread returns:
  -- it accesses no node that has been deleted and no null pointer, whatever address `new` gives that
  -- is not in use. The compare_exchange_weak of `next_` does not fail without a reason.
  pub Reaches-work :
      {node : Ptr} {m : Machine T} (i : ℕ) (a : Ptr)
      → node ≢ null
      → Reaches node m
      → m.live a ≡ false
      → a ≢ null
      → Returns (Reaches node) (work a i m)
  Reaches-work {node} {m} i a some_node r free used =
      by_result (work a i m) refl (work-Sound a i free used (Reaches-Sound some_node r))
    where
      by_result :
          (call : Run (Machine T))
          → work a i m ≡ call
          → Returns Sound call
          → Returns (Reaches node) call
      by_result _ e (returns s) = returns (next r (works i a free used e))

  -- A compare_exchange_weak of `next_` that fails although the value is null as expected, while the
  -- node is the tail, makes the tail null, so that the thread's third step from there is undefined
  -- behaviour: no node is at the null pointer.
  pub unlucky-undefined :
      (m : Machine T) (i : ℕ) (n p a : Ptr)
      → m.threads i ≡ inserting (holding n p)
      → m.queue.next p ≡ null
      → m.queue.tail ≡ p
      → m.live null ≡ false
      → unlucky a i m ≡ fault undefined
  unfolding unlucky refused work act insert target is_live cas_tail
  unlucky-undefined m i n p a at end last none_there =
      let same = eq→== i i refl in
      rw (same, at, end, same, eq→== m.queue.tail p last, same, none_there) refl
