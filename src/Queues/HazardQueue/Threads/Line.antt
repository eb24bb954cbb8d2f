-- ===== src/Queues/HazardQueue/Threads/Line.antt =====
-- The nodes of the queue in their order, in every interleaving.
use cpp_util.Prelude.{
  ℕ, zero, suc, ◌+◌, ◌-◌, ◌≤◌, ◌<◌, ◌≡◌, ◌≢◌, ap, ◌∙◌, true, false, List, [], ◌∷◌, arith,
  ℕ_discrete, subst,
}
use cpp_util.Queues.HazardQueue.{Ptr, null}
use cpp_util.Queues.HazardQueue.Threads.{Machine, times, Reaches}
use cpp_util.Queues.HazardQueue.Threads.Shape.{Shape, Order, IsQueued, IsOrdered}
use cpp_util.Queues.HazardQueue.Threads.Kept.{Settled}
use cpp_util.Queues.HazardQueue.Threads.Kinds.{Sound}
use cpp_util.Queues.HazardQueue.Threads.Safe.{Reaches-Sound}

-- From `p` on, `next_` leads through these nodes to a null pointer.
pub data Line (next : Ptr → Ptr) : Ptr → List Ptr → Type 0 where
  end : {p : Ptr} → next p ≡ null → Line next p (p ∷ [])
  more : {p : Ptr} {ns : List Ptr} → next p ≢ null → Line next (next p) ns → Line next p (p ∷ ns)

-- The queue is a line of nodes from the head to a null pointer, each there once, not deleted and
-- not retired, and the tail is one of them. Behind the head each has its value, which no call has
-- claimed. What waits for its deletion does so once, and its value is claimed or is about to be.
pub record InLine {ℓ} {T : Type ℓ} (m : Machine T) : Type ℓ where
  pub nodes : List Ptr
  pub line : Line m.queue.next m.queue.head nodes
  pub tail : times m.queue.tail nodes ≡ 1
  pub sound :
      (p : Ptr)
      → 0 < times p nodes
      → (times p nodes ≡ 1) × (m.live p ≡ true) × (times p m.queue.retired ≡ 0) × (p ≢ null)
  pub untouched :
      (p : Ptr)
      → 0 < times p nodes
      → p ≢ m.queue.head
      → (m.queue.initialized p ≡ true) × (m.taken p ≡ false)
  pub waiting :
      (p : Ptr)
      → 0 < times p m.queue.retired
      → (times p m.queue.retired ≡ 1) × (m.live p ≡ true) × Settled m.taken m.threads p

-- The nodes in the line from a queued node on are those that were linked from it on.
record From (s : Shape) (o : Order) (p : Ptr) (ns : List Ptr) : Type 0 where
  line : Line s.next p ns
  once : (r : Ptr) → times r ns ≤ 1
  behind : (r : Ptr) → 0 < times r ns → IsQueued s o r × (o.rank p ≤ o.rank r)
  all : (r : Ptr) → IsQueued s o r → o.rank p ≤ o.rank r → 0 < times r ns

module _ {s : Shape} {o : Order} (v : IsOrdered s o) where
  end-From : {p : Ptr} → IsQueued s o p → o.rank p ≡ o.rank o.newest → From s o p (p ∷ [])
  end-From {p} q e =
      let last : p ≡ o.newest = v.unique p o.newest q v.newest e in
      record {
        line = end (ap s.next last ∙ v.ends);
        once = λ r. ground arith;
        behind = λ r h.
            let same : p ≡ r = ground (arith, h) in
            (subst (IsQueued s o) same q, ground (arith, ap o.rank same));
        all = λ r k le.
            let same : r ≡ p = v.unique r p k q (omega (arith, le, v.to_newest r k, e)) in
            ground (arith, same);
      }

  more-From :
      {p : Ptr} {ns : List Ptr}
      → IsQueued s o p
      → s.next p ≢ null
      → o.rank (s.next p) ≡ suc (o.rank p)
      → From s o (s.next p) ns
      → From s o p (p ∷ ns)
  more-From {p} {ns} q some_node e f =
      let other : (r : Ptr) → p ≡ r → times r ns ≡ 0 =
        λ r same. ground (arith, f.behind r, ap o.rank same, e) in
      record {
        line = more some_node f.line;
        once = λ r. ground (arith, f.once r, other r);
        behind = λ r h. elim (ℕ_discrete p r) [
          | yes same ↦ (subst (IsQueued s o) same q, ground (arith, ap o.rank same))
          | no ne ↦ let (k, le) = f.behind r (ground (arith, h, ne)) in (k, omega (arith, le, e))
        ];
        all = λ r k le. elim (ℕ_discrete p r) [
          | yes same ↦ ground (arith, same)
          | no ne ↦
              let differ : o.rank p ≢ o.rank r = λ same. ne (v.unique p r q k same) in
              ground (arith, ne, f.all r k (ground (arith, le, e, differ)))
        ];
      }

  -- `k` nodes behind `p`.
  line-From :
      (k : ℕ) {p : Ptr}
      → IsQueued s o p
      → o.rank p + k ≡ o.rank o.newest
      → (ns : List Ptr) × From s o p ns
  line-From zero {p} q e = (p ∷ [], end-From q (omega (arith, e)))
  line-From (suc k) {p} q e =
      let (after, r) = v.follows p q (λ same. ground (arith, e, ap o.rank same)) in
      let (ns, f) = line-From k after (omega (arith, e, r)) in
      (p ∷ ns, more-From q (v.address (s.next p) after.in_order) r f)

module _ {ℓ} {T : Type ℓ} {m : Machine T} where
  pub Sound-InLine : Sound m → InLine m
  Sound-InLine (o, v, k) =
      let (ns, f) =
        line-From v.ordered (o.rank o.newest - o.rank m.queue.head) v.ordered.head
          (omega (arith, v.ordered.to_newest m.queue.head v.ordered.head)) in
      record {
        nodes = ns;
        line = f.line;
        tail =
            omega (arith, f.once m.queue.tail, f.all m.queue.tail v.ordered.tail v.ordered.apart);
        sound = λ p h.
            let (q, le) = f.behind p h in
            (
              omega (arith, h, f.once p),
              v.ordered.alive p q.in_order,
              q.kept,
              v.ordered.address p q.in_order,
            );
        untouched = λ p h ne. let (q, le) = f.behind p h in k.behind p q.in_order q.kept ne;
        waiting = λ p h. (
          omega (arith, h, v.ordered.once p),
          v.ordered.alive p (v.ordered.passed p h).0,
          k.waiting p h,
        );
      }

  -- In every machine that the threads reach from a new queue, the queue is a line of nodes from the
  -- head to a null pointer, each in it once, not deleted and not retired, and the tail is one of them.
  -- Each node behind the head has its value, which no call has claimed; each node that waits for its
  -- deletion waits once, is not deleted yet, and a call has claimed its value, or the thread that
  -- retired it has still to look at it. The compare_exchange_weak of `next_` does not fail without a
  -- reason.
  pub Reaches-InLine : {node : Ptr} → node ≢ null → Reaches node m → InLine m
  Reaches-InLine some_node r = Sound-InLine (Reaches-Sound some_node r)
