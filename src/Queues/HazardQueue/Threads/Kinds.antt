-- ===== src/Queues/HazardQueue/Threads/Kinds.antt =====
-- The kinds of steps that keep the machine sound.
use cpp_util.Prelude.{
  ℕ, ◌≡◌, refl, ◌≢◌, inl, inr, ap, Bool, true, false, none, some, [], ◌∷◌, ◌++◌, ℕ_discrete, eq→==,
  ne→==, arith,
}
use cpp_util.Queues.HazardQueue.{Ptr, null, update, HazardQueue, cas_tail}
use cpp_util.Queues.HazardQueue.Interleaved.{moved}
use cpp_util.Queues.HazardQueue.Threads.{Worker, inserting, removing, made, linked, Machine, hazard}
use cpp_util.Queues.HazardQueue.Threads.Shape.{Shape, shape, Order, IsPrivate, Leads, WasHead}
use cpp_util.Queues.HazardQueue.Threads.Facts.{owned, Knows, Keeps}
use cpp_util.Queues.HazardQueue.Threads.Grow.{
  grown, grown-IsOrdered, grown-Keeps, grown-IsPrivate, joined_order, joined-IsOrdered,
  joined-Keeps, joined-Leads,
}
use cpp_util.Queues.HazardQueue.Threads.Shrink.{
  forwarded-IsOrdered, forwarded-Keeps, moved_on-IsOrdered, moved_on-Keeps,
}
use cpp_util.Queues.HazardQueue.Threads.Sound.{keep, IsSound, gone_on, stepped, owned-IsPrivate}
use cpp_util.Queues.HazardQueue.Threads.Link.{grown-IsKept, joined-IsKept}
use cpp_util.Queues.HazardQueue.Threads.Kept.{IsKept, stepped-IsKept, taken-IsKept, moved-IsKept}

module _ {ℓ} {T : Type ℓ} where
  -- What a step of a thread gives.
  abbrev pub Sound : Machine T → Type ℓ
  Sound m = (o : Order) × IsSound m o × IsKept m o

  -- A step that changes nothing that the nodes' order or their values depend on.
  pub stays :
      {m : Machine T} {o : Order} (v : IsSound m o) (k : IsKept m o) (i : ℕ) (w : Worker T)
      (q : HazardQueue T)
      → shape q m.live ≡ shape m.queue m.live
      → q.initialized ≡ m.queue.initialized
      → ((p : Ptr) → m.threads i ≢ removing (moved p))
      → Knows (shape m.queue m.live) o w
      → ((n : Ptr) → owned w ≡ some n → owned (m.threads i) ≡ some n)
      → Sound (record { queue = q; live = m.live; threads = update m.threads i w; taken = m.taken })
  stays {m} {o} v k i w q same values other knows mine = (
    o,
    stepped v i w q m.taken same knows mine,
    stepped-IsKept v k i w q values (ap Shape.head same) (ap Shape.retired same) other mine,
  )

  -- A new node is made.
  pub makes :
      {m : Machine T} {o : Order} (v : IsSound m o) (k : IsKept m o) (i : ℕ) (a : Ptr)
      (q : HazardQueue T) (free : m.live a ≡ false) (some_node : a ≢ null)
      → shape q (update m.live a true) ≡ grown v.ordered a free some_node
      → q.initialized ≡ update m.queue.initialized a true
      → ((x : Ptr) → m.threads i ≢ removing (moved x))
      → Sound (record {
        queue = q;
        live = update m.live a true;
        threads = update m.threads i (inserting (made a));
        taken = update m.taken a false;
      })
  makes {m} {o} v k i a q free some_node same values other = (
    o,
    gone_on v i (inserting (made a)) q _ _ o (rw same (grown-IsOrdered v.ordered a free some_node))
        (λ j ne. rw same (grown-Keeps v.ordered a free some_node _ _))
        (rw same (grown-IsPrivate v.ordered a free some_node))
        (λ n h. inr (λ j mine.
          let hidden = owned-IsPrivate (m.threads j) (v.knows j) mine in
          ground (arith, h, hidden.alive, free))),
    grown-IsKept v k i (inserting (made a)) q a free values (ap Shape.head same)
        (ap Shape.retired same) other refl,
  )

  -- A node is linked.
  pub joins :
      {m : Machine T} {o : Order} (v : IsSound m o) (k : IsKept m o) (i : ℕ) (n p : Ptr)
      → IsPrivate (shape m.queue m.live) o n
      → o.linked p ≡ true
      → m.queue.next p ≡ null
      → owned (m.threads i) ≡ some n
      → ((x : Ptr) → m.threads i ≢ removing (moved x))
      → Sound (record {
        queue = record m.queue { next = update m.queue.next p n };
        live = m.live;
        threads = update m.threads i (inserting (linked n p));
        taken = m.taken;
      })
  joins {m} {o} v k i n p new there none_next mine other = (
    joined_order v.ordered n p new there none_next,
    gone_on v i (inserting (linked n p)) _ _ _ _
        (joined-IsOrdered v.ordered n p new there none_next)
        (λ j ne. joined-Keeps v.ordered n p new there none_next _ _ (λ h. ne (v.own i j n mine h)))
        (joined-Leads v.ordered n p new there none_next) (λ x h. cc),
    joined-IsKept v k i (inserting (linked n p)) _ n mine refl refl refl other (λ x h. cc) _,
  )

  -- The tail moves on from `p`.
  pub advances :
      {m : Machine T} {o : Order} (v : IsSound m o) (k : IsKept m o) (i : ℕ) (w : Worker T)
      (p n : Ptr)
      → Leads (shape m.queue m.live) o p n
      → m.queue.tail ≡ p
      → ((x : Ptr) → m.threads i ≢ removing (moved x))
      → ((s : Shape) → Keeps (owned w) (hazard w) (shape m.queue m.live) o s o → Knows s o w)
      → ((x : Ptr) → owned w ≡ some x → owned (m.threads i) ≡ some x)
      → Sound (record {
        queue = record m.queue { tail = n };
        live = m.live;
        threads = update m.threads i w;
        taken = m.taken;
      })
  advances {m} {o} v k i w p n leads same other knows mine = (
    o,
    gone_on v i w _ _ _ o (forwarded-IsOrdered v.ordered p n leads same)
        (λ j ne. forwarded-Keeps v.ordered p n leads same _ _)
        (knows _ (forwarded-Keeps v.ordered p n leads same _ _)) (λ x h. inl (mine x h)),
    stepped-IsKept v k i w _ refl refl refl other mine,
  )

  -- The tail moves on from `p`, or stays if it is no longer there.
  pub forwards :
      {m : Machine T} {o : Order} (v : IsSound m o) (k : IsKept m o) (i : ℕ) (w : Worker T)
      (p n : Ptr)
      → Leads (shape m.queue m.live) o p n
      → ((x : Ptr) → m.threads i ≢ removing (moved x))
      → ((s : Shape) → Keeps (owned w) (hazard w) (shape m.queue m.live) o s o → Knows s o w)
      → ((x : Ptr) → owned w ≡ some x → owned (m.threads i) ≡ some x)
      → Sound (record {
        queue = cas_tail p n m.queue;
        live = m.live;
        threads = update m.threads i w;
        taken = m.taken;
      })
  unfolding cas_tail
  forwards {m} {o} v k i w p n leads other knows mine = elim (ℕ_discrete m.queue.tail p) [
    | yes same ↦ rw (eq→== m.queue.tail p same) (advances v k i w p n leads same other knows mine)
    | no gone ↦
        rw (ne→== m.queue.tail p gone)
          (stays v k i w m.queue refl refl other (knows _ (keep _ _ _ _)) mine)
  ]

  -- The head moves on from `h`.
  pub heads :
      {m : Machine T} {o : Order} (v : IsSound m o) (k : IsKept m o) (i : ℕ) (h n : Ptr)
      → m.queue.head ≡ h
      → WasHead (shape m.queue m.live) o h
      → h ≢ m.queue.tail
      → Leads (shape m.queue m.live) o h n
      → ((x : Ptr) → m.threads i ≢ removing (moved x))
      → Sound (record {
        queue = record m.queue { head = n; retired = m.queue.retired ++ h ∷ [] };
        live = m.live;
        threads = update m.threads i (removing (moved h));
        taken = m.taken;
      })
  heads {m} {o} v k i h n same was beyond leads other = (
    o,
    gone_on v i (removing (moved h)) _ _ _ o (moved_on-IsOrdered v.ordered h n leads same beyond)
        (λ j ne. moved_on-Keeps v.ordered h n leads same beyond _ _)
        ((moved_on-Keeps v.ordered h n leads same beyond none (some h)).was_head h refl was)
        (λ x h. cc),
    moved-IsKept v k i (removing (moved h)) h n same refl other,
  )

  -- The value of a node that was the head is claimed, or has been.
  pub takes :
      {m : Machine T} {o : Order} (v : IsSound m o) (k : IsKept m o) (i : ℕ) (w : Worker T)
      (h : Ptr) (initialized taken : Ptr → Bool)
      → WasHead (shape m.queue m.live) o h
      → taken h ≡ true
      → ((p : Ptr) → h ≢ p → (initialized p ≡ m.queue.initialized p) × (taken p ≡ m.taken p))
      → ((p : Ptr) → h ≢ p → m.threads i ≢ removing (moved p))
      → Knows (shape m.queue m.live) o w
      → ((n : Ptr) → owned w ≢ some n)
      → Sound (record {
        queue = record m.queue { initialized = initialized };
        live = m.live;
        threads = update m.threads i w;
        taken = taken;
      })
  takes {m} {o} v k i w h initialized taken was now same other knows none_mine = (
    o,
    stepped v i w _ taken refl knows (λ n e. absurd (none_mine n e)),
    taken-IsKept v k i w h initialized taken was now same other none_mine,
  )
