-- ===== src/Queues/HazardQueue/Threads/Link.antt =====
-- The values behind a step that makes a node and behind one that links it.
use cpp_util.Prelude.{
  ℕ, ◌<◌, ◌≡◌, refl, ◌≢◌, ap, ◌∙◌, sym, true, false, some, arith, ℕ_discrete, subst, eq→==, ne→==,
}
use cpp_util.Queues.HazardQueue.{Ptr, update, HazardQueue}
use cpp_util.Queues.HazardQueue.Interleaved.{moved}
use cpp_util.Queues.HazardQueue.Threads.{Worker, removing, Machine, times}
use cpp_util.Queues.HazardQueue.Threads.Shape.{Order}
use cpp_util.Queues.HazardQueue.Threads.Facts.{owned}
use cpp_util.Queues.HazardQueue.Threads.Sound.{IsSound, owned-IsPrivate}
use cpp_util.Queues.HazardQueue.Threads.Kept.{IsKept, still-Settled, still_own}

module _ {ℓ} {T : Type ℓ} {m : Machine T} {o : Order} (v : IsSound m o) (k : IsKept m o) (i : ℕ)
    (w : Worker T) where
  -- A new node is made.
  pub grown-IsKept :
      (q : HazardQueue T) (a : Ptr)
      → m.live a ≡ false
      → q.initialized ≡ update m.queue.initialized a true
      → q.head ≡ m.queue.head
      → q.retired ≡ m.queue.retired
      → ((p : Ptr) → m.threads i ≢ removing (moved p))
      → owned w ≡ some a
      → IsKept
          (record {
            queue = q;
            live = update m.live a true;
            threads = update m.threads i w;
            taken = update m.taken a false;
          })
          o
  grown-IsKept q a free values head retired other mine =
      let fresh : (p : Ptr) → o.linked p ≡ true → a ≢ p =
        λ p l e. ground (arith, v.ordered.alive p l) in
      let same : (p : Ptr) → a ≢ p → q.initialized p ≡ m.queue.initialized p =
        λ p ne. ap (λ f. f p) values ∙ rw (ne→== a p ne) refl in
      record {
        gone = λ p l e. rw (ne→== a p (fresh p l)) (k.gone p l (sym (same p (fresh p l)) ∙ e));
        behind = λ p l none_left ne.
            let (there, left) =
              k.behind p l (ap (times p) (sym retired) ∙ none_left) (λ e. ne (e ∙ sym head)) in
            (same p (fresh p l) ∙ there, rw (ne→== a p (fresh p l)) left);
        waiting = λ p h.
            let waits : 0 < times p m.queue.retired = subst (λ rs. 0 < times p rs) retired h in
            let differ = fresh p (v.ordered.passed p waits).0 in
            still-Settled v k i w p (update m.taken a false) (other p)
              (λ e. rw (ne→== a p differ) e) (k.waiting p waits);
        own =
            still_own v k i w (λ n. (q.initialized n ≡ true) × (update m.taken a false n ≡ false))
              (λ n h.
                let e : a ≡ n = ground (arith, mine, h) in
                (ap (λ f. f n) values ∙ rw (eq→== a n e) refl, rw (eq→== a n e) refl))
              (λ j n ne h.
                let hidden = owned-IsPrivate (m.threads j) (v.knows j) h in
                let differ : a ≢ n = λ e. ground (arith, free, hidden.alive, ap m.live e) in
                let (there, left) = k.own j n h in
                (same n differ ∙ there, rw (ne→== a n differ) left));
      }

  -- The node that the thread has made is linked.
  pub joined-IsKept :
      (q : HazardQueue T) (n : Ptr)
      → owned (m.threads i) ≡ some n
      → q.initialized ≡ m.queue.initialized
      → q.head ≡ m.queue.head
      → q.retired ≡ m.queue.retired
      → ((p : Ptr) → m.threads i ≢ removing (moved p))
      → ((r : Ptr) → owned w ≢ some r)
      → (rank : Ptr → ℕ)
      → IsKept
          (record { queue = q; live = m.live; threads = update m.threads i w; taken = m.taken })
          (record { linked = update o.linked n true; rank = rank; newest = n })
  joined-IsKept q n was values head retired other none_mine rank =
      let value : (p : Ptr) → q.initialized p ≡ m.queue.initialized p = λ p. ap (λ f. f p) values in
      let (filled, left) = k.own i n was in
      record {
        gone = λ p l e. elim (ℕ_discrete n p) [
          | yes eq ↦ ground (arith, value n, filled, e, ap q.initialized eq)
          | no ne ↦ k.gone p (rw (ne→== n p ne) at l) (sym (value p) ∙ e)
        ];
        behind = λ p l none_left differ. elim (ℕ_discrete n p) [
          | yes eq ↦ (
            subst (λ x. q.initialized x ≡ true) eq (value n ∙ filled),
            subst (λ x. m.taken x ≡ false) eq left,
          )
          | no ne ↦
              let (there, rest) =
                k.behind p (rw (ne→== n p ne) at l) (ap (times p) (sym retired) ∙ none_left)
                  (λ e. differ (e ∙ sym head)) in
              (value p ∙ there, rest)
        ];
        waiting = λ p h.
            still-Settled v k i w p m.taken (other p) (λ e. e)
              (k.waiting p (subst (λ rs. 0 < times p rs) retired h));
        own =
            still_own v k i w (λ r. (q.initialized r ≡ true) × (m.taken r ≡ false))
              (λ r e. absurd (none_mine r e))
              (λ j r ne h. let (there, rest) = k.own j r h in (value r ∙ there, rest));
      }
