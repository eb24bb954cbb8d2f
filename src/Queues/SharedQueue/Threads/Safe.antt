-- ===== src/Queues/SharedQueue/Threads/Safe.antt =====
-- What every interleaving of the steps keeps, and what none of them does.
use cpp_util.Prelude.{
  ℕ, ◌≡◌, refl, ◌≢◌, inl, inr, ap, ◌∙◌, false, true, subst, Run, Returns, returns, Returns-ok,
}
use cpp_util.Queues.HazardQueue.{Ptr, null, update, hazard_queue}
use cpp_util.Queues.HazardQueue.Interleaved.{following}
use cpp_util.Queues.HazardQueue.Threads.{
  helping, Worker, idle, inserting, removing, target, is_live, may_fail,
}
use cpp_util.Queues.HazardQueue.Threads as Hazard
use cpp_util.Queues.HazardQueue.Threads.Facts.{owned, Keeps-Knows}
use cpp_util.Queues.HazardQueue.Threads.Free.{freed_order, freed-IsOrdered, freed-Keeps, none_left}
use cpp_util.Queues.HazardQueue.Threads.Sound.{Knows-here}
use cpp_util.Queues.HazardQueue.Threads.Free.{freed-IsKept}
use cpp_util.Queues.HazardQueue.Threads.Kinds.{Sound, stays}
use cpp_util.Queues.HazardQueue.Threads.Safe.{initial-Sound}
use cpp_util.Queues.HazardQueue.Threads.Line.{InLine, Sound-InLine}
use cpp_util.Queues.SharedQueue.{shared_queue}
use cpp_util.Queues.SharedQueue.Threads.{
  Machine, act, work, refused, Step, enqueues, dequeues, works, fails, leaves, deletes, initial,
  Reaches, start, next, view,
}
use cpp_util.Queues.SharedQueue.Threads.Insert.{insertion-Sound}
use cpp_util.Queues.SharedQueue.Threads.Remove.{removal-Sound}

module _ {ℓ} {T : Type ℓ} where
  abbrev SoundView : Machine T → Type ℓ
  SoundView m = Sound (view m)

  work-Sound :
      {m : Machine T} (a : Ptr) (i : ℕ)
      → m.live a ≡ false
      → a ≢ null
      → SoundView m
      → Returns SoundView (work a i m)
  unfolding work act target is_live
  work-Sound {m} a i free some_node (o, v, k) = by_place (m.threads i) refl
    where
      by_place : (w : Worker T) → m.threads i ≡ w → Returns SoundView (act a i w m)
      by_place idle e = returns (stays v k i _ _ refl refl (λ x at. cc) tt (λ n h. cc))
      by_place (inserting turn) e = insertion-Sound v k a i turn e free some_node
      by_place (removing turn) e = removal-Sound v k a i turn e

  refused-Sound :
      {m : Machine T} (i : ℕ)
      → may_fail (m.threads i) ≡ true
      → SoundView m
      → SoundView (record m { threads = update m.threads i (refused (m.threads i)) })
  unfolding refused
  refused-Sound {m = m} i other (o, v, k) = by_place (m.threads i) refl other
    where
      by_place :
          (w : Worker T)
          → m.threads i ≡ w
          → may_fail w ≡ true
          → SoundView (record m { threads = update m.threads i (refused w) })
      by_place (inserting (helping n p s)) e h =
          let (new, leads) = Knows-here v i e in
          stays v k i _ _ refl refl (λ x at. cc) (new, leads.in_order) (λ n h. ap owned e ∙ h)
      by_place (removing (following h n)) e h' =
          stays v k i _ _ refl refl (λ x at. cc) (Knows-here v i e).0 (λ n h. cc)
      by_place w e h = cc

  Step-Sound : {m m' : Machine T} → Step m m' → SoundView m → SoundView m'
  Step-Sound (enqueues i t e) (o, v, k) = stays v k i _ _ refl refl (λ x at. cc) tt (λ n h. cc)
  Step-Sound (dequeues i e) (o, v, k) = stays v k i _ _ refl refl (λ x at. cc) tt (λ n h. cc)
  Step-Sound (works i a free some_node e) s =
      Returns-ok (subst (Returns SoundView) e (work-Sound a i free some_node s))
  Step-Sound (fails i other) s = refused-Sound i other s
  Step-Sound (leaves i e) (o, v, k) =
      stays v k i _ _ refl refl (λ x at. elim e [ inl h ↦ cc | inr (o, h) ↦ cc ]) tt (λ n h. cc)
  Step-Sound {m} (deletes p waits unheld) (o, v, k) = (
    freed_order v.ordered p waits,
    record {
      ordered = freed-IsOrdered v.ordered p waits;
      knows =
          λ i. Keeps-Knows (m.threads i) (freed-Keeps v.ordered p waits _ _ (unheld i)) (v.knows i);
      own = v.own;
    },
    freed-IsKept k p _ (none_left v.ordered p waits),
  )

  first-Sound : (node : Ptr) → node ≢ null → SoundView (initial node)
  unfolding initial shared_queue Hazard.initial hazard_queue
  first-Sound node some_node = initial-Sound node some_node

  pub Reaches-Sound : {node : Ptr} {m : Machine T} → node ≢ null → Reaches node m → Sound (view m)
  Reaches-Sound {node} some_node start = first-Sound node some_node
  Reaches-Sound some_node (next r s) = Step-Sound s (Reaches-Sound some_node r)

  -- In every machine that the threads reach from a new shared_queue, the next step of any thread
  -- returns: it accesses no node that has been deleted and no null pointer, whatever address `new`
  -- gives that is not in use.
  pub shared_Reaches-work :
      {node : Ptr} {m : Machine T} (i : ℕ) (a : Ptr)
      → node ≢ null
      → Reaches node m
      → m.live a ≡ false
      → a ≢ null
      → Returns (Reaches node) (work a i m)
  shared_Reaches-work {node} {m} i a some_node r free used =
      by_result (work a i m) refl (work-Sound a i free used (Reaches-Sound some_node r))
    where
      by_result :
          (call : Run (Machine T))
          → work a i m ≡ call
          → Returns SoundView call
          → Returns (Reaches node) call
      by_result _ e (returns s) = returns (next r (works i a free used e))

  -- In every machine that the threads reach from a new shared_queue, the queue is a line of nodes
  -- from the head to a null pointer, each in it once, not deleted and not left by the head, and the
  -- tail is one of them. Each node behind the head has its value, which no call has claimed; each
  -- node that the head has left and that is not deleted is listed once, and a call has claimed its
  -- value, or the thread that moved the head has still to look at it. The compare_exchange_weak of
  -- `next` does not fail without a reason.
  pub shared_Reaches-InLine :
      {node : Ptr} {m : Machine T} → node ≢ null → Reaches node m → InLine (view m)
  shared_Reaches-InLine some_node r = Sound-InLine (Reaches-Sound some_node r)
