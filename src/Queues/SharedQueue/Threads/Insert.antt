-- ===== src/Queues/SharedQueue/Threads/Insert.antt =====
-- A step of a thread in `enqueue` keeps the nodes and what the threads know of them in order.
use cpp_util.Prelude.{ℕ, ◌≡◌, refl, ◌≢◌, ap, ◌∙◌, false, ℕ_discrete, Returns, returns, eq→==, ne→==}
use cpp_util.Queues.HazardQueue.{Ptr, null}
use cpp_util.Queues.HazardQueue.Threads.{
  called, made, holding, helping, linked, counting, done, Insertion, inserting, target, is_live,
}
use cpp_util.Queues.HazardQueue.Threads.Shape.{Order}
use cpp_util.Queues.HazardQueue.Threads.Facts.{owned}
use cpp_util.Queues.HazardQueue.Threads.Sound.{IsSound, Knows-here}
use cpp_util.Queues.HazardQueue.Threads.Kept.{IsKept}
use cpp_util.Queues.HazardQueue.Threads.Kinds.{Sound, makes, joins, stays, advances}
use cpp_util.Queues.SharedQueue.{new_node}
use cpp_util.Queues.SharedQueue.Threads.{Machine, insert, act, view}

module _ {ℓ} {T : Type ℓ} where
  pub insertion-Sound :
      {m : Machine T} {o : Order} (v : IsSound (view m) o) (k : IsKept (view m) o) (a : Ptr) (i : ℕ)
      (turn : Insertion T)
      → m.threads i ≡ inserting turn
      → m.live a ≡ false
      → a ≢ null
      → Returns (λ m'. Sound (view m')) (act a i (inserting turn) m)
  unfolding act insert target is_live new_node
  insertion-Sound v k a i (called t) e free some_node =
      returns (makes v k i a _ free some_node refl refl (λ x at. cc))
  insertion-Sound v k a i (made n) e free some_node = returns (
      stays v k i _ _ refl refl (λ p at. cc) (Knows-here v i e, v.ordered.tail.in_order)
        (λ x h. ap owned e ∙ h))
  insertion-Sound {m} v k a i (holding n p) e free some_node =
      let (new, there) = Knows-here v i e in
      elim (ℕ_discrete (m.queue.next p) null) [
        | yes end ↦
            rw (eq→== (m.queue.next p) null end, v.ordered.alive p there)
              (returns (joins v k i n p new there end (ap owned e) (λ x at. cc)))
        | no some_next ↦
            rw (ne→== (m.queue.next p) null some_next, v.ordered.alive p there)
              (returns (
                stays v k i _ _ refl refl (λ x at. cc)
                  (new, record { in_order = there; to = refl; some_node = some_next })
                  (λ x h. ap owned e ∙ h)))
      ]
  insertion-Sound {m} v k a i (helping n p s) e free some_node =
      let (new, leads) = Knows-here v i e in
      elim (ℕ_discrete m.queue.tail p) [
        | yes same ↦ rw (eq→== m.queue.tail p same) (
            returns (
              advances v k i (inserting (holding n p)) p s leads same (λ x at. cc)
                (λ s keeps. (keeps.private n refl new, keeps.in_order p refl leads.in_order))
                (λ x h. ap owned e ∙ h)))
        | no gone ↦ rw (ne→== m.queue.tail p gone) (
            returns (
              stays v k i _ _ refl refl (λ x at. cc) (new, v.ordered.tail.in_order)
                (λ x h. ap owned e ∙ h)))
      ]
  insertion-Sound {m} v k a i (linked n p) e free some_node = elim (ℕ_discrete m.queue.tail p) [
    | yes same ↦ rw (eq→== m.queue.tail p same) (
        returns (
          advances v k i (inserting counting) p n (Knows-here v i e) same (λ x at. cc)
            (λ s keeps. tt) (λ x h. cc)))
    | no gone ↦
        rw (ne→== m.queue.tail p gone)
          (returns (stays v k i _ _ refl refl (λ x at. cc) tt (λ x h. cc)))
  ]
  insertion-Sound v k a i counting e free some_node =
      returns (stays v k i _ _ refl refl (λ x at. cc) tt (λ x h. cc))
  insertion-Sound v k a i done e free some_node =
      returns (stays v k i _ _ refl refl (λ x at. cc) tt (λ x h. cc))
