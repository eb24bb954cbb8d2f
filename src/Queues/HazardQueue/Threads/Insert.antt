-- ===== src/Queues/HazardQueue/Threads/Insert.antt =====
-- A step of a thread in `enqueue` keeps the machine sound.
use cpp_util.Prelude.{ℕ, ◌≡◌, refl, ◌≢◌, ap, ◌∙◌, false, ℕ_discrete, Returns, returns, eq→==, ne→==}
use cpp_util.Queues.HazardQueue.{Ptr, null, new_node}
use cpp_util.Queues.HazardQueue.Threads.{
  Insertion, called, made, holding, helping, linked, counting, done, inserting, Machine, insert,
  target, is_live, act,
}
use cpp_util.Queues.HazardQueue.Threads.Shape.{Order}
use cpp_util.Queues.HazardQueue.Threads.Facts.{owned}
use cpp_util.Queues.HazardQueue.Threads.Sound.{IsSound, Knows-here}
use cpp_util.Queues.HazardQueue.Threads.Kept.{IsKept}
use cpp_util.Queues.HazardQueue.Threads.Kinds.{Sound, makes, joins, stays, forwards}

module _ {ℓ} {T : Type ℓ} where
  pub insertion-Sound :
      {m : Machine T} {o : Order} (v : IsSound m o) (k : IsKept m o) (a : Ptr) (i : ℕ)
      (turn : Insertion T)
      → m.threads i ≡ inserting turn
      → m.live a ≡ false
      → a ≢ null
      → Returns Sound (act a i (inserting turn) m)
  unfolding act insert target is_live new_node
  insertion-Sound v k a i (called t) e free some_node =
      returns (makes v k i a _ free some_node refl refl (λ x at. cc))
  insertion-Sound v k a i (made n) e free some_node = returns (
      stays v k i _ _ refl refl (λ p at. cc) (Knows-here v i e, v.ordered.tail.in_order)
        (λ x h. ap owned e ∙ h))
  insertion-Sound {m} {o} v k a i (holding n p) e free some_node =
      let (new, there) = Knows-here v i e in
      elim (ℕ_discrete (m.queue.next p) null) [
        | yes end ↦
            rw (eq→== (m.queue.next p) null end, v.ordered.alive p there)
              (returns (joins v k i n p new there end (ap owned e) (λ x at. cc)))
        | no some_next ↦
            rw (ne→== (m.queue.next p) null some_next, v.ordered.alive p there)
              (returns (
                stays v k i _ _ refl refl (λ x at. cc)
                  (new, record { in_order = there; to = refl; some_node = some_next })
                  (λ x h. ap owned e ∙ h)))
      ]
  insertion-Sound v k a i (helping n p s) e free some_node =
      let (new, leads) = Knows-here v i e in
      returns (
        forwards v k i (inserting (made n)) p s leads (λ x at. cc)
          (λ s keeps. keeps.private n refl new) (λ x h. ap owned e ∙ h))
  insertion-Sound v k a i (linked n p) e free some_node = returns (
      forwards v k i (inserting counting) p n (Knows-here v i e) (λ x at. cc) (λ s keeps. tt)
        (λ x h. cc))
  insertion-Sound v k a i counting e free some_node =
      returns (stays v k i _ _ refl refl (λ x at. cc) tt (λ x h. cc))
  insertion-Sound v k a i done e free some_node =
      returns (stays v k i _ _ refl refl (λ x at. cc) tt (λ x h. cc))
