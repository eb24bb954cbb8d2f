-- ===== src/Queues/HazardQueue/Threads/Remove.antt =====
-- A step of a thread in `try_dequeue` keeps the machine sound.
use cpp_util.Prelude.{
  ℕ, ◌≡◌, refl, ◌≢◌, inl, inr, none, arith, ℕ_discrete, Returns, returns, eq→==, ne→==, Bool-cases,
}
use cpp_util.Queues.HazardQueue.{Ptr, null}
use cpp_util.Queues.HazardQueue.Interleaved.{
  Turn, begun, loaded, single, seen_valid, apart, following, moved, claimed, returned, step,
}
use cpp_util.Queues.HazardQueue.Threads.{removing, Machine, target, is_live, act}
use cpp_util.Queues.HazardQueue.Threads.Shape.{Order}
use cpp_util.Queues.HazardQueue.Threads.Sound.{IsSound, Knows-here}
use cpp_util.Queues.HazardQueue.Threads.Kept.{IsKept}
use cpp_util.Queues.HazardQueue.Threads.Kinds.{Sound, stays, heads, takes}

module _ {ℓ} {T : Type ℓ} where
  pub removal-Sound :
      {m : Machine T} {o : Order} (v : IsSound m o) (k : IsKept m o) (a : Ptr) (i : ℕ)
      (turn : Turn T)
      → m.threads i ≡ removing turn
      → Returns Sound (act a i (removing turn) m)
  unfolding act target is_live step
  removal-Sound v k a i begun e = returns (
      stays v k i _ _ refl refl (λ x at. cc)
        (record { in_order = v.ordered.head.in_order; at_head = λ _. refl }) (λ x h. cc))
  removal-Sound {m} v k a i (loaded h) e =
      let was = Knows-here v i e in
      elim (ℕ_discrete h m.queue.tail) [
        | yes same ↦
            rw (eq→== h m.queue.tail same)
              (returns (stays v k i _ _ refl refl (λ x at. cc) was (λ x h. cc)))
        | no other ↦
            rw (ne→== h m.queue.tail other)
              (returns (stays v k i _ _ refl refl (λ x at. cc) (was, other) (λ x h. cc)))
      ]
  removal-Sound {m} v k a i (single h) e =
      let was = Knows-here v i e in
      rw (v.ordered.alive h was.in_order) (elim (Bool-cases (m.queue.initialized h)) [
        | inl valid ↦ rw valid (returns (stays v k i _ _ refl refl (λ x at. cc) was (λ x h. cc)))
        | inr gone ↦ rw gone (returns (stays v k i _ _ refl refl (λ x at. cc) tt (λ x h. cc)))
      ])
  removal-Sound {m} v k a i (seen_valid h) e =
      let was = Knows-here v i e in
      rw (v.ordered.alive h was.in_order) (elim (Bool-cases (m.queue.initialized h)) [
        | inl valid ↦ rw valid (
            returns (
              takes v k i (removing (claimed h)) h _ _ was (ground arith)
                (λ p ne. (ground arith, ground arith)) (λ p ne at. cc) was (λ x h. cc)))
        | inr gone ↦ rw gone (
            returns (
              takes v k i (removing (returned none)) h _ m.taken was (k.gone h was.in_order gone)
                (λ p ne. (ground arith, refl)) (λ p ne at. cc) tt (λ x h. cc)))
      ])
  removal-Sound {m} v k a i (apart h) e =
      let (was, beyond) = Knows-here v i e in
      rw (v.ordered.alive h was.in_order) (elim (ℕ_discrete (m.queue.next h) null) [
        | yes end ↦
            rw (eq→== (m.queue.next h) null end)
              (returns (stays v k i _ _ refl refl (λ x at. cc) tt (λ x h. cc)))
        | no some_next ↦ rw (ne→== (m.queue.next h) null some_next) (
            returns (
              stays v k i _ _ refl refl (λ x at. cc)
                (was, beyond, record { in_order = was.in_order; to = refl; some_node = some_next })
                (λ x h. cc)))
      ])
  removal-Sound {m} {o} v k a i (following h n) e =
      let (was, beyond, leads) = Knows-here v i e in
      elim (ℕ_discrete m.queue.head h) [
        | yes same ↦
            rw (eq→== m.queue.head h same)
              (returns (heads v k i h n same was beyond leads (λ x at. cc)))
        | no other ↦
            rw (ne→== m.queue.head h other)
              (returns (stays v k i _ _ refl refl (λ x at. cc) tt (λ x h. cc)))
      ]
  removal-Sound {m} v k a i (moved h) e =
      let was = Knows-here v i e in
      let elsewhere : (p : Ptr) → h ≢ p → m.threads i ≢ removing (moved p) =
        λ p ne at. ground (arith, e, at, ne) in
      rw (v.ordered.alive h was.in_order) (elim (Bool-cases (m.queue.initialized h)) [
        | inl valid ↦ rw valid (
            returns (
              takes v k i (removing (claimed h)) h m.queue.initialized _ was (ground arith)
                (λ p ne. (refl, ground arith)) elsewhere was (λ x h. cc)))
        | inr gone ↦ rw gone (
            returns (
              takes v k i (removing begun) h m.queue.initialized m.taken was
                (k.gone h was.in_order gone) (λ p ne. (refl, refl)) elsewhere tt (λ x h. cc)))
      ])
  removal-Sound v k a i (claimed h) e =
      let was = Knows-here v i e in
      rw (v.ordered.alive h was.in_order)
        (returns (stays v k i _ _ refl refl (λ x at. cc) tt (λ x h. cc)))
  removal-Sound v k a i (returned r) e =
      returns (stays v k i _ _ refl refl (λ x at. cc) tt (λ x h. cc))
