-- ===== src/Queues/HazardQueue/Interleaved.antt =====
-- src/queues/hazard_queue.tpp: `try_dequeue` in the steps that other threads can come between, each
-- with at most one access to what the threads share.
use cpp_util.Prelude.{
  ℕ, zero, suc, ◌+◌, ◌%◌, ◌^◌, ◌<◌, ◌≡◌, refl, ◌≢◌, sym, true, false, Option, none, some, [], ◌∷◌,
  ◌++◌, ◌==◌, if◌then◌else◌, eq→==, ne→==, Run, ok, ◌>>=◌, Returns, returns, arith,
}
use cpp_util.Queues.HazardQueue.{Ptr, null, update, HazardQueue, new_node, cas_tail, link, enqueue}
use cpp_util.Queues.HazardQueue.Fifo.{more, Holds, here, behind, Holds-tail, Represents, enqueued}

-- Where a call of `try_dequeue` stands; a pointer is `hazard_head`.
pub data Turn {ℓ} (T : Type ℓ) : Type ℓ where
  begun : Turn T  -- before `hazard_head.acquire(head_)`
  loaded : Ptr → Turn T  -- before the load of `tail_`
  single : Ptr → Turn T  -- before `valid()`, the head being the tail
  seen_valid : Ptr → Turn T  -- before `invalidate()`
  apart : Ptr → Turn T  -- before the load of `next_`
  following : Ptr → Ptr → Turn T  -- before the compare_exchange of `head_`
  moved : Ptr → Turn T  -- before `valid()`, the head being moved
  claimed : Ptr → Turn T  -- before the count and the return of the value
  returned : Option T → Turn T

module _ {ℓ} {T : Type ℓ} where
  unfoldable pub step : Turn T → HazardQueue T → Turn T × HazardQueue T
  step begun q = (loaded q.head, q)
  step (loaded h) q = ((if h == q.tail then single h else apart h), q)
  step (single h) q = ((if q.initialized h then seen_valid h else returned none), q)
  step (seen_valid h) q = (
    (if q.initialized h then claimed h else returned none),
    record q { initialized = update q.initialized h false },
  )
  step (apart h) q = ((if q.next h == null then returned none else following h (q.next h)), q)
  step (following h n) q =
      if q.head == h
      then (moved h, record q { head = n; retired = q.retired ++ h ∷ [] })
      else (begun, q)
  step (moved h) q = ((if q.initialized h then claimed h else begun), q)
  step (claimed h) q =
      (returned (q.store h), record q { remove_version = (q.remove_version + 1) % 2 ^ 64 })
  step (returned o) q = (returned o, q)

  abbrev pub steps : ℕ → Turn T → HazardQueue T → Turn T × HazardQueue T
  steps zero turn q = (turn, q)
  steps (suc n) turn q = let (turn', q') = step turn q in steps n turn' q'

  -- Two threads dequeue: the first has seen that the only value is valid when a third one enqueues
  -- `t`, and the second makes its call before the first goes on.
  unfoldable pub overtaken : T → HazardQueue T → Run (Turn T × Turn T × HazardQueue T)
  unfolding step enqueue
  overtaken t q = do
    let (first, a) = steps 3 begun q
    b ← enqueue 1 t a
    let (second, c) = steps 6 begun b
    let (first', d) = steps 2 first c
    ok (first', second, d)

  -- The node of the only value.
  alone_value :
      {q : HazardQueue T} {x : T}
      → Holds q (x ∷ [])
      → q.head ≡ q.tail
      → (q.initialized q.head ≡ true) × (q.store q.head ≡ some x)
  alone_value (here i s f) alone = (i, s)
  alone_value (behind i (more u l n j s f)) alone = absurd (u alone)

  -- The first thread up to the test of the only value, and from there.
  sees_valid :
      (q : HazardQueue T)
      → q.head ≡ q.tail
      → q.initialized q.head ≡ true
      → steps 3 begun q ≡ (seen_valid q.head, q)
  unfolding step
  sees_valid q alone valid = rw (eq→== q.head q.tail alone, valid) refl

  takes_valid :
      (h : Ptr) (x : T) (q : HazardQueue T)
      → q.initialized h ≡ true
      → q.store h ≡ some x
      → (steps 2 (seen_valid h) q).0 ≡ returned (some x)
  unfolding step
  takes_valid h x q valid value = rw (valid, value) refl

  -- The second thread, which moves the head.
  takes_head :
      (x : T) (q : HazardQueue T)
      → q.head ≢ q.tail
      → q.next q.head ≢ null
      → q.initialized q.head ≡ true
      → q.store q.head ≡ some x
      → steps 6 begun q ≡ (
        returned (some x),
        record q {
          head = q.next q.head;
          retired = q.retired ++ q.head ∷ [];
          remove_version = (q.remove_version + 1) % 2 ^ 64;
        },
      )
  unfolding step
  takes_head x q differ some_node valid value =
      rw
        (
          ne→== q.head q.tail differ,
          ne→== (q.next q.head) null some_node,
          eq→== q.head q.head refl,
          valid,
          value,
        )
        refl

  enqueue-enqueued :
      (t : T) (q : HazardQueue T)
      → q.next q.tail ≡ null
      → q.tail < q.fresh
      → enqueue 1 t q ≡ ok (enqueued t q)
  unfolding enqueue link new_node cas_tail
  enqueue-enqueued t q end below =
      rw
        (
          ne→== q.fresh q.tail (ground (arith, below)),
          eq→== (q.next q.tail) null end,
          eq→== q.tail q.tail refl,
        )
        refl

  -- In a queue of one value whose node is head and tail, both of two dequeuing threads get that value
  -- when the second makes its call, after an enqueue, between the valid() and the invalidate() of the
  -- first.
  pub overtaken-twice :
      (t x : T) (q : HazardQueue T)
      → Represents q (x ∷ [])
      → q.head ≡ q.tail
      → Returns
          (λ (first, second, q'). (first ≡ returned (some x)) × (second ≡ returned (some x)))
          (overtaken t q)
  unfolding overtaken
  overtaken-twice t x q r alone =
      let (valid, value) = alone_value r.holds alone in
      let (end, below) = Holds-tail r.holds in
      let b = enqueued t q in
      let apart_now : b.head ≢ b.tail = ground (arith, below, alone) in
      let linked : b.next b.head ≡ q.fresh = rw (eq→== q.tail q.head (sym alone)) refl in
      let still_valid : b.initialized b.head ≡ true = ground (arith, valid) in
      let still_there : b.store b.head ≡ some x =
        rw (ne→== q.fresh q.head (λ e. apart_now (sym e))) value in
      let some_node : b.next b.head ≢ null = ground (arith, linked, r.address) in
      rw
        (
          sees_valid q alone valid,
          enqueue-enqueued t q end below,
          takes_head x b apart_now some_node still_valid still_there,
        )
        (returns (
          takes_valid q.head x
              (record b {
                head = b.next b.head;
                retired = b.retired ++ b.head ∷ [];
                remove_version = (b.remove_version + 1) % 2 ^ 64;
              })
              still_valid still_there,
          refl,
        ))
