-- ===== src/Queues/SharedQueue/Fifo.antt =====
-- The queue as the list of its values, by what a hazard_queue with the same nodes holds.
use cpp_util.Prelude.{
  ℕ, suc, ◌≡◌, refl, ap, true, Option, none, some, List, [], ◌∷◌, ◌++◌, length-append, eq→==, ne→==,
  Returns, returns, arith,
}
use cpp_util.Queues.HazardQueue.{null, HazardQueue}
use cpp_util.Queues.HazardQueue.Fifo.Take.{taken-last, taken-more, skipped, rehead}
use cpp_util.Queues.HazardQueue.Fifo.{
  IsFrom, last, more, here, behind, Holds, Represents, Holds-tail, enqueued-Holds,
}
use cpp_util.Queues.SharedQueue.{SharedQueue, new_node, link, enqueue, claim, try_dequeue}

module _ {ℓ} {T : Type ℓ} where
  -- The same nodes, with none retired.
  abbrev pub view : SharedQueue T → HazardQueue T
  view q = record {
    head = q.head;
    tail = q.tail;
    insert_version = q.insert_version;
    remove_version = q.remove_version;
    next = q.next;
    store = q.store;
    initialized = q.initialized;
    fresh = q.fresh;
    retired = [];
  }

  pub shared_enqueue-Represents :
      (fuel : ℕ) (t : T) (q : SharedQueue T) (xs : List T)
      → Represents (view q) xs
      → Returns (λ q'. Represents (view q') (xs ++ t ∷ [])) (enqueue (suc fuel) t q)
  unfolding enqueue link new_node
  shared_enqueue-Represents fuel t q xs r =
      let (end, below) = Holds-tail r.holds in
      rw
        (
          ne→== q.fresh q.tail (ground (arith, below)),
          eq→== (q.next q.tail) null end,
          eq→== q.tail q.tail refl,
        )
        (returns record {
          holds = enqueued-Holds t (view q) r.address r.holds;
          address = omega arith;
          counted = omega (arith, length-append xs (t ∷ []), r.counted);
          removed = r.removed;
        })

  -- What `try_dequeue` gives of a queue with the values `xs`.
  abbrev pub SharedDequeued : List T → Option T × SharedQueue T → Type ℓ
  SharedDequeued [] (o, q) = (o ≡ none) × Represents (view q) []
  SharedDequeued (x ∷ xs) (o, q) = (o ≡ some x) × Represents (view q) xs

  here-SharedDequeued :
      (fuel : ℕ) (q : SharedQueue T) {x : T} {xs : List T}
      → Represents (view q) (x ∷ xs)
      → q.initialized q.head ≡ true
      → q.store q.head ≡ some x
      → IsFrom (view q) q.head xs
      → Returns (SharedDequeued (x ∷ xs)) (try_dequeue (suc fuel) q)
  unfolding try_dequeue claim
  here-SharedDequeued fuel q r i s (last e n l) =
      rw (eq→== q.head q.tail e, i) (returns (s, taken-last (view q) r e n l))
  here-SharedDequeued fuel q r i s (more u l n i' s' f) =
      rw (ne→== q.head q.tail u, ne→== (q.next q.head) null n, eq→== q.head q.head refl, i)
        (returns (s, taken-more (view q) [] r i' s' f))

  -- `try_dequeue` of a queue that holds some values gives the first and leaves the others; of a
  -- queue that holds none it gives none and leaves none. Three turns of the loop are enough.
  pub try_dequeue-SharedDequeued :
      (fuel : ℕ) (q : SharedQueue T) (xs : List T)
      → Represents (view q) xs
      → Returns (SharedDequeued xs) (try_dequeue (suc (suc (suc fuel))) q)
  unfolding try_dequeue claim
  try_dequeue-SharedDequeued fuel q xs r = go xs r.holds r
    where
      go :
          (ys : List T)
          → Holds (view q) ys
          → Represents (view q) ys
          → Returns (SharedDequeued ys) (try_dequeue (suc (suc (suc fuel))) q)
      go _ (here i s f) r' = here-SharedDequeued (suc (suc fuel)) q r' i s f
      go _ (behind i (last e n l)) r' = rw (eq→== q.head q.tail e, i) (returns (refl, r'))
      go _ (behind i (more u l n i' s' f)) r' =
          rw
            (
              ne→== q.head q.tail u,
              ne→== (q.next q.head) null n,
              eq→== q.head q.head refl,
              i,
              ne→== (q.next q.head) q.head (λ e. cc (i', i, ap q.initialized e)),
            )
            (here-SharedDequeued fuel (record q { head = q.next q.head })
              (skipped (view q) [] r' i' s' f) i' s' (rehead _ q.remove_version [] f))
