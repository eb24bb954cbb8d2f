-- ===== src/Queues/SharedQueue/Contract.antt =====
-- `shared_queue` as a `queue`, with turns enough for the loops.
use cpp_util.Prelude.{
  ◌<◌, ◌^◌, ◌≡◌, refl, List, [], ◌∷◌, length, ◌==◌, Returns, returns, Returns-bind,
}
use cpp_util.Queues.Queue.{Queue, QueueContract}
use cpp_util.Queues.HazardQueue as Hazard
use cpp_util.Queues.HazardQueue.Fifo.{Represents, empty-length}
use cpp_util.Queues.SharedQueue.{
  SharedQueue, full, empty, enqueue, dequeue, try_enqueue, try_dequeue,
}
use cpp_util.Queues.SharedQueue.Fifo.{view, shared_enqueue-Represents, try_dequeue-SharedDequeued}

module _ {ℓ} {T : Type ℓ} where
  abbrev pub as_queue : Queue T (SharedQueue T)
  as_queue = record {
    full = full;
    empty = empty;
    enqueue = enqueue 1;
    dequeue = dequeue 1;
    try_enqueue = try_enqueue 1;
    try_dequeue = try_dequeue 3;
  }

  -- The queue holds the values in the order in which they will be taken.
  abbrev pub SharedRepresents : SharedQueue T → List T → Type ℓ
  SharedRepresents q xs = Represents (view q) xs

  dequeue-first :
      (q : SharedQueue T) (x : T) (xs : List T)
      → SharedRepresents q (x ∷ xs)
      → Returns (λ (t, q'). (t ≡ x) × SharedRepresents q' xs) (dequeue 1 q)
  unfolding dequeue
  dequeue-first q x xs r =
      Returns-bind (try_dequeue-SharedDequeued 0 q (x ∷ xs) r)
        λ (opt, a) (e, r'). rw e (returns (refl, r'))

  empty-view :
      (q : SharedQueue T) (xs : List T)
      → SharedRepresents q xs
      → length xs < 2 ^ 64
      → empty q ≡ (length xs == 0)
  unfolding empty Hazard.empty
  empty-view q xs r small = empty-length (view q) xs r small

  -- shared_queue keeps the contract of a queue, as long as it is in order: it is never full, `empty`
  -- tells whether it has values, when they are fewer than 2 ^ 64, both ways to put in put a value at
  -- the end, and both ways to take out take the first, or tell that there is none.
  pub shared_queue-QueueContract : QueueContract as_queue SharedRepresents
  unfolding full try_enqueue
  shared_queue-QueueContract = record {
    never_full = λ q. refl;
    emptiness = empty-view;
    enqueues = λ t q xs r. shared_enqueue-Represents 0 t q xs r;
    tries_enqueue = λ t q xs r. shared_enqueue-Represents 0 t q xs r;
    dequeues = dequeue-first;
    tries_dequeue = λ q x xs r. try_dequeue-SharedDequeued 0 q (x ∷ xs) r;
    tries_in_vain = λ q r. try_dequeue-SharedDequeued 0 q [] r;
  }
