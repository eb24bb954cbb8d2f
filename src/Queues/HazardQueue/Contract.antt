-- ===== src/Queues/HazardQueue/Contract.antt =====
-- `hazard_queue` as a `queue`, with turns enough for the loops.
use cpp_util.Prelude.{◌≡◌, refl, List, [], ◌∷◌, Returns, returns, Returns-bind, arith}
use cpp_util.Queues.Queue.{Queue, QueueContract}
use cpp_util.Queues.HazardQueue.{
  HazardQueue, full, empty, enqueue, dequeue, try_enqueue, try_dequeue,
}
use cpp_util.Queues.HazardQueue.Fifo.Take.{try_dequeue-Dequeued}
use cpp_util.Queues.HazardQueue.Fifo.{Represents, enqueue-Represents, empty-length}

module _ {ℓ} {T : Type ℓ} where
  abbrev pub as_queue : Queue T (HazardQueue T)
  as_queue = record {
    full = full;
    empty = empty;
    enqueue = enqueue 1;
    dequeue = dequeue 1;
    try_enqueue = try_enqueue 1;
    try_dequeue = try_dequeue 2;
  }

  dequeue-first :
      (q : HazardQueue T) (x : T) (xs : List T)
      → Represents q (x ∷ xs)
      → Returns (λ (t, q'). (t ≡ x) × Represents q' xs) (dequeue 1 q)
  unfolding dequeue
  dequeue-first q x xs r =
      Returns-bind (try_dequeue-Dequeued 2 q (x ∷ xs) (omega arith) r)
        λ (opt, a) (e, r'). rw e (returns (refl, r'))

  -- hazard_queue keeps the contract of a queue, as long as it is in order: it is never full, `empty`
  -- tells whether it has values, when they are fewer than 2 ^ 64, both ways to put in put a value at
  -- the end, and both ways to take out take the first, or tell that there is none.
  pub hazard_queue-QueueContract : QueueContract as_queue Represents
  unfolding full try_enqueue
  hazard_queue-QueueContract = record {
    never_full = λ q. refl;
    emptiness = empty-length;
    enqueues = λ t q xs r. enqueue-Represents 1 t q xs (omega arith) r;
    tries_enqueue = λ t q xs r. enqueue-Represents 1 t q xs (omega arith) r;
    dequeues = dequeue-first;
    tries_dequeue = λ q x xs r. try_dequeue-Dequeued 2 q (x ∷ xs) (omega arith) r;
    tries_in_vain = λ q r. try_dequeue-Dequeued 2 q [] (omega arith) r;
  }
