-- ===== src/Queues/HazardQueue/Tests.antt =====
-- Runs of a queue of numbers, and the theorems at concrete queues.
use cpp_util.Prelude.{
  Option, ℕ, ◌≡◌, refl, none, some, List, [], ◌∷◌, ◌==◌, ok, Returns, Returns-ok, if◌then◌else◌,
  arith,
}
use cpp_util.Queues.HazardQueue.{
  HazardQueue, hazard_queue, new_node, cas_tail, link, enqueue, try_enqueue, dequeue, claim,
  try_dequeue,
}
use cpp_util.Queues.HazardQueue.Fifo.{last, here, Represents, Represents-new, enqueue-Represents}
use cpp_util.Queues.HazardQueue.Interleaved.{returned, overtaken, overtaken-twice}
use cpp_util.Queues.Queue.{QueueContract}
use cpp_util.Queues.Queue.Client.{Call, put, try_put, get, try_get, answers}
use cpp_util.Queues.HazardQueue.Contract.{as_queue, hazard_queue-QueueContract}

abbrev blank : HazardQueue ℕ
blank = hazard_queue 1

abbrev calls : List (Call ℕ)
calls = put 5 ∷ try_put 6 ∷ get ∷ put 7 ∷ get ∷ try_get ∷ try_get ∷ put 8 ∷ get ∷ []

abbrev expected : List (Option ℕ)
expected = some 5 ∷ some 6 ∷ some 7 ∷ none ∷ some 8 ∷ []

in_order : answers as_queue calls blank ≡ ok expected
unfolding answers try_enqueue dequeue enqueue link new_node cas_tail try_dequeue claim hazard_queue
in_order = refl

blank-Represents : Represents blank []
blank-Represents = Represents-new 1 (omega arith)

hazard_queue-QueueContract_example : QueueContract (as_queue {T = ℕ}) Represents
hazard_queue-QueueContract_example = hazard_queue-QueueContract {T = ℕ}

-- The queue behind enqueue(5).
abbrev one : HazardQueue ℕ
one = record (new_node 5 blank).1 {
  tail = 2;
  next = λ p. if 1 == p then 2 else (new_node 5 blank).1.next p;
  insert_version = 1;
}

one-Represents : Represents one (5 ∷ [])
unfolding enqueue link new_node cas_tail hazard_queue
one-Represents = Returns-ok (enqueue-Represents 1 5 blank [] (omega arith) blank-Represents)

-- One value, in the node that is head and tail.
abbrev lone : HazardQueue ℕ
lone = record {
  head = 1;
  tail = 1;
  insert_version = 1;
  remove_version = 0;
  next = λ p. 0;
  store = λ p. some 5;
  initialized = λ p. p == 1;
  fresh = 2;
  retired = [];
}

lone-Represents : Represents lone (5 ∷ [])
lone-Represents = record {
  holds = here refl refl (last refl refl (omega arith));
  address = omega arith;
  counted = refl;
  removed = omega arith;
}

overtaken-twice_example :
    Returns
      (λ (first, second, q'). (first ≡ returned (some 5)) × (second ≡ returned (some 5)))
      (overtaken 6 lone)
overtaken-twice_example = overtaken-twice 6 5 lone lone-Represents refl
