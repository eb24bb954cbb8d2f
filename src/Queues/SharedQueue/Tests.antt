-- ===== src/Queues/SharedQueue/Tests.antt =====
-- Runs of a queue of numbers.
use cpp_util.Prelude.{
  ℕ, ◌≢◌, ◌≡◌, refl, none, some, List, [], ◌∷◌, ok, Returns, ◌>>=◌, ◌==◌, if◌then◌else◌, true,
  arith,
}
use cpp_util.Queues.HazardQueue.{Ptr}
use cpp_util.Queues.Queue.{QueueContract}
use cpp_util.Queues.Queue.Client.{Call, put, try_put, get, try_get, answers}
use cpp_util.Queues.SharedQueue.Contract.{as_queue, SharedRepresents, shared_queue-QueueContract}
use cpp_util.Queues.SharedQueue.{
  SharedQueue, shared_queue, new_node, link, enqueue, try_enqueue, dequeue, claim, try_dequeue,
}
use cpp_util.Queues.SharedQueue.Destroy.Between.{IsHeld}
use cpp_util.Queues.SharedQueue.Destroy.{
  Nodes, destroy, prepare, delete_between, finish, turn, release, touch, clear_next, delete_node,
}
use cpp_util.Queues.SharedQueue.Destroy.Destroyed.{Resting, destroy-deleted}

abbrev blank : SharedQueue ℕ
blank = shared_queue 1

abbrev calls : List (Call ℕ)
calls = put 5 ∷ try_put 6 ∷ get ∷ put 7 ∷ get ∷ try_get ∷ try_get ∷ put 8 ∷ get ∷ []

in_order : answers as_queue calls blank ≡ ok (some 5 ∷ some 6 ∷ some 7 ∷ none ∷ some 8 ∷ [])
unfolding answers try_enqueue dequeue enqueue link new_node try_dequeue claim shared_queue
in_order = refl

shared_queue-QueueContract_example : QueueContract (as_queue {T = ℕ}) SharedRepresents
shared_queue-QueueContract_example = shared_queue-QueueContract {T = ℕ}

-- A head at 1, and nodes at 2, 3 and 4.
abbrev four_nodes : Nodes
four_nodes = record {
  next = λ p. if p == 1 then 2 else if p == 2 then 3 else if p == 3 then 4 else 0;
  uses = λ p. if p == 4 then 2 else 1;
  delete_self = λ p. true;
  live = λ p. true;
  deleted = [];
}

four_deleted : (destroy 4 1 4 four_nodes >>= λ s. ok s.deleted) ≡ ok (2 ∷ 3 ∷ 4 ∷ 1 ∷ [])
unfolding destroy prepare delete_between finish turn release touch clear_next delete_node
four_deleted = refl

four_nodes-Resting : Resting 1 4 four_nodes (2 ∷ 3 ∷ 4 ∷ [])
four_nodes-Resting =
    let held : (p : Ptr) → p ≢ 0 → IsHeld 1 4 p four_nodes =
      λ p some_node. record { some_node = some_node; live = refl; on = refl; count = refl } in
    (
      omega arith,
      refl,
      held 1 (omega arith),
      (omega arith, (omega arith, (omega arith, tt))),
      (
        held 2 (omega arith),
        omega arith,
        refl,
        (omega arith, (omega arith, tt)),
        (
          held 3 (omega arith),
          omega arith,
          refl,
          (omega arith, tt),
          (held 4 (omega arith), refl, refl),
        ),
      ),
    )

destroy-deleted_example : Returns (λ s. s.deleted ≡ 2 ∷ 3 ∷ 4 ∷ 1 ∷ []) (destroy 4 1 4 four_nodes)
destroy-deleted_example =
    destroy-deleted 1 4 (2 ∷ 3 ∷ 4 ∷ []) 4 four_nodes four_nodes-Resting (omega arith)
