-- ===== src/Queues/SharedQueue/Threads/Tests.antt =====
-- Threads in a queue of numbers, and the theorems at what they reach.
use cpp_util.Prelude.{List, ℕ, ◌≡◌, refl, [], ◌∷◌, ◌++◌, arith}
use cpp_util.Queues.HazardQueue.{Ptr}
use cpp_util.Queues.HazardQueue.Threads.{holding, inserting, target, is_live}
use cpp_util.Queues.HazardQueue.Threads.Line.{Line, end, more, InLine}
use cpp_util.Queues.SharedQueue.{shared_queue, new_node}
use cpp_util.Queues.SharedQueue.Threads.{
  Machine, insert, step, act, work, Step, enqueues, works, initial, Reaches, start, next, view,
}
use cpp_util.Queues.SharedQueue.Threads.Safe.{shared_Reaches-InLine}
use cpp_util.Queues.SharedQueue.Threads.Moves.{shared_Step-Moves}
use cpp_util.Queues.HazardQueue.Threads.Moves.{Moves}
use cpp_util.Queues.SharedQueue.Threads.History.{links, offs, shared_Reaches-fifo}

-- The thread 0 is about to link the node 2 behind the node 1.
abbrev linking : (m : Machine ℕ) × Reaches 1 m
unfolding initial work act insert step target is_live shared_queue new_node
linking = (
  _,
  next (next (next start (enqueues 0 5 refl)) (works 0 2 refl (omega arith) refl))
      (works 0 3 refl (omega arith) refl),
)

at_link : linking.0.threads 0 ≡ inserting (holding 2 1)
unfolding initial work act insert step target is_live shared_queue new_node
at_link = refl

shared_Reaches-InLine_example : InLine (view linking.0)
shared_Reaches-InLine_example = shared_Reaches-InLine (omega arith) linking.1

-- The link itself.
abbrev link_step : (m : Machine ℕ) × Step linking.0 m
unfolding initial work act insert step target is_live shared_queue new_node
link_step = (_, works 0 3 refl (omega arith) refl)

behind_link : Line link_step.0.queue.next link_step.0.queue.head (1 ∷ 2 ∷ [])
unfolding initial work act insert step target is_live shared_queue new_node
behind_link = more (λ e. absurd (omega (arith, e))) (end refl)

shared_Reaches-fifo_example :
    1 ∷ links (next linking.1 link_step.1) ≡ offs (next linking.1 link_step.1) ++ 1 ∷ 2 ∷ []
shared_Reaches-fifo_example =
    shared_Reaches-fifo (omega arith) (next linking.1 link_step.1) behind_link

alone : Line linking.0.queue.next linking.0.queue.head (1 ∷ [])
unfolding initial work act insert step target is_live shared_queue new_node
alone = end refl

shared_Step-Moves_example :
    (ns : List Ptr) × Line link_step.0.queue.next link_step.0.queue.head ns
    × Moves (view linking.0) (view link_step.0) (1 ∷ []) ns
shared_Step-Moves_example = shared_Step-Moves (omega arith) linking.1 alone link_step.1
