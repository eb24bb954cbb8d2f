-- ===== src/Queues/HazardQueue/Threads/Tests.antt =====
-- Two threads in a queue of numbers, and the theorems at what they reach.
use cpp_util.Prelude.{ℕ, ◌≡◌, refl, List, [], ◌∷◌, ◌++◌, fault, undefined, Returns, arith}
use cpp_util.Queues.HazardQueue.{Ptr, hazard_queue, new_node, cas_tail}
use cpp_util.Queues.HazardQueue.Interleaved.{step}
use cpp_util.Queues.HazardQueue.Threads.{
  inserting, holding, Machine, insert, target, is_live, act, work, unlucky, Step, enqueues, works,
  initial, Reaches, start, next,
}
use cpp_util.Queues.HazardQueue.Threads.Safe.{Reaches-work, unlucky-undefined}
use cpp_util.Queues.HazardQueue.Threads.Line.{Line, end, more, InLine, Reaches-InLine}
use cpp_util.Queues.HazardQueue.Threads.Moves.{Moves, Step-Moves}
use cpp_util.Queues.HazardQueue.Threads.History.{links, offs, Reaches-fifo}

-- The thread 0 is about to link the node 2 behind the node 1.
abbrev linking : (m : Machine ℕ) × Reaches 1 m
unfolding initial work act insert step target is_live hazard_queue new_node cas_tail
linking = (
  _,
  next (next (next start (enqueues 0 5 refl)) (works 0 2 refl (omega arith) refl))
      (works 0 3 refl (omega arith) refl),
)

at_link : linking.0.threads 0 ≡ inserting (holding 2 1)
unfolding initial work act insert step target is_live hazard_queue new_node cas_tail
at_link = refl

Reaches-work_example : Returns (Reaches 1) (work 3 0 linking.0)
unfolding initial work act insert step target is_live hazard_queue new_node cas_tail
Reaches-work_example = Reaches-work 0 3 (omega arith) linking.1 refl (omega arith)

Reaches-InLine_example : InLine linking.0
Reaches-InLine_example = Reaches-InLine (omega arith) linking.1

unlucky-undefined_example : unlucky 3 0 linking.0 ≡ fault undefined
unfolding initial work act insert step target is_live hazard_queue new_node cas_tail
unlucky-undefined_example = unlucky-undefined linking.0 0 2 1 3 refl refl refl refl

-- The link itself.
abbrev link_step : (m : Machine ℕ) × Step linking.0 m
unfolding initial work act insert step target is_live hazard_queue new_node cas_tail
link_step = (_, works 0 3 refl (omega arith) refl)

alone : Line linking.0.queue.next linking.0.queue.head (1 ∷ [])
unfolding initial work act insert step target is_live hazard_queue new_node cas_tail
alone = end refl

Step-Moves_example :
    (ns : List Ptr) × Line link_step.0.queue.next link_step.0.queue.head ns
    × Moves linking.0 link_step.0 (1 ∷ []) ns
Step-Moves_example = Step-Moves (omega arith) linking.1 alone link_step.1

behind_link : Line link_step.0.queue.next link_step.0.queue.head (1 ∷ 2 ∷ [])
unfolding initial work act insert step target is_live hazard_queue new_node cas_tail
behind_link = more (λ e. absurd (omega (arith, e))) (end refl)

Reaches-fifo_example :
    1 ∷ links (next linking.1 link_step.1) ≡ offs (next linking.1 link_step.1) ++ 1 ∷ 2 ∷ []
Reaches-fifo_example = Reaches-fifo (omega arith) (next linking.1 link_step.1) behind_link
