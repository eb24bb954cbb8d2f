-- ===== src/Queues/Queue/Client.antt =====
-- Any calls of the methods of a `queue`, one after another.
use cpp_util.Prelude.{Option, some, List, [], ◌∷◌, Run, ok, ◌>>=◌}
use cpp_util.Queues.Queue.{Queue}

pub data Call {ℓ} (T : Type ℓ) : Type ℓ where
  put : T → Call T  -- enqueue
  try_put : T → Call T  -- try_enqueue
  get : Call T  -- dequeue
  try_get : Call T  -- try_dequeue

module _ {ℓ} {T : Type ℓ} where
  module _ {S : Type ℓ} (queue : Queue T S) where
    -- What the calls of `dequeue` and `try_dequeue` return, in order.
    unfoldable pub answers : List (Call T) → S → Run (List (Option T))
    answers [] s = ok []
    answers (put t ∷ calls) s = do s' ← queue.enqueue t s; answers calls s'
    answers (try_put t ∷ calls) s = do s' ← queue.try_enqueue t s; answers calls s'
    answers (get ∷ calls) s = do
      (t, s') ← queue.dequeue s
      rest ← answers calls s'
      ok (some t ∷ rest)
    answers (try_get ∷ calls) s = do
      (o, s') ← queue.try_dequeue s
      rest ← answers calls s'
      ok (o ∷ rest)
