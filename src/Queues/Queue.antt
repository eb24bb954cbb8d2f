-- ===== src/Queues/Queue.antt =====
-- src/queues/queue.hpp: the abstract class `queue`, as a record of its methods on a state `S`, and
-- what it documents of an unbounded queue, with one thread at a time.
pub mod Client
use cpp_util.Prelude.{
  ℕ, ◌<◌, ◌^◌, ◌≡◌, Bool, true, false, Option, none, some, List, [], ◌∷◌, ◌++◌, length, ◌==◌, Run,
  Returns,
}

pub record Queue {ℓ} (T S : Type ℓ) : Type ℓ where
  pub full : S → Bool
  pub empty : S → Bool
  pub enqueue : T → S → Run S
  pub dequeue : S → Run (T × S)
  pub try_enqueue : T → S → Run S
  pub try_dequeue : S → Run (Option T × S)

-- The methods keep a list of values, first in, first out; `Holds s xs` says that the values are `xs`.
pub record QueueContract {ℓ} {T S : Type ℓ} (queue : Queue T S) (Holds : S → List T → Type ℓ)
    : Type ℓ where
  pub never_full : (s : S) → queue.full s ≡ false
  pub emptiness :
      (s : S) (xs : List T) → Holds s xs → length xs < 2 ^ 64 → queue.empty s ≡ (length xs == 0)
  pub enqueues :
      (t : T) (s : S) (xs : List T)
      → Holds s xs
      → Returns (λ s'. Holds s' (xs ++ t ∷ [])) (queue.enqueue t s)
  pub tries_enqueue :
      (t : T) (s : S) (xs : List T)
      → Holds s xs
      → Returns (λ s'. Holds s' (xs ++ t ∷ [])) (queue.try_enqueue t s)
  -- `dequeue()` of a queue without values waits.
  pub dequeues :
      (s : S) (x : T) (xs : List T)
      → Holds s (x ∷ xs)
      → Returns (λ (t, s'). (t ≡ x) × Holds s' xs) (queue.dequeue s)
  pub tries_dequeue :
      (s : S) (x : T) (xs : List T)
      → Holds s (x ∷ xs)
      → Returns (λ (o, s'). (o ≡ some x) × Holds s' xs) (queue.try_dequeue s)
  pub tries_in_vain :
      (s : S) → Holds s [] → Returns (λ (o, s'). (o ≡ none) × Holds s' []) (queue.try_dequeue s)
