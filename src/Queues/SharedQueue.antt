-- ===== src/Queues/SharedQueue.antt =====
-- src/queues/shared_queue.hpp and shared_queue.tpp: `shared_queue`, with one thread at a time in its
-- methods. A node is freed by the last std::shared_ptr to it, which is modelled in
-- Destroy only.
pub mod Fifo
pub mod Contract
pub mod Print
pub mod Destroy
pub mod Threads
mod Tests
use cpp_util.Prelude.{
  ℕ, zero, suc, ◌+◌, ◌%◌, ◌^◌, Bool, true, false, Option, none, some, List, [], ◌∷◌, ◌++◌, ◌==◌,
  or_else, undefined, if◌then◌else◌, Run, ok, fault, out_of_fuel, ◌>>=◌,
}
use cpp_util.Queues.HazardQueue.{Ptr, null, update}
use cpp_util.Util.Container.{Token, left, item, comma, right}

pub record SharedQueue {ℓ} (T : Type ℓ) : Type ℓ where
  pub head : Ptr
  pub tail : Ptr
  pub insert_version : ℕ  -- a size_t
  pub remove_version : ℕ  -- a size_t
  pub next : Ptr → Ptr  -- `next` of each node
  pub store : Ptr → Option T  -- the object in `val.store` of each node
  pub initialized : Ptr → Bool  -- `val.initialized` of each node
  pub fresh : Ptr  -- the address that `new node` gives out next

-- The constructor: one node with no value. `node` is what `new` gives.
unfoldable pub shared_queue {ℓ} : {T : Type ℓ} → Ptr → SharedQueue T
shared_queue node = record {
  head = node;
  tail = node;
  insert_version = 0;
  remove_version = 0;
  next = λ _. null;
  store = λ _. none;
  initialized = λ _. false;
  fresh = suc node;
}

module _ {ℓ} {T : Type ℓ} where
  -- `new node(std::move(t))`
  unfoldable pub new_node : T → SharedQueue T → Ptr × SharedQueue T
  new_node t q = (
    q.fresh,
    record q {
      next = update q.next q.fresh null;
      store = update q.store q.fresh (some t);
      initialized = update q.initialized q.fresh true;
      fresh = suc q.fresh;
    },
  )

  -- The loop of `enqueue(node*)`: the node behind which `n` is linked. A compare_exchange of `tail_`
  -- that fails loads the tail into `oldtail`.
  unfoldable pub link : ℕ → Ptr → Ptr → SharedQueue T → Run (Ptr × SharedQueue T)
  link zero oldtail n q = fault out_of_fuel
  link (suc fuel) oldtail n q =
      let helped = link fuel oldtail n (record q { tail = q.next oldtail }) in
      let reloaded = link fuel q.tail n q in
      if q.next oldtail == null
      then ok (oldtail, record q { next = update q.next oldtail n })
      else if q.tail == oldtail
      then helped
      else reloaded

  -- `enqueue(T)`, which calls `enqueue(node*)`.
  unfoldable pub enqueue : ℕ → T → SharedQueue T → Run (SharedQueue T)
  unfolding link new_node
  enqueue fuel t q = do
    let (n, a) = new_node t q
    (oldtail, b) ← link fuel a.tail n a
    let c = if b.tail == oldtail then record b { tail = n } else b
    ok (record c { insert_version = (c.insert_version + 1) % 2 ^ 64 })

  -- The loop of `try_dequeue`: the claimed node, if there is one.
  unfoldable pub claim : ℕ → Ptr → SharedQueue T → Run (Option Ptr × SharedQueue T)
  claim zero oldhead q = fault out_of_fuel
  claim (suc fuel) oldhead q =
      let newhead = q.next oldhead in
      let moved = record q { head = newhead } in
      let restarted = claim fuel oldhead moved in
      let reloaded = claim fuel q.head q in
      if oldhead == q.tail
      then (if q.initialized oldhead
          then ok (some oldhead, record q { initialized = update q.initialized oldhead false })
          else ok (none, q))
      else if newhead == null
      then ok (none, q)
      else if q.head == oldhead
      then (if q.initialized oldhead then ok (some oldhead, moved) else restarted)
      else reloaded

  unfoldable pub try_dequeue : ℕ → SharedQueue T → Run (Option T × SharedQueue T)
  unfolding claim
  try_dequeue fuel q = do
    (node, a) ← claim fuel q.head q
    ok (elim node [
      | none ↦ (none, a)
      | some p ↦ (a.store p, record a { remove_version = (a.remove_version + 1) % 2 ^ 64 })
    ])

  -- `dequeue()`, which turns until there is a value.
  unfoldable pub dequeue : ℕ → SharedQueue T → Run (T × SharedQueue T)
  unfolding try_dequeue
  dequeue zero q = fault out_of_fuel
  dequeue (suc fuel) q = do
    (opt, a) ← try_dequeue 3 q
    let again = dequeue fuel a
    elim opt [ some t ↦ ok (t, a) | none ↦ again ]

  unfoldable pub empty : SharedQueue T → Bool
  empty q = q.insert_version == q.remove_version

  unfoldable pub try_enqueue : ℕ → T → SharedQueue T → Run (SharedQueue T)
  unfolding enqueue
  try_enqueue fuel t q = enqueue fuel t q

  unfoldable pub full : SharedQueue T → Bool
  full q = false

  -- The loop of `operator<<`, from the node `i` to the tail.
  unfoldable pub print_from : ℕ → Ptr → SharedQueue T → Run (List (Token T))
  print_from zero i q = fault out_of_fuel
  print_from (suc fuel) i q =
      let rest = print_from fuel (q.next i) q in
      let shown : Run (List (Token T)) = do
        t ← or_else (q.store i) undefined
        tokens ← rest
        ok (item t ∷ comma ∷ tokens)
      in if i == q.tail then ok [] else if q.initialized i then shown else rest

  -- `operator<<`
  unfoldable pub print : ℕ → SharedQueue T → Run (List (Token T))
  unfolding print_from
  print fuel q =
      let only : Run (List (Token T)) = do
        t ← or_else (q.store q.head) undefined
        ok (left ∷ item t ∷ right ∷ [])
      in let all : Run (List (Token T)) = do
        tokens ← print_from fuel q.head q
        t ← or_else (q.store q.tail) undefined
        ok (left ∷ tokens ++ item t ∷ right ∷ [])
        in if q.head == q.tail
          then (if q.initialized q.head then only else ok (left ∷ right ∷ []))
          else all
