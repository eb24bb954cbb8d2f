-- ===== src/Queues/HazardQueue.antt =====
-- src/queues/hazard_queue.hpp and hazard_queue.tpp: `hazard_queue`, with one thread at a time in its
-- methods. The compare-and-exchanges do not fail without a reason.
pub mod Fifo
pub mod Contract
pub mod Print
pub mod Interleaved
pub mod Threads
mod Tests
use cpp_util.Prelude.{
  ℕ, zero, suc, ◌+◌, ◌%◌, ◌^◌, Bool, true, false, Option, none, some, List, [], ◌∷◌, ◌++◌, ◌==◌,
  if◌then◌else◌, Run, ok, fault, out_of_fuel, undefined, or_else, ◌>>=◌,
}
use cpp_util.Util.Container.{Token, left, item, comma, right}

-- A `node*`
abbrev pub Ptr : Type 0
Ptr = ℕ

abbrev pub null : Ptr
null = 0

abbrev pub update {ℓ} : {A : Type ℓ} → (Ptr → A) → Ptr → A → Ptr → A
update f p a q = if p == q then a else f q

pub record HazardQueue {ℓ} (T : Type ℓ) : Type ℓ where
  pub head : Ptr
  pub tail : Ptr
  pub insert_version : ℕ  -- a size_t
  pub remove_version : ℕ  -- a size_t
  pub next : Ptr → Ptr  -- `next_` of each node
  pub store : Ptr → Option T  -- the object in `val_.store` of each node
  pub initialized : Ptr → Bool  -- `val_.initialized` of each node
  pub fresh : Ptr  -- the address that `new node` gives out next
  pub retired : List Ptr  -- the calls of hazard_ptr<node>::schedule_deletion, in order

-- The constructor: one node with no value. `node` is what `new` gives.
unfoldable pub hazard_queue {ℓ} : {T : Type ℓ} → Ptr → HazardQueue T
hazard_queue node = record {
  head = node;
  tail = node;
  insert_version = 0;
  remove_version = 0;
  next = λ _. null;
  store = λ _. none;
  initialized = λ _. false;
  fresh = suc node;
  retired = [];
}

module _ {ℓ} {T : Type ℓ} where
  -- `new node(std::move(t))`: the node, and the queue with it in memory.
  unfoldable pub new_node : T → HazardQueue T → Ptr × HazardQueue T
  new_node t q = (
    q.fresh,
    record q {
      next = update q.next q.fresh null;
      store = update q.store q.fresh (some t);
      initialized = update q.initialized q.fresh true;
      fresh = suc q.fresh;
    },
  )

  -- compare_exchange of `tail_`
  unfoldable pub cas_tail : Ptr → Ptr → HazardQueue T → HazardQueue T
  cas_tail expected desired q = if q.tail == expected then record q { tail = desired } else q

  -- The loop of `enqueue(node*)`: the node behind which `n` is linked.
  unfoldable pub link : ℕ → Ptr → HazardQueue T → Run (Ptr × HazardQueue T)
  unfolding cas_tail
  link zero n q = fault out_of_fuel
  link (suc fuel) n q =
      let again = link fuel n (cas_tail q.tail (q.next q.tail) q) in
      if q.next q.tail == null
      then ok (q.tail, record q { next = update q.next q.tail n })
      else again

  -- `enqueue(T)`, which calls `enqueue(node*)`.
  unfoldable pub enqueue : ℕ → T → HazardQueue T → Run (HazardQueue T)
  unfolding link new_node
  enqueue fuel t q = do
    let (n, a) = new_node t q
    (oldtail, b) ← link fuel n a
    let c = cas_tail oldtail n b
    ok (record c { insert_version = (c.insert_version + 1) % 2 ^ 64 })

  -- The loop of `try_dequeue`: the claimed node, if there is one.
  unfoldable pub claim : ℕ → HazardQueue T → Run (Option Ptr × HazardQueue T)
  claim zero q = fault out_of_fuel
  claim (suc fuel) q =
      let oldhead = q.head in
      let newhead = q.next oldhead in
      let moved = record q { head = newhead; retired = q.retired ++ oldhead ∷ [] } in
      let again = claim fuel moved in
      if oldhead == q.tail
      then (if q.initialized oldhead
          then ok (some oldhead, record q { initialized = update q.initialized oldhead false })
          else ok (none, q))
      else if newhead == null
      then ok (none, q)
      else if q.initialized oldhead
      then ok (some oldhead, moved)
      else again

  unfoldable pub try_dequeue : ℕ → HazardQueue T → Run (Option T × HazardQueue T)
  unfolding claim
  try_dequeue fuel q = do
    (node, a) ← claim fuel q
    ok (elim node [
      | none ↦ (none, a)
      | some p ↦ (a.store p, record a { remove_version = (a.remove_version + 1) % 2 ^ 64 })
    ])

  -- `dequeue()`, which turns until there is a value.
  unfoldable pub dequeue : ℕ → HazardQueue T → Run (T × HazardQueue T)
  unfolding try_dequeue
  dequeue zero q = fault out_of_fuel
  dequeue (suc fuel) q = do
    (opt, a) ← try_dequeue (suc (suc fuel)) q
    let again = dequeue fuel a
    elim opt [ some t ↦ ok (t, a) | none ↦ again ]

  unfoldable pub empty : HazardQueue T → Bool
  empty q = q.insert_version == q.remove_version

  unfoldable pub try_enqueue : ℕ → T → HazardQueue T → Run (HazardQueue T)
  unfolding enqueue
  try_enqueue fuel t q = enqueue fuel t q

  unfoldable pub full : HazardQueue T → Bool
  full q = false

  -- The destructor: the nodes that it deletes, in order, from `prev`.
  unfoldable pub destroy : ℕ → Ptr → HazardQueue T → Run (List Ptr)
  destroy zero prev q = fault out_of_fuel
  destroy (suc fuel) prev q =
      let rest : Run (List Ptr) = do deleted ← destroy fuel (q.next prev) q; ok (prev ∷ deleted)
      in if prev == null then ok [] else rest

  -- The loop of `operator<<`, from the node `i` to the tail.
  unfoldable pub print_from : ℕ → Ptr → HazardQueue T → Run (List (Token T))
  print_from zero i q = fault out_of_fuel
  print_from (suc fuel) i q =
      let rest = print_from fuel (q.next i) q in
      let shown : Run (List (Token T)) = do
        t ← or_else (q.store i) undefined
        tokens ← rest
        ok (item t ∷ comma ∷ tokens)
      in if i == q.tail then ok [] else if q.initialized i then shown else rest

  -- `operator<<`
  unfoldable pub print : ℕ → HazardQueue T → Run (List (Token T))
  unfolding print_from
  print fuel q =
      let only : Run (List (Token T)) = do
        t ← or_else (q.store q.head) undefined
        ok (left ∷ item t ∷ right ∷ [])
      in let all : Run (List (Token T)) = do
        tokens ← print_from fuel q.head q
        t ← or_else (q.store q.tail) undefined
        ok (left ∷ tokens ++ item t ∷ right ∷ [])
        in if q.head == q.tail
          then (if q.initialized q.head then only else ok (left ∷ right ∷ []))
          else all
