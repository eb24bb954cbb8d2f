-- ===== src/Queues/SharedQueue/Threads.antt =====
-- src/queues/shared_queue.tpp: any number of threads in `enqueue` and `try_dequeue`, step by step, as
-- in HazardQueue/Threads, with the same places of the calls: `hazard_tail` is `oldtail`, and
-- `hazard_head` is `oldhead`. A node that the head has left is deleted when no std::shared_ptr to it
-- is left; here that may be as soon as no call has it as its oldtail or oldhead. Any other node is
-- referred to by `head_`, by the node before it or by the call that made it.
mod Insert
mod Remove
pub mod Safe
pub mod Moves
pub mod History
mod Tests
use cpp_util.Prelude.{
  ℕ, suc, ◌+◌, ◌%◌, ◌^◌, ◌<◌, ◌≡◌, ◌≢◌, ◌⊎◌, Bool, true, false, Option, none, some, List, [], ◌∷◌,
  ◌++◌, ◌==◌, if◌then◌else◌, Run, ok, fault, undefined, ◌>>=◌,
}
use cpp_util.Queues.HazardQueue.{Ptr, null, update, HazardQueue}
use cpp_util.Queues.HazardQueue.Interleaved.{
  Turn, begun, loaded, single, seen_valid, apart, following, moved, claimed, returned,
}
use cpp_util.Queues.HazardQueue.Threads
use cpp_util.Queues.HazardQueue.Threads.{
  Insertion, called, made, holding, helping, linked, counting, done, Worker, idle, inserting,
  removing, times, erase, is_live, target, allocated, take, hazard, may_fail,
}
use cpp_util.Queues.SharedQueue.{SharedQueue, shared_queue, new_node}

pub record Machine {ℓ} (T : Type ℓ) : Type ℓ where
  pub queue : SharedQueue T
  pub live : Ptr → Bool  -- the nodes between `new` and `delete`
  pub passed : List Ptr  -- the nodes that the head has left and that are not deleted
  pub threads : ℕ → Worker T
  pub taken : Ptr → Bool  -- the nodes that a call has claimed, or that never had a value

module _ {ℓ} {T : Type ℓ} where
  -- One step of `enqueue`; `new` gives the address `a`.
  unfoldable pub insert : Ptr → Insertion T → SharedQueue T → Insertion T × SharedQueue T
  unfolding new_node
  insert a (called t) q = let (n, b) = new_node t (record q { fresh = a }) in (made n, b)
  insert a (made n) q = (holding n q.tail, q)
  insert a (holding n p) q =
      if q.next p == null
      then (linked n p, record q { next = update q.next p n })
      else (helping n p (q.next p), q)
  insert a (helping n p m) q =
      if q.tail == p then (holding n p, record q { tail = m }) else (holding n q.tail, q)
  insert a (linked n p) q = (counting, if q.tail == p then record q { tail = n } else q)
  insert a counting q = (done, record q { insert_version = (q.insert_version + 1) % 2 ^ 64 })
  insert a done q = (done, q)

  -- One step of `try_dequeue`.
  unfoldable pub step : Turn T → SharedQueue T → Turn T × SharedQueue T
  step begun q = (loaded q.head, q)
  step (loaded h) q = ((if h == q.tail then single h else apart h), q)
  step (single h) q = ((if q.initialized h then seen_valid h else returned none), q)
  step (seen_valid h) q = (
    (if q.initialized h then claimed h else returned none),
    record q { initialized = update q.initialized h false },
  )
  step (apart h) q = ((if q.next h == null then returned none else following h (q.next h)), q)
  step (following h n) q =
      if q.head == h then (moved h, record q { head = n }) else (loaded q.head, q)
  step (moved h) q = ((if q.initialized h then claimed h else loaded h), q)
  step (claimed h) q =
      (returned (q.store h), record q { remove_version = (q.remove_version + 1) % 2 ^ 64 })
  step (returned o) q = (returned o, q)

  abbrev pub advance : Ptr → Worker T → SharedQueue T → Worker T × SharedQueue T
  advance a idle q = (idle, q)
  advance a (inserting turn) q = let (turn', q') = insert a turn q in (inserting turn', q')
  advance a (removing turn) q = let (turn', q') = step turn q in (removing turn', q')

  -- A call whose compare_exchange of `head_` succeeds leaves a node behind.
  abbrev pub leave_behind : Worker T → Worker T → List Ptr → List Ptr
  leave_behind (removing (following h n)) (removing (moved h')) passed = passed ++ h ∷ []
  leave_behind w w' passed = passed

  -- The next step of the thread `i`, which stands at `w`; an access to a node that is not there is
  -- undefined behaviour.
  unfoldable pub act : Ptr → ℕ → Worker T → Machine T → Run (Machine T)
  unfolding insert step target is_live
  act a i w m =
      let (w', q) = advance a w m.queue in
      if is_live m.live (target w)
      then ok record {
        queue = q;
        live = allocated a w m.live;
        passed = leave_behind w w' m.passed;
        threads = update m.threads i w';
        taken = take a w w' m.taken;
      }
      else fault undefined

  unfoldable pub work : Ptr → ℕ → Machine T → Run (Machine T)
  unfolding act
  work a i m = act a i (m.threads i) m

  -- Where a thread stands behind a compare_exchange_weak that fails although the value is as
  -- expected; in another place it stays.
  unfoldable pub refused : Worker T → Worker T
  refused (inserting (helping n p m)) = inserting (holding n p)
  refused (removing (following h n)) = removing (loaded h)
  refused w = w

  -- What the threads, the allocator and the shared pointers may do. A compare_exchange_weak may fail
  -- without a reason, but not that of `next`.
  pub data Step (m : Machine T) : Machine T → Type ℓ where
    enqueues :
        (i : ℕ) (t : T)
        → m.threads i ≡ idle
        → Step m (record m { threads = update m.threads i (inserting (called t)) })
    dequeues :
        (i : ℕ)
        → m.threads i ≡ idle
        → Step m (record m { threads = update m.threads i (removing begun) })
    works :
        (i : ℕ) (a : Ptr) {m' : Machine T}
        → m.live a ≡ false
        → a ≢ null
        → work a i m ≡ ok m'
        → Step m m'
    fails :
        (i : ℕ)
        → may_fail (m.threads i) ≡ true
        → Step m (record m { threads = update m.threads i (refused (m.threads i)) })
    leaves :
        (i : ℕ)
        → (m.threads i ≡ inserting done) ⊎ ((o : Option T) × (m.threads i ≡ removing (returned o)))
        → Step m (record m { threads = update m.threads i idle })
    deletes :
        (p : Ptr)
        → 0 < times p m.passed
        → ((i : ℕ) → hazard (m.threads i) ≢ some p)
        → Step m (record m { passed = erase p m.passed; live = update m.live p false })

  -- A new queue, and no thread in it.
  unfoldable pub initial : Ptr → Machine T
  initial node = record {
    queue = shared_queue node;
    live = λ p. p == node;
    passed = [];
    threads = λ _. idle;
    taken = λ p. p == node;
  }

  pub data Reaches (node : Ptr) : Machine T → Type ℓ where
    start : Reaches node (initial node)
    next : {m m' : Machine T} → Reaches node m → Step m m' → Reaches node m'

  -- The same nodes and threads in a hazard_queue, where the nodes that the head has left are retired.
  abbrev pub view : Machine T → Threads.Machine T
  view m = record {
    queue = record {
      head = m.queue.head;
      tail = m.queue.tail;
      insert_version = m.queue.insert_version;
      remove_version = m.queue.remove_version;
      next = m.queue.next;
      store = m.queue.store;
      initialized = m.queue.initialized;
      fresh = m.queue.fresh;
      retired = m.passed;
    };
    live = m.live;
    threads = m.threads;
    taken = m.taken;
  }
