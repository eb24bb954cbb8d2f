-- ===== src/Queues/HazardQueue/Threads.antt =====
-- src/queues/hazard_queue.tpp: any number of threads in `enqueue` and `try_dequeue`, step by step. A
-- step has at most one access to what the threads share, and a schedule picks whose step is next.
-- `acquire` is one step, as at the load that confirms it the pointer is published and still there.
-- A hazard_ptr is taken to protect its pointer up to the last access through it.
pub mod Shape
pub mod Facts
pub mod Grow
pub mod Retired
pub mod Shrink
pub mod Sound
pub mod Kept
pub mod Link
pub mod Free
pub mod Kinds
mod Insert
mod Remove
pub mod Safe
pub mod Line
pub mod Ends
pub mod Moves
pub mod History
mod Tests
use cpp_util.Prelude.{
  ℕ, suc, ◌+◌, ◌%◌, ◌^◌, ◌<◌, ◌≡◌, ◌≢◌, ◌⊎◌, Bool, true, false, Option, none, some, List, [], ◌∷◌,
  ◌==◌, if◌then◌else◌, Run, ok, fault, undefined, ◌>>=◌,
}
use cpp_util.Queues.HazardQueue.{Ptr, null, update, HazardQueue, hazard_queue, new_node, cas_tail}
use cpp_util.Queues.HazardQueue.Interleaved.{
  Turn, begun, loaded, single, seen_valid, apart, following, moved, claimed, returned, step,
}

-- Where a call of `enqueue` stands: the first pointer is the new node, the second `hazard_tail`.
pub data Insertion {ℓ} (T : Type ℓ) : Type ℓ where
  called : T → Insertion T  -- before `new node`
  made : Ptr → Insertion T  -- before `hazard_tail.acquire(tail_)`
  holding : Ptr → Ptr → Insertion T  -- before the compare_exchange of `next_`
  helping : Ptr → Ptr → Ptr → Insertion T  -- before that of `tail_` in the loop; last, `newnext`
  linked : Ptr → Ptr → Insertion T  -- before that of `tail_` behind the loop
  counting : Insertion T  -- before the count
  done : Insertion T

pub data Worker {ℓ} (T : Type ℓ) : Type ℓ where
  idle : Worker T
  inserting : Insertion T → Worker T
  removing : Turn T → Worker T

pub record Machine {ℓ} (T : Type ℓ) : Type ℓ where
  pub queue : HazardQueue T
  pub live : Ptr → Bool  -- the nodes between `new` and `delete`
  pub threads : ℕ → Worker T
  pub taken : Ptr → Bool  -- the nodes that a call has claimed, or that never had a value

-- How often a node waits for its deletion.
abbrev pub times : Ptr → List Ptr → ℕ
times p [] = 0
times p (r ∷ rs) = if r == p then suc (times p rs) else times p rs

-- The list without the first entry that is `p`.
abbrev pub erase : Ptr → List Ptr → List Ptr
erase p [] = []
erase p (r ∷ rs) = if r == p then rs else r ∷ erase p rs

unfoldable pub is_live : (Ptr → Bool) → Option Ptr → Bool
is_live live none = true
is_live live (some p) = live p

module _ {ℓ} {T : Type ℓ} where
  -- One step of `enqueue`; `new` gives the address `a`.
  unfoldable pub insert : Ptr → Insertion T → HazardQueue T → Insertion T × HazardQueue T
  unfolding new_node cas_tail
  insert a (called t) q = let (n, b) = new_node t (record q { fresh = a }) in (made n, b)
  insert a (made n) q = (holding n q.tail, q)
  insert a (holding n p) q =
      if q.next p == null
      then (linked n p, record q { next = update q.next p n })
      else (helping n p (q.next p), q)
  insert a (helping n p m) q = (made n, cas_tail p m q)
  insert a (linked n p) q = (counting, cas_tail p n q)
  insert a counting q = (done, record q { insert_version = (q.insert_version + 1) % 2 ^ 64 })
  insert a done q = (done, q)

  -- The node whose fields the next step of a thread accesses.
  unfoldable pub target : Worker T → Option Ptr
  target (inserting (holding n p)) = some p
  target (removing (single h)) = some h
  target (removing (seen_valid h)) = some h
  target (removing (apart h)) = some h
  target (removing (moved h)) = some h
  target (removing (claimed h)) = some h
  target (removing _) = none
  target (inserting _) = none
  target idle = none

  -- The nodes that are there behind a step.
  abbrev pub allocated : Ptr → Worker T → (Ptr → Bool) → Ptr → Bool
  allocated a (inserting (called t)) live = update live a true
  allocated a (inserting _) live = live
  allocated a (removing _) live = live
  allocated a idle live = live

  abbrev pub advance : Ptr → Worker T → HazardQueue T → Worker T × HazardQueue T
  advance a idle q = (idle, q)
  advance a (inserting turn) q = let (turn', q') = insert a turn q in (inserting turn', q')
  advance a (removing turn) q = let (turn', q') = step turn q in (removing turn', q')

  -- A node is claimed when a call gets so far; a new node is not.
  abbrev pub take : Ptr → Worker T → Worker T → (Ptr → Bool) → Ptr → Bool
  take a (inserting (called t)) w' taken = update taken a false
  take a w (removing (claimed h)) taken = update taken h true
  take a w w' taken = taken

  -- The next step of the thread `i`, which stands at `w`; an access to a node that is not there is
  -- undefined behaviour.
  unfoldable pub act : Ptr → ℕ → Worker T → Machine T → Run (Machine T)
  unfolding insert step target is_live
  act a i w m =
      let (w', q) = advance a w m.queue in
      if is_live m.live (target w)
      then ok record {
        queue = q;
        live = allocated a w m.live;
        threads = update m.threads i w';
        taken = take a w w' m.taken;
      }
      else fault undefined

  unfoldable pub work : Ptr → ℕ → Machine T → Run (Machine T)
  unfolding act
  work a i m = act a i (m.threads i) m

  -- Where a thread stands behind a compare_exchange_weak that fails although the value is as
  -- expected; in another place it stays.
  unfoldable pub refused : Worker T → HazardQueue T → Worker T
  refused (inserting (holding n p)) q = inserting (helping n p (q.next p))
  refused (inserting (helping n p m)) q = inserting (made n)
  refused (removing (following h n)) q = removing begun
  refused w q = w

  -- Before a compare_exchange_weak, but that of `next_`.
  abbrev pub may_fail : Worker T → Bool
  may_fail (inserting (helping n p m)) = true
  may_fail (removing (following h n)) = true
  may_fail w = false

  -- The thread `i` goes on for three steps after such a failure.
  unfoldable pub unlucky : Ptr → ℕ → Machine T → Run (Machine T)
  unfolding refused work
  unlucky a i m = do
    b ← work a i (record m { threads = update m.threads i (refused (m.threads i) m.queue) })
    c ← work a i b
    work a i c

  -- The pointer that the hazard_ptr of a thread protects.
  abbrev pub hazard : Worker T → Option Ptr
  hazard idle = none
  hazard (inserting (holding n p)) = some p
  hazard (inserting (helping n p m)) = some p
  hazard (inserting (linked n p)) = some p
  hazard (inserting _) = none
  hazard (removing begun) = none
  hazard (removing (loaded h)) = some h
  hazard (removing (single h)) = some h
  hazard (removing (seen_valid h)) = some h
  hazard (removing (apart h)) = some h
  hazard (removing (following h n)) = some h
  hazard (removing (moved h)) = some h
  hazard (removing (claimed h)) = some h
  hazard (removing (returned o)) = none

  -- A retired node is deleted.
  unfoldable pub deleted : Ptr → Machine T → Machine T
  deleted p m = record m {
    queue = record m.queue { retired = erase p m.queue.retired };
    live = update m.live p false;
  }

  -- What the threads, the allocator and the hazard pointers may do. A compare_exchange_weak may fail
  -- without a reason, but not that of `next_`.
  pub data Step (m : Machine T) : Machine T → Type ℓ where
    enqueues :
        (i : ℕ) (t : T)
        → m.threads i ≡ idle
        → Step m (record m { threads = update m.threads i (inserting (called t)) })
    dequeues :
        (i : ℕ)
        → m.threads i ≡ idle
        → Step m (record m { threads = update m.threads i (removing begun) })
    works :
        (i : ℕ) (a : Ptr) {m' : Machine T}
        → m.live a ≡ false
        → a ≢ null
        → work a i m ≡ ok m'
        → Step m m'
    fails :
        (i : ℕ)
        → may_fail (m.threads i) ≡ true
        → Step m (record m { threads = update m.threads i (refused (m.threads i) m.queue) })
    leaves :
        (i : ℕ)
        → (m.threads i ≡ inserting done) ⊎ ((o : Option T) × (m.threads i ≡ removing (returned o)))
        → Step m (record m { threads = update m.threads i idle })
    deletes :
        (p : Ptr)
        → 0 < times p m.queue.retired
        → ((i : ℕ) → hazard (m.threads i) ≢ some p)
        → Step m (deleted p m)

  -- A new queue, and no thread in it.
  unfoldable pub initial : Ptr → Machine T
  initial node = record {
    queue = hazard_queue node;
    live = λ p. p == node;
    threads = λ _. idle;
    taken = λ p. p == node;
  }

  pub data Reaches (node : Ptr) : Machine T → Type ℓ where
    start : Reaches node (initial node)
    next : {m m' : Machine T} → Reaches node m → Step m m' → Reaches node m'
