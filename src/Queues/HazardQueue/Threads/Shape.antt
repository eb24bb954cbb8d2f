-- ===== src/Queues/HazardQueue/Threads/Shape.antt =====
-- The part of a machine's state that its nodes' order depends on, and its invariant.
use cpp_util.Prelude.{ℕ, suc, ◌≤◌, ◌<◌, ◌≡◌, ◌≢◌, Bool, true, false, List}
use cpp_util.Queues.HazardQueue.{Ptr, null, HazardQueue}
use cpp_util.Queues.HazardQueue.Threads.{times}

pub record Shape : Type 0 where
  pub head : Ptr
  pub tail : Ptr
  pub next : Ptr → Ptr
  pub retired : List Ptr
  pub live : Ptr → Bool

abbrev pub shape {ℓ} : {T : Type ℓ} → HazardQueue T → (Ptr → Bool) → Shape
shape q live = record {
  head = q.head;
  tail = q.tail;
  next = q.next;
  retired = q.retired;
  live = live;
}

-- Which nodes have been linked and are not deleted, the place of each in the order in which they
-- were linked, and the one that was linked last.
pub record Order : Type 0 where
  pub linked : Ptr → Bool
  pub rank : Ptr → ℕ
  pub newest : Ptr

-- In the queue, from the head on.
pub record IsQueued (s : Shape) (o : Order) (p : Ptr) : Type 0 where
  pub in_order : o.linked p ≡ true
  pub kept : times p s.retired ≡ 0

-- A node that a thread has made and not linked yet.
pub record IsPrivate (s : Shape) (o : Order) (p : Ptr) : Type 0 where
  pub alive : s.live p ≡ true
  pub unlinked : o.linked p ≡ false
  pub ends : s.next p ≡ null
  pub some_node : p ≢ null

-- `m` was linked behind `p`.
pub record Leads (s : Shape) (o : Order) (p m : Ptr) : Type 0 where
  pub in_order : o.linked p ≡ true
  pub to : s.next p ≡ m
  pub some_node : m ≢ null

-- A node that was the head once: if it is not retired, it still is.
pub record WasHead (s : Shape) (o : Order) (p : Ptr) : Type 0 where
  pub in_order : o.linked p ≡ true
  pub at_head : times p s.retired ≡ 0 → p ≡ s.head

pub record IsOrdered (s : Shape) (o : Order) : Type 0 where
  pub head : IsQueued s o s.head
  pub tail : IsQueued s o s.tail
  pub newest : IsQueued s o o.newest
  pub ends : s.next o.newest ≡ null
  pub apart : o.rank s.head ≤ o.rank s.tail
  pub from_head : (p : Ptr) → IsQueued s o p → o.rank s.head ≤ o.rank p
  pub to_newest : (p : Ptr) → IsQueued s o p → o.rank p ≤ o.rank o.newest
  pub unique : (p r : Ptr) → IsQueued s o p → IsQueued s o r → o.rank p ≡ o.rank r → p ≡ r
  pub follows :
      (p : Ptr)
      → IsQueued s o p
      → p ≢ o.newest
      → IsQueued s o (s.next p) × (o.rank (s.next p) ≡ suc (o.rank p))
  pub once : (p : Ptr) → times p s.retired ≤ 1
  pub passed : (p : Ptr) → 0 < times p s.retired → (o.linked p ≡ true) × (s.next p ≢ null)
  pub alive : (p : Ptr) → o.linked p ≡ true → s.live p ≡ true
  pub address : (p : Ptr) → o.linked p ≡ true → p ≢ null
