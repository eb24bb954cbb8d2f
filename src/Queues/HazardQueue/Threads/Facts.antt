-- ===== src/Queues/HazardQueue/Threads/Facts.antt =====
-- What the locals of a thread say about the nodes.
use cpp_util.Prelude.{◌≡◌, refl, ◌≢◌, true, Option, none, some}
use cpp_util.Queues.HazardQueue.{Ptr}
use cpp_util.Queues.HazardQueue.Interleaved.{
  begun, loaded, single, seen_valid, apart, following, moved, claimed, returned,
}
use cpp_util.Queues.HazardQueue.Threads.{
  called, made, holding, helping, linked, counting, done, Worker, idle, inserting, removing, hazard,
}
use cpp_util.Queues.HazardQueue.Threads.Shape.{Shape, Order, IsPrivate, Leads, WasHead}

-- The node that a thread has made and not linked yet.
abbrev pub owned {ℓ} : {T : Type ℓ} → Worker T → Option Ptr
owned idle = none
owned (removing turn) = none
owned (inserting (called t)) = none
owned (inserting (made n)) = some n
owned (inserting (holding n p)) = some n
owned (inserting (helping n p m)) = some n
owned (inserting (linked n p)) = none
owned (inserting counting) = none
owned (inserting done) = none

abbrev pub Knows {ℓ} : {T : Type ℓ} → Shape → Order → Worker T → Type 0
Knows s o idle = Unit
Knows s o (inserting (called t)) = Unit
Knows s o (inserting (made n)) = IsPrivate s o n
Knows s o (inserting (holding n p)) = IsPrivate s o n × (o.linked p ≡ true)
Knows s o (inserting (helping n p m)) = IsPrivate s o n × Leads s o p m
Knows s o (inserting (linked n p)) = Leads s o p n
Knows s o (inserting counting) = Unit
Knows s o (inserting done) = Unit
Knows s o (removing begun) = Unit
Knows s o (removing (loaded h)) = WasHead s o h
Knows s o (removing (single h)) = WasHead s o h
Knows s o (removing (seen_valid h)) = WasHead s o h
Knows s o (removing (apart h)) = WasHead s o h × (h ≢ s.tail)
Knows s o (removing (following h n)) = WasHead s o h × (h ≢ s.tail) × Leads s o h n
Knows s o (removing (moved h)) = WasHead s o h
Knows s o (removing (claimed h)) = WasHead s o h
Knows s o (removing (returned v)) = Unit

-- What a change of the nodes keeps for a thread with the node `mine` and the protected node `held`.
pub record Keeps (mine held : Option Ptr) (s : Shape) (o : Order) (s' : Shape) (o' : Order)
    : Type 0 where
  pub private : (n : Ptr) → mine ≡ some n → IsPrivate s o n → IsPrivate s' o' n
  pub in_order : (p : Ptr) → held ≡ some p → o.linked p ≡ true → o'.linked p ≡ true
  pub leads : (p m : Ptr) → held ≡ some p → Leads s o p m → Leads s' o' p m
  pub was_head : (p : Ptr) → held ≡ some p → WasHead s o p → WasHead s' o' p
  pub beyond : (p : Ptr) → held ≡ some p → WasHead s o p → p ≢ s.tail → p ≢ s'.tail

module _ {ℓ} {T : Type ℓ} {s s' : Shape} {o o' : Order} where
  pub Keeps-Knows :
      (w : Worker T) → Keeps (owned w) (hazard w) s o s' o' → Knows s o w → Knows s' o' w
  Keeps-Knows idle k f = f
  Keeps-Knows (inserting (called t)) k f = f
  Keeps-Knows (inserting (made n)) k f = k.private n refl f
  Keeps-Knows (inserting (holding n p)) k (f, g) = (k.private n refl f, k.in_order p refl g)
  Keeps-Knows (inserting (helping n p m)) k (f, g) = (k.private n refl f, k.leads p m refl g)
  Keeps-Knows (inserting (linked n p)) k f = k.leads p n refl f
  Keeps-Knows (inserting counting) k f = f
  Keeps-Knows (inserting done) k f = f
  Keeps-Knows (removing begun) k f = f
  Keeps-Knows (removing (loaded h)) k f = k.was_head h refl f
  Keeps-Knows (removing (single h)) k f = k.was_head h refl f
  Keeps-Knows (removing (seen_valid h)) k f = k.was_head h refl f
  Keeps-Knows (removing (apart h)) k (f, g) = (k.was_head h refl f, k.beyond h refl f g)
  Keeps-Knows (removing (following h n)) k (f, g, l) =
      (k.was_head h refl f, k.beyond h refl f g, k.leads h n refl l)
  Keeps-Knows (removing (moved h)) k f = k.was_head h refl f
  Keeps-Knows (removing (claimed h)) k f = k.was_head h refl f
  Keeps-Knows (removing (returned v)) k f = f
