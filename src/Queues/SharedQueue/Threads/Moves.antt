-- ===== src/Queues/SharedQueue/Threads/Moves.antt =====
-- Every step of every thread, against a list of nodes that is put at at its end and taken from at its
-- front.
use mathlib.Core.List.{append-nil}
use cpp_util.Prelude.{
  ℕ, ◌≡◌, refl, ◌≢◌, inl, inr, ap, ◌∙◌, sym, false, List, ◌==◌, ℕ_discrete, subst, Returns, returns,
  ◌∷◌, Returns-ok, eq→==, ne→==, Bool-cases,
}
use cpp_util.Queues.HazardQueue.{Ptr, null}
use cpp_util.Queues.HazardQueue.Interleaved.{
  Turn, begun, loaded, single, seen_valid, apart, following, moved, claimed, returned,
}
use cpp_util.Queues.HazardQueue.Threads.{
  Insertion, called, made, holding, helping, linked, counting, done, Worker, idle, inserting,
  removing, target, is_live,
}
use cpp_util.Queues.HazardQueue.Threads.Shape.{Order}
use cpp_util.Queues.HazardQueue.Threads.Sound.{IsSound, Knows-here}
use cpp_util.Queues.HazardQueue.Threads.Facts.{owned}
use cpp_util.Queues.HazardQueue.Threads.Kept.{IsKept}
use cpp_util.Queues.HazardQueue.Threads.Line.{Line}
use cpp_util.Queues.HazardQueue.Threads.Ends.{Balanced, balance}
use cpp_util.Queues.HazardQueue.Threads.Moves.{
  Moves, stays, adds, removes, line_grown, line_joined, line_tail,
}
use cpp_util.Queues.SharedQueue.{new_node}
use cpp_util.Queues.SharedQueue.Threads.{
  Machine, insert, step, act, work, Step, enqueues, dequeues, works, fails, leaves, deletes,
  Reaches, view,
}
use cpp_util.Queues.SharedQueue.Threads.Safe.{Reaches-Sound}

-- A step of the thread `i` leaves the line from the head as it is, or makes one of the moves.
abbrev pub Moved {ℓ} : {T : Type ℓ} → ℕ → Machine T → List Ptr → Machine T → Type ℓ
Moved i m ns m' =
    (ns' : List Ptr) × Line m'.queue.next m'.queue.head ns'
    × Moves (view m) (view m') ns ns'
    × Balanced (m.threads i) (m'.threads i) ns ns'

module _ {ℓ} {T : Type ℓ} {m : Machine T} {o : Order} (v : IsSound (view m) o)
    (k : IsKept (view m) o) {ns : List Ptr} (l : Line m.queue.next m.queue.head ns) where
  insertion-Moved :
      (a : Ptr) (i : ℕ) (turn : Insertion T)
      → m.threads i ≡ inserting turn
      → m.live a ≡ false
      → Returns (Moved i m ns) (act a i (inserting turn) m)
  unfolding act insert target is_live new_node
  insertion-Moved a i (called t) e free = returns (
    ns,
    line_grown v.ordered a free v.ordered.head l,
    stays,
    balance m.threads i _ _ _ e (append-nil ns),
  )
  insertion-Moved a i (made n) e free =
      returns (ns, l, stays, balance m.threads i _ _ _ e (append-nil ns))
  insertion-Moved a i (holding n p) e free =
      let (new, there) = Knows-here v i e in
      elim (ℕ_discrete (m.queue.next p) null) [
        | yes none_next ↦
            rw (eq→== (m.queue.next p) null none_next, v.ordered.alive p there)
              (returns (
                _,
                line_joined v.ordered n p new there none_next v.ordered.head l,
                adds i n p e (rw (eq→== i i refl) refl) (k.own i n (ap owned e)).0
                    (k.own i n (ap owned e)).1,
                balance m.threads i _ _ _ e refl,
              ))
        | no some_next ↦
            rw (ne→== (m.queue.next p) null some_next, v.ordered.alive p there)
              (returns (ns, l, stays, balance m.threads i _ _ _ e (append-nil ns)))
      ]
  insertion-Moved a i (helping n p s) e free = elim (Bool-cases (m.queue.tail == p)) [
    | inl at ↦ rw at (returns (ns, l, stays, balance m.threads i _ _ _ e (append-nil ns)))
    | inr gone ↦ rw gone (returns (ns, l, stays, balance m.threads i _ _ _ e (append-nil ns)))
  ]
  insertion-Moved a i (linked n p) e free = elim (Bool-cases (m.queue.tail == p)) [
    | inl at ↦ rw at (returns (ns, l, stays, balance m.threads i _ _ _ e (append-nil ns)))
    | inr gone ↦ rw gone (returns (ns, l, stays, balance m.threads i _ _ _ e (append-nil ns)))
  ]
  insertion-Moved a i counting e free =
      returns (ns, l, stays, balance m.threads i _ _ _ e (append-nil ns))
  insertion-Moved a i done e free =
      returns (ns, l, stays, balance m.threads i _ _ _ e (append-nil ns))

  removal-Moved :
      (a : Ptr) (i : ℕ) (turn : Turn T)
      → m.threads i ≡ removing turn
      → Returns (Moved i m ns) (act a i (removing turn) m)
  unfolding act target is_live step
  removal-Moved a i begun e = returns (ns, l, stays, balance m.threads i _ _ _ e (append-nil ns))
  removal-Moved a i (loaded h) e =
      returns (ns, l, stays, balance m.threads i _ _ _ e (append-nil ns))
  removal-Moved a i (single h) e =
      rw (v.ordered.alive h (Knows-here v i e).in_order)
        (returns (ns, l, stays, balance m.threads i _ _ _ e (append-nil ns)))
  removal-Moved a i (seen_valid h) e =
      rw (v.ordered.alive h (Knows-here v i e).in_order)
        (returns (ns, l, stays, balance m.threads i _ _ _ e (append-nil ns)))
  removal-Moved a i (apart h) e =
      rw (v.ordered.alive h (Knows-here v i e).0.in_order)
        (returns (ns, l, stays, balance m.threads i _ _ _ e (append-nil ns)))
  removal-Moved a i (following h n) e =
      let (was, beyond, leads) = Knows-here v i e in
      elim (ℕ_discrete m.queue.head h) [
        | yes same ↦
            let to : m.queue.next m.queue.head ≡ n = ap m.queue.next same ∙ leads.to in
            let (rest, after, first) = line_tail l (λ e. leads.some_node (sym to ∙ e)) in
            rw (eq→== m.queue.head h same) (
              returns (
                rest,
                subst (λ x. Line m.queue.next x rest) to after,
                removes i h n (first ∙ ap (λ x. x ∷ rest) same) e (rw (eq→== i i refl) refl),
                balance m.threads i _ _ _ e (append-nil ns ∙ first ∙ ap (λ x. x ∷ rest) same),
              ))
        | no other ↦
            rw (ne→== m.queue.head h other)
              (returns (ns, l, stays, balance m.threads i _ _ _ e (append-nil ns)))
      ]
  removal-Moved a i (moved h) e =
      rw (v.ordered.alive h (Knows-here v i e).in_order)
        (returns (ns, l, stays, balance m.threads i _ _ _ e (append-nil ns)))
  removal-Moved a i (claimed h) e =
      rw (v.ordered.alive h (Knows-here v i e).in_order)
        (returns (ns, l, stays, balance m.threads i _ _ _ e (append-nil ns)))
  removal-Moved a i (returned r) e =
      returns (ns, l, stays, balance m.threads i _ _ _ e (append-nil ns))

  pub work-Moved : (a : Ptr) (i : ℕ) → m.live a ≡ false → Returns (Moved i m ns) (work a i m)
  unfolding work act
  work-Moved a i free = by_place (m.threads i) refl
    where
      by_place : (w : Worker T) → m.threads i ≡ w → Returns (Moved i m ns) (act a i w m)
      by_place idle e = returns (ns, l, stays, balance m.threads i _ _ _ e (append-nil ns))
      by_place (inserting turn) e = insertion-Moved a i turn e free
      by_place (removing turn) e = removal-Moved a i turn e

module _ {ℓ} {T : Type ℓ} where
  -- Whatever thread takes the next step, from a machine that the threads reach from a new
  -- shared_queue and whose nodes from the head on are `ns`: the nodes from the head on are `ns` again;
  -- or `ns` and behind it the node that the thread has made, whose value nobody has claimed; or `ns`
  -- without the first, whose value the thread will look at next. The compare_exchange_weak of `next`
  -- does not fail without a reason.
  pub shared_Step-Moves :
      {node : Ptr} {m m' : Machine T} {ns : List Ptr}
      → node ≢ null
      → Reaches node m
      → Line m.queue.next m.queue.head ns
      → Step m m'
      → (ns' : List Ptr) × Line m'.queue.next m'.queue.head ns' × Moves (view m) (view m') ns ns'
  shared_Step-Moves {ns} some_node r l (enqueues i t e) = (ns, l, stays)
  shared_Step-Moves {ns} some_node r l (dequeues i e) = (ns, l, stays)
  shared_Step-Moves {m = m} {ns = ns} some_node r l (works i a free used e) =
      let (o, sound, kept) = Reaches-Sound some_node r in
      let (ns', l', moves, _) =
        Returns-ok (subst (Returns (Moved i m ns)) e (work-Moved sound kept l a i free)) in
      (ns', l', moves)
  shared_Step-Moves {ns} some_node r l (fails i e) = (ns, l, stays)
  shared_Step-Moves {ns} some_node r l (leaves i e) = (ns, l, stays)
  shared_Step-Moves {ns} some_node r l (deletes p waits unheld) = (ns, l, stays)
