-- ===== src/Queues/HazardQueue/Threads/Moves.antt =====
-- Every step of every thread, against a list of nodes that is put at at its end and taken from at its
-- front.
use mathlib.Core.List.{append-nil}
use cpp_util.Prelude.{
  ℕ, ◌≡◌, refl, ◌≢◌, inl, inr, ap, ◌∙◌, sym, true, false, List, [], ◌∷◌, ◌++◌, ◌==◌, arith,
  ℕ_discrete, subst, Returns, returns, Returns-ok, eq→==, ne→==, Bool-cases,
}
use cpp_util.Queues.HazardQueue.{Ptr, null, update, new_node, cas_tail}
use cpp_util.Queues.HazardQueue.Interleaved.{
  Turn, begun, loaded, single, seen_valid, apart, following, moved, claimed, returned, step,
}
use cpp_util.Queues.HazardQueue.Threads.{
  Insertion, called, made, holding, helping, linked, counting, done, Worker, idle, inserting,
  removing, Machine, insert, target, is_live, act, work, deleted, Step, enqueues, dequeues, works,
  fails, leaves, deletes, Reaches,
}
use cpp_util.Queues.HazardQueue.Threads.Shape.{Shape, Order, IsQueued, IsPrivate, IsOrdered}
use cpp_util.Queues.HazardQueue.Threads.Grow.{end-newest}
use cpp_util.Queues.HazardQueue.Threads.Sound.{IsSound, Knows-here}
use cpp_util.Queues.HazardQueue.Threads.Facts.{owned}
use cpp_util.Queues.HazardQueue.Threads.Kept.{IsKept}
use cpp_util.Queues.HazardQueue.Threads.Safe.{Reaches-Sound}
use cpp_util.Queues.HazardQueue.Threads.Line.{Line, end, more}
use cpp_util.Queues.HazardQueue.Threads.Ends.{Balanced, balance}

-- What a step may make of the list: nothing; or a thread links the node that it has made, whose value
-- nobody has claimed; or a thread moves the head off the first node, and will look at its value.
pub data Moves {ℓ} {T : Type ℓ} (m m' : Machine T) (ns : List Ptr) : List Ptr → Type ℓ where
  stays : Moves m m' ns ns
  adds :
      (i : ℕ) (n p : Ptr)
      → m.threads i ≡ inserting (holding n p)
      → m'.threads i ≡ inserting (linked n p)
      → m'.queue.initialized n ≡ true
      → m'.taken n ≡ false
      → Moves m m' ns (ns ++ n ∷ [])
  removes :
      (i : ℕ) (h n : Ptr) {rest : List Ptr}
      → ns ≡ h ∷ rest
      → m.threads i ≡ removing (following h n)
      → m'.threads i ≡ removing (moved h)
      → Moves m m' ns rest

module _ {s : Shape} {o : Order} (v : IsOrdered s o) where
  next_queued : {p : Ptr} → IsQueued s o p → s.next p ≢ null → IsQueued s o (s.next p)
  next_queued {p} q some_node = (v.follows p q (λ e. some_node (ap s.next e ∙ v.ends))).0

  -- A node out of the queue is made.
  pub line_grown :
      {p : Ptr} {ns : List Ptr} (a : Ptr)
      → s.live a ≡ false
      → IsQueued s o p
      → Line s.next p ns
      → Line (update s.next a null) p ns
  line_grown {p} a free q (end e) = end (ground (arith, v.alive p q.in_order, e))
  line_grown {p} a free q (more {ns = ns} some_node rest) =
      let same : update s.next a null p ≡ s.next p = ground (arith, v.alive p q.in_order) in
      more (λ e. some_node (sym same ∙ e))
        (subst (λ x. Line (update s.next a null) x ns) (sym same)
          (line_grown a free (next_queued q some_node) rest))

  -- A node is linked behind the last one, which is `p`.
  pub line_joined :
      {r : Ptr} {ns : List Ptr} (n p : Ptr)
      → IsPrivate s o n
      → o.linked p ≡ true
      → s.next p ≡ null
      → IsQueued s o r
      → Line s.next r ns
      → Line (update s.next p n) r (ns ++ n ∷ [])
  line_joined {r} n p new there none_next q (end e) =
      let last : p ≡ r = end-newest v p there none_next ∙ sym (end-newest v r q.in_order e) in
      let to : update s.next p n r ≡ n = ground (arith, last) in
      let other : p ≢ n = λ e. ground (arith, there, ap o.linked e, new.unlinked) in
      more (λ e. new.some_node (sym to ∙ e))
        (subst (λ x. Line (update s.next p n) x (n ∷ [])) (sym to)
          (end (ground (arith, new.ends, other))))
  line_joined {r} n p new there none_next q (more {ns = ns} some_node rest) =
      let same : update s.next p n r ≡ s.next r = ground (arith, none_next, some_node, ap s.next) in
      more (λ e. some_node (sym same ∙ e))
        (subst (λ x. Line (update s.next p n) x (ns ++ n ∷ [])) (sym same)
          (line_joined n p new there none_next (next_queued q some_node) rest))

-- The list without its first node, when another follows.
pub line_tail :
    {next : Ptr → Ptr} {h : Ptr} {ks : List Ptr}
    → Line next h ks
    → next h ≢ null
    → (rest : List Ptr) × Line next (next h) rest × (ks ≡ h ∷ rest)
line_tail (end e) ne = absurd (ne e)
line_tail (more {ns = rest} ne k) ne' = (rest, k, refl)

-- A step of the thread `i` leaves the line from the head as it is, or makes one of the moves.
abbrev pub Moved {ℓ} : {T : Type ℓ} → ℕ → Machine T → List Ptr → Machine T → Type ℓ
Moved i m ns m' =
    (ns' : List Ptr) × Line m'.queue.next m'.queue.head ns'
    × Moves m m' ns ns'
    × Balanced (m.threads i) (m'.threads i) ns ns'

module _ {ℓ} {T : Type ℓ} {m : Machine T} {o : Order} (v : IsSound m o) (k : IsKept m o)
    {ns : List Ptr} (l : Line m.queue.next m.queue.head ns) where
  tail_moved : (p n : Ptr) → Line (cas_tail p n m.queue).next (cas_tail p n m.queue).head ns
  unfolding cas_tail
  tail_moved p n = elim (Bool-cases (m.queue.tail == p)) [ inl e ↦ rw e l | inr e ↦ rw e l ]

  insertion-Moved :
      (a : Ptr) (i : ℕ) (turn : Insertion T)
      → m.threads i ≡ inserting turn
      → m.live a ≡ false
      → Returns (Moved i m ns) (act a i (inserting turn) m)
  unfolding act insert target is_live new_node
  insertion-Moved a i (called t) e free = returns (
    ns,
    line_grown v.ordered a free v.ordered.head l,
    stays,
    balance m.threads i _ _ _ e (append-nil ns),
  )
  insertion-Moved a i (made n) e free =
      returns (ns, l, stays, balance m.threads i _ _ _ e (append-nil ns))
  insertion-Moved a i (holding n p) e free =
      let (new, there) = Knows-here v i e in
      elim (ℕ_discrete (m.queue.next p) null) [
        | yes none_next ↦
            rw (eq→== (m.queue.next p) null none_next, v.ordered.alive p there)
              (returns (
                _,
                line_joined v.ordered n p new there none_next v.ordered.head l,
                adds i n p e (rw (eq→== i i refl) refl) (k.own i n (ap owned e)).0
                    (k.own i n (ap owned e)).1,
                balance m.threads i _ _ _ e refl,
              ))
        | no some_next ↦
            rw (ne→== (m.queue.next p) null some_next, v.ordered.alive p there)
              (returns (ns, l, stays, balance m.threads i _ _ _ e (append-nil ns)))
      ]
  insertion-Moved a i (helping n p s) e free =
      returns (ns, tail_moved p s, stays, balance m.threads i _ _ _ e (append-nil ns))
  insertion-Moved a i (linked n p) e free =
      returns (ns, tail_moved p n, stays, balance m.threads i _ _ _ e (append-nil ns))
  insertion-Moved a i counting e free =
      returns (ns, l, stays, balance m.threads i _ _ _ e (append-nil ns))
  insertion-Moved a i done e free =
      returns (ns, l, stays, balance m.threads i _ _ _ e (append-nil ns))

  removal-Moved :
      (a : Ptr) (i : ℕ) (turn : Turn T)
      → m.threads i ≡ removing turn
      → Returns (Moved i m ns) (act a i (removing turn) m)
  unfolding act target is_live step
  removal-Moved a i begun e = returns (ns, l, stays, balance m.threads i _ _ _ e (append-nil ns))
  removal-Moved a i (loaded h) e =
      returns (ns, l, stays, balance m.threads i _ _ _ e (append-nil ns))
  removal-Moved a i (single h) e =
      rw (v.ordered.alive h (Knows-here v i e).in_order)
        (returns (ns, l, stays, balance m.threads i _ _ _ e (append-nil ns)))
  removal-Moved a i (seen_valid h) e =
      rw (v.ordered.alive h (Knows-here v i e).in_order)
        (returns (ns, l, stays, balance m.threads i _ _ _ e (append-nil ns)))
  removal-Moved a i (apart h) e =
      rw (v.ordered.alive h (Knows-here v i e).0.in_order)
        (returns (ns, l, stays, balance m.threads i _ _ _ e (append-nil ns)))
  removal-Moved a i (following h n) e =
      let (was, beyond, leads) = Knows-here v i e in
      elim (ℕ_discrete m.queue.head h) [
        | yes same ↦
            let to : m.queue.next m.queue.head ≡ n = ap m.queue.next same ∙ leads.to in
            let (rest, after, first) = line_tail l (λ e. leads.some_node (sym to ∙ e)) in
            rw (eq→== m.queue.head h same) (
              returns (
                rest,
                subst (λ x. Line m.queue.next x rest) to after,
                removes i h n (first ∙ ap (λ x. x ∷ rest) same) e (rw (eq→== i i refl) refl),
                balance m.threads i _ _ _ e (append-nil ns ∙ first ∙ ap (λ x. x ∷ rest) same),
              ))
        | no other ↦
            rw (ne→== m.queue.head h other)
              (returns (ns, l, stays, balance m.threads i _ _ _ e (append-nil ns)))
      ]
  removal-Moved a i (moved h) e =
      rw (v.ordered.alive h (Knows-here v i e).in_order)
        (returns (ns, l, stays, balance m.threads i _ _ _ e (append-nil ns)))
  removal-Moved a i (claimed h) e =
      rw (v.ordered.alive h (Knows-here v i e).in_order)
        (returns (ns, l, stays, balance m.threads i _ _ _ e (append-nil ns)))
  removal-Moved a i (returned r) e =
      returns (ns, l, stays, balance m.threads i _ _ _ e (append-nil ns))

  pub work-Moved : (a : Ptr) (i : ℕ) → m.live a ≡ false → Returns (Moved i m ns) (work a i m)
  unfolding work act
  work-Moved a i free = by_place (m.threads i) refl
    where
      by_place : (w : Worker T) → m.threads i ≡ w → Returns (Moved i m ns) (act a i w m)
      by_place idle e = returns (ns, l, stays, balance m.threads i _ _ _ e (append-nil ns))
      by_place (inserting turn) e = insertion-Moved a i turn e free
      by_place (removing turn) e = removal-Moved a i turn e

module _ {ℓ} {T : Type ℓ} where
  -- Whatever thread takes the next step, from a machine that the threads reach from a new queue and
  -- whose nodes from the head on are `ns`: the nodes from the head on are `ns` again; or `ns` and
  -- behind it the node that the thread has made, whose value nobody has claimed; or `ns` without the
  -- first, whose value the thread will look at next. The compare_exchange_weak of `next_` does not
  -- fail without a reason.
  pub Step-Moves :
      {node : Ptr} {m m' : Machine T} {ns : List Ptr}
      → node ≢ null
      → Reaches node m
      → Line m.queue.next m.queue.head ns
      → Step m m'
      → (ns' : List Ptr) × Line m'.queue.next m'.queue.head ns' × Moves m m' ns ns'
  unfolding deleted
  Step-Moves {ns} some_node r l (enqueues i t e) = (ns, l, stays)
  Step-Moves {ns} some_node r l (dequeues i e) = (ns, l, stays)
  Step-Moves {m = m} {ns = ns} some_node r l (works i a free used e) =
      let (o, sound, kept) = Reaches-Sound some_node r in
      let (ns', l', moves, _) =
        Returns-ok (subst (Returns (Moved i m ns)) e (work-Moved sound kept l a i free)) in
      (ns', l', moves)
  Step-Moves {ns} some_node r l (fails i e) = (ns, l, stays)
  Step-Moves {ns} some_node r l (leaves i e) = (ns, l, stays)
  Step-Moves {ns} some_node r l (deletes p waits unheld) = (ns, l, stays)
