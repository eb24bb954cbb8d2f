-- ===== src/Queues/HazardQueue/Threads/History.antt =====
-- What all threads together make of the queue, from the first step on.
use mathlib.Core.List.{append-nil, append_assoc}
use cpp_util.Prelude.{◌≡◌, refl, ◌≢◌, ap, ◌∙◌, sym, List, [], ◌∷◌, ◌++◌, subst, Returns, Returns-ok}
use cpp_util.Queues.HazardQueue.{Ptr, null, hazard_queue}
use cpp_util.Queues.HazardQueue.Threads.{
  Machine, deleted, Step, enqueues, dequeues, works, fails, leaves, deletes, initial, Reaches,
  start, next,
}
use cpp_util.Queues.HazardQueue.Threads.Safe.{Reaches-Sound}
use cpp_util.Queues.HazardQueue.Threads.Line.{Line, end, more, Reaches-InLine}
use cpp_util.Queues.HazardQueue.Threads.Ends.{link_of, off_of}
use cpp_util.Queues.HazardQueue.Threads.Moves.{Moved, work-Moved}

-- The nodes of a line are determined.
pub Line-same :
    {next : Ptr → Ptr} {p : Ptr} {ns ks : List Ptr} → Line next p ns → Line next p ks → ns ≡ ks
Line-same (end e) (end f) = refl
Line-same (end e) (more u k) = absurd (u e)
Line-same (more u l) (end f) = absurd (u f)
Line-same {p = p} (more u l) (more w k) = ap (λ x. p ∷ x) (Line-same l k)

-- One more step behind a run that links `joined` and leaves `gone`.
pub behind_run :
    {next : Ptr → Ptr} {p node : Ptr} {ns ns' : List Ptr}
    → (joined gone ks new left : List Ptr) → node ∷ joined ≡ gone ++ ks
    → Line next p ns'
    → Line next p ns
    → ks ++ new ≡ left ++ ns'
    → node ∷ (joined ++ new) ≡ (gone ++ left) ++ ns
behind_run {ns = ns} joined gone ks new left before l' l even =
    ap (λ x. x ++ new) before
    ∙ append_assoc gone ks new
    ∙ ap (λ x. gone ++ x) (even ∙ ap (λ x. left ++ x) (Line-same l' l))
    ∙ sym (append_assoc gone left ns)

module _ {ℓ} {T : Type ℓ} where
  -- The node that a step links.
  abbrev pub link_in : {m m' : Machine T} → Step m m' → List Ptr
  link_in {m} {m'} (works i a free used e) = link_of (m.threads i) (m'.threads i)
  link_in _ = []

  -- The node that it moves the head off.
  abbrev pub off_in : {m m' : Machine T} → Step m m' → List Ptr
  off_in {m} {m'} (works i a free used e) = off_of (m.threads i) (m'.threads i)
  off_in _ = []

  -- All nodes that the threads have linked, in the order of these steps.
  abbrev pub links : {node : Ptr} {m : Machine T} → Reaches node m → List Ptr
  links start = []
  links (next r s) = links r ++ link_in s

  -- All nodes that the head has moved off.
  abbrev pub offs : {node : Ptr} {m : Machine T} → Reaches node m → List Ptr
  offs start = []
  offs (next r s) = offs r ++ off_in s

  -- The nodes in line behind a step.
  Step-line :
      {node : Ptr} {m m' : Machine T} {ns : List Ptr}
      → node ≢ null
      → Reaches node m
      → Line m.queue.next m.queue.head ns
      → (s : Step m m')
      → (ns' : List Ptr) × Line m'.queue.next m'.queue.head ns'
        × (ns ++ link_in s ≡ off_in s ++ ns')
  unfolding deleted
  Step-line {ns} some_node r l (enqueues i t e) = (ns, l, append-nil ns)
  Step-line {ns} some_node r l (dequeues i e) = (ns, l, append-nil ns)
  Step-line {m = m} {ns = ns} some_node r l (works i a free used e) =
      let (o, sound, kept) = Reaches-Sound some_node r in
      let (ns', l', moves, even) =
        Returns-ok (subst (Returns (Moved i m ns)) e (work-Moved sound kept l a i free)) in
      (ns', l', even)
  Step-line {ns} some_node r l (fails i e) = (ns, l, append-nil ns)
  Step-line {ns} some_node r l (leaves i e) = (ns, l, append-nil ns)
  Step-line {ns} some_node r l (deletes p waits unheld) = (ns, l, append-nil ns)

  -- In every run from a new queue, whatever the threads do and however often an address is used
  -- again: the first node and then those that were linked, in the order in which they were, are the
  -- nodes that the head has moved off, in the order in which it has, and then those in line from the
  -- head on. The compare_exchange_weak of `next_` does not fail without a reason.
  pub Reaches-fifo :
      {node : Ptr} {m : Machine T} {ns : List Ptr}
      → node ≢ null
      → (r : Reaches node m) → Line m.queue.next m.queue.head ns
      → node ∷ links r ≡ offs r ++ ns
  unfolding initial hazard_queue
  Reaches-fifo some_node start l = Line-same (end refl) l
  Reaches-fifo {node} {ns = ns} some_node (next r s) l =
      let before = Reaches-InLine some_node r in
      let (ns', l', even) = Step-line some_node r before.line s in
      behind_run (links r) (offs r) _ (link_in s) (off_in s) (Reaches-fifo some_node r before.line)
        l' l even
