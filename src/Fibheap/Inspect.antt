-- ===== src/Fibheap/Inspect.antt =====
-- src/fibheap/fibheap.tpp: the constructor from a range, the destructor, `_print_fibheap` and
-- `_tree_check`, the check of a build with FIB_CHECK.
use cpp_util.Prelude.{
  ℕ, zero, suc, Bool, true, false, not, ◌||◌, Option, none, some, List, [], ◌∷◌, ◌++◌, ◌==◌,
  if◌then◌else◌, Run, ok, fault, out_of_fuel, ◌>>=◌, ◌>>◌, assert,
}
use cpp_util.Fibheap.Memory.{Ptr, null, Memory, deref}
use cpp_util.Fibheap.Methods.{Fibheap, fibheap, empty, top, clear, push, consistency_check}

-- What is printed behind the heading: a value with that of its parent, or an end of a line.
pub data Printed {ℓ} (T : Type ℓ) : Type ℓ where
  entry : T → Option T → Printed T
  newline : Printed T

abbrev pub member : Ptr → List Ptr → Bool
member p [] = false
member p (q ∷ qs) = p == q || member p qs

abbrev is_empty : List Ptr → Bool
is_empty [] = true
is_empty (p ∷ ps) = false

unfoldable pub get_size : Fibheap → ℕ
get_size f = f.size

module _ {ℓ κ} {T : Type ℓ} {Iterator : Type κ} (comp : T → T → Bool) (convert : Iterator → T) where
  -- The loop over the iterators; `push(i)` takes the iterator by its conversion to T.
  unfoldable pub push_range : List Iterator → Fibheap → Memory T → Run (Fibheap × Memory T)
  unfolding push
  push_range [] f m = ok (f, m)
  push_range (i ∷ is) f m = do (_, f', a) ← push comp (convert i) f m; push_range is f' a

  -- The constructor from the iterators from `first` to `last`.
  unfoldable pub fibheap_range : List Iterator → Memory T → Run (Fibheap × Memory T)
  unfolding push_range
  fibheap_range iterators m = push_range iterators fibheap m

module _ {ℓ} {T : Type ℓ} where
  unfoldable pub destroy : ℕ → Fibheap → Memory T → Run (Fibheap × Memory T)
  unfolding clear
  destroy fuel f m = clear fuel f m

  -- The first loop of `_tree_check`, over the ring of `root` from `n`.
  unfoldable pub check_ring : ℕ → Ptr → Ptr → List Ptr → Memory T → Run (List Ptr)
  check_ring zero n root seen m = fault out_of_fuel
  check_ring (suc fuel) n root seen m = do
    assert (not (member n seen))
    (l, r, u) ← deref n m (m.left n, m.right n, m.up n)
    assert (not (l == null))
    assert (not (r == null))
    (rl, ru) ← deref r m (m.left r, m.up r)
    assert (rl == n)
    assert (ru == u)
    let rest = check_ring fuel r root (n ∷ seen) m
    if r == root then ok (n ∷ seen) else rest

  -- The second loop, which counts the ring and compares the counts of children; `check` is the
  -- recursive call.
  unfoldable pub check_children :
      ℕ
      → (Ptr → List Ptr → Run (ℕ × List Ptr))
      → Ptr
      → Ptr
      → ℕ
      → List Ptr
      → Memory T
      → Run (ℕ × List Ptr)
  check_children zero check n root ctr seen m = fault out_of_fuel
  check_children (suc fuel) check n root ctr seen m = do
    d ← deref n m (m.down n)
    (actual_num_children, seen') ← check d seen
    assert (actual_num_children == m.num_children n)
    let rest = check_children fuel check (m.right n) root (suc ctr) seen' m
    if m.right n == root then ok (suc ctr, seen') else rest

  unfoldable pub tree_check : ℕ → Ptr → List Ptr → Memory T → Run (ℕ × List Ptr)
  unfolding check_ring check_children
  tree_check zero root seen m = fault out_of_fuel
  tree_check (suc fuel) root seen m =
      let check : Run (ℕ × List Ptr) = do
        seen' ← check_ring (suc fuel) root root seen m
        check_children (suc fuel) (λ p s. tree_check fuel p s m) root root 0 seen' m
      in if root == null then ok (0, seen) else check

  -- The nodes of a ring, from `n` on to before `stop`, pushed at the back of the queue.
  unfoldable pub push_ring : ℕ → Ptr → Ptr → List Ptr → Memory T → Run (List Ptr)
  push_ring zero n stop queue m = fault out_of_fuel
  push_ring (suc fuel) n stop queue m = do
    r ← deref n m (m.right n)
    let rest = push_ring fuel r stop (queue ++ n ∷ []) m
    if r == stop then ok (queue ++ n ∷ []) else rest

  -- The value of a node and that of its parent.
  unfoldable pub show_node : Ptr → Memory T → Run (Printed T)
  show_node n m = do
    (v, up) ← deref n m (m.val n, m.up n)
    let child : Run (Printed T) = do w ← deref up m (m.val up); ok (entry v (some w))
    if up == null then ok (entry v none) else child

  -- The loop over the queue, in which a null pointer stands for the end of a line.
  unfoldable pub print_queue : ℕ → List Ptr → Memory T → Run (List (Printed T))
  unfolding push_ring show_node
  print_queue zero queue m = fault out_of_fuel
  print_queue (suc fuel) [] m = ok []
  print_queue (suc fuel) (n ∷ queue) m =
      let line_end : Run (List (Printed T)) = do
        printed ← print_queue fuel (if is_empty queue then [] else queue ++ null ∷ []) m
        ok (newline ∷ printed)
      in let node : Run (List (Printed T)) = do
        shown ← show_node n m
        d ← deref n m (m.down n)
        queue' ← if d == null then ok queue else push_ring fuel d d queue m
        printed ← print_queue fuel queue' m
        ok (shown ∷ printed)
        in if n == null then line_end else node

  -- The size and the least value, and the rest.
  unfoldable pub print_fibheap : ℕ → Fibheap → Memory T → Run (ℕ × Option T × List (Printed T))
  unfolding consistency_check empty top push_ring print_queue
  print_fibheap fuel f m =
      let all : Run (ℕ × Option T × List (Printed T)) = do
        least ← top f m
        roots ← push_ring fuel f.min f.min [] m
        printed ← print_queue fuel (roots ++ null ∷ []) m
        ok (f.size, some least, printed ++ newline ∷ [])
      in consistency_check f m >> (if empty f then ok (f.size, none, []) else all)
