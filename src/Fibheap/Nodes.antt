-- ===== src/Fibheap/Nodes.antt =====
-- The static helpers of fibheap.tpp on rings and trees of nodes.
use cpp_util.Prelude.{
  ℕ, zero, suc, ◌+◌, ◌-◌, ◌%◌, ◌^◌, not, ◌==◌, if◌then◌else◌, Run, ok, fault, out_of_fuel, ◌>>=◌,
  ◌>>◌, assert,
}
use cpp_util.Fibheap.Memory.{
  Ptr, null, Memory, deref, set_up, set_down, set_left, set_right, set_num_children, new_node,
  delete_node,
}

-- `size_t` arithmetic
abbrev pub incr : ℕ → ℕ
incr n = (n + 1) % 2 ^ 64

abbrev pub decr : ℕ → ℕ
decr n = (n + 2 ^ 64 - 1) % 2 ^ 64

module _ {ℓ} {T : Type ℓ} where
  -- Cut `n` out of its ring; its parent is kept.
  unfoldable pub rl_cut : Ptr → Memory T → Run (Memory T)
  rl_cut n m = do
    assert (not (n == null))
    (l, r) ← deref n m (m.left n, m.right n)
    a ← set_left r l m
    (l', r') ← deref n a (a.left n, a.right n)
    b ← set_right l' r' a
    c ← set_right n n b
    set_left n n c

  -- Join the rings of `main` and `insert` to the right of `main`.
  unfoldable pub rl_splice : Ptr → Ptr → Memory T → Run (Memory T)
  rl_splice main insert m = do
    assert (not (main == null))
    assert (not (insert == null))
    r_main ← deref main m (m.right main)
    r_ins ← deref insert m (m.left insert)
    a ← set_right main insert m
    b ← set_left insert main a
    c ← set_left r_main r_ins b
    set_right r_ins r_main c

  -- Cut the tree of `n` out completely.
  unfoldable pub rlt_cut : Ptr → Memory T → Run (Memory T)
  rlt_cut n m = do
    assert (not (n == null))
    up ← deref n m (m.up n)
    assert (not (up == null))
    next ← deref n m (m.right n)
    a ← rl_cut n m
    parent ← deref n a (a.up n)
    first ← deref parent a (a.down parent)
    b ← if first == n then set_down parent (if n == next then null else next) a else ok a
    count ← deref parent b (b.num_children parent)
    c ← set_num_children parent (decr count) b
    set_up n null c

  -- Hang the tree of `child`, which is cut out, under `parent`.
  unfoldable pub rlt_splice : Ptr → Ptr → Memory T → Run (Memory T)
  rlt_splice parent child m = do
    assert (not (parent == null))
    assert (not (child == null))
    count ← deref parent m (m.num_children parent)
    a ← set_num_children parent (incr count) m
    first ← deref parent a (a.down parent)
    b ← if first == null then set_down parent child a else rl_splice first child a
    set_up child parent b

  -- The loop over a ring that `do … while (del != stop)` makes, from `del`; `tree` deletes what
  -- hangs under a node.
  unfoldable pub delete_ring :
      ℕ → (Ptr → Memory T → Run (Memory T)) → Ptr → Ptr → Memory T → Run (Memory T)
  delete_ring zero tree del stop m = fault out_of_fuel
  delete_ring (suc fuel) tree del stop m = do
    a ← tree del m
    next ← deref del a (a.right del)
    b ← delete_node del a
    let rest = delete_ring fuel tree next stop b
    if next == stop then ok b else rest

  unfoldable pub delete_subtree : ℕ → Ptr → Memory T → Run (Memory T)
  unfolding delete_ring delete_node
  delete_subtree zero n m = fault out_of_fuel
  delete_subtree (suc fuel) n m = do
    assert (not (n == null))
    first ← deref n m (m.down n)
    let rest = delete_ring (suc fuel) (delete_subtree fuel) first first m
    if first == null then ok m else rest

  -- The other children of `n`, from `traverse`, copied behind `childcpy` under `cpy`; `tree`
  -- copies what hangs under a node.
  unfoldable pub copy_ring :
      ℕ
      → (Ptr → Ptr → Memory T → Run (Memory T))
      → Ptr
      → Ptr
      → Ptr
      → Ptr
      → Memory T
      → Run (Ptr × Memory T)
  copy_ring zero tree cpy childcpy traverse first m = fault out_of_fuel
  copy_ring (suc fuel) tree cpy childcpy traverse first m =
      let rest : Run (Ptr × Memory T) = do
        v ← deref traverse m (m.val traverse)
        let made = m.next
        a ← set_right childcpy made (new_node v m)
        count ← deref cpy a (a.num_children cpy)
        b ← set_num_children cpy (incr count) a
        c ← set_left made childcpy b
        d ← set_up made cpy c
        e ← tree made traverse d
        after ← deref traverse e (e.right traverse)
        copy_ring fuel tree cpy made after first e
      in if traverse == first then ok (childcpy, m) else rest

  -- `_copy_subtree(cpy, n)`: copies of the children of `n` under `cpy`.
  unfoldable pub copy_subtree : ℕ → Ptr → Ptr → Memory T → Run (Memory T)
  unfolding copy_ring new_node
  copy_subtree zero cpy n m = fault out_of_fuel
  copy_subtree (suc fuel) cpy n m = do
    assert (not (cpy == null))
    assert (not (n == null))
    first ← deref n m (m.down n)
    let copy : Run (Memory T) = do
      v ← deref first m (m.val first)
      let made = m.next
      a ← set_down cpy made (new_node v m)
      b ← set_up made cpy a
      count ← deref cpy b (b.num_children cpy)
      c ← set_num_children cpy (incr count) b
      d ← copy_subtree fuel made first c
      traverse ← deref first d (d.right first)
      (last, e) ← copy_ring (suc fuel) (copy_subtree fuel) cpy made traverse first d
      f ← set_right last made e
      set_left made last f
    if first == null then ok m else copy
