-- ===== src/Fibheap/Methods.antt =====
-- The methods of `fibheap`. A heap is its `min` and `_size`; the nodes are in memory. The model is
-- of the build in which UASSERT is on and FIB_CHECK is 0: a release build with ASSERTIONS=1.
use cpp_util.Prelude.{
  ℕ, zero, suc, Bool, true, false, not, ◌&&◌, ◌==◌, if◌then◌else◌, Run, ok, fault, out_of_fuel,
  ◌>>=◌, ◌>>◌, assert,
}
use cpp_util.Fibheap.Memory.{
  Ptr, null, Memory, deref, set_val, set_marked, set_left, set_right, new_node, delete_node,
}
use cpp_util.Fibheap.Nodes.{incr, rl_splice, rlt_cut, delete_ring, delete_subtree, copy_subtree}

pub record Fibheap : Type 0 where
  pub min : Ptr
  pub size : ℕ  -- `_size`, a size_t

-- The constructor from a comparator.
abbrev pub fibheap : Fibheap
fibheap = record { min = null; size = 0 }

unfoldable pub empty : Fibheap → Bool
empty f = f.min == null

module _ {ℓ} {T : Type ℓ} where
  unfoldable pub consistency_check : Fibheap → Memory T → Run (Unit {0})
  consistency_check f m = if f.size == 0 then assert (f.min == null) else (do
    assert (not (f.min == null))
    (l, r) ← deref f.min m (m.left f.min, m.right f.min)
    assert (not (l == null) && not (r == null))
    up ← deref f.min m (m.up f.min)
    assert (up == null))

  unfoldable pub top : Fibheap → Memory T → Run T
  top f m = deref f.min m (m.val f.min)

  -- `fuel` bounds the depth of the trees and the length of the rings.
  unfoldable pub clear : ℕ → Fibheap → Memory T → Run (Fibheap × Memory T)
  unfolding consistency_check delete_ring delete_subtree delete_node
  clear fuel f m = do
    consistency_check f m
    let all : Run (Fibheap × Memory T) = do
      a ← delete_ring fuel (delete_subtree fuel) f.min f.min m
      ok (fibheap, a)
    if f.min == null then ok (f, m) else all

  -- The move assignment; the second heap is what is left of `other`.
  unfoldable pub move_assign : ℕ → Fibheap → Fibheap → Memory T → Run (Fibheap × Fibheap × Memory T)
  unfolding clear
  move_assign fuel other f m = do (f', a) ← clear fuel f m; ok (other, fibheap, a)

  -- The roots right of `min`, copied behind `n`.
  unfoldable pub copy_roots : ℕ → Ptr → Ptr → Ptr → Memory T → Run (Ptr × Memory T)
  unfolding copy_subtree
  copy_roots zero n traverse stop m = fault out_of_fuel
  copy_roots (suc fuel) n traverse stop m =
      let rest : Run (Ptr × Memory T) = do
        v ← deref traverse m (m.val traverse)
        let made = m.next
        a ← set_right n made (new_node v m)
        b ← set_left made n a
        c ← copy_subtree fuel made traverse b
        after ← deref traverse c (c.right traverse)
        copy_roots fuel made after stop c
      in if traverse == stop then ok (n, m) else rest

  -- The copy assignment, for another object.
  unfoldable pub copy_assign : ℕ → Fibheap → Fibheap → Memory T → Run (Fibheap × Memory T)
  unfolding clear copy_roots
  copy_assign fuel other f m = do
    (f', a) ← clear fuel f m
    let copy : Run (Fibheap × Memory T) = do
      v ← deref other.min a (a.val other.min)
      let made = a.next
      b ← copy_subtree fuel made other.min (new_node v a)
      traverse ← deref other.min b (b.right other.min)
      (last, c) ← copy_roots fuel made traverse other.min b
      d ← set_right last made c
      e ← set_left made last d
      ok (record { min = made; size = other.size }, e)
    if other.min == null then ok (f', a) else copy

  -- The copy constructor.
  unfoldable pub copy : ℕ → Fibheap → Memory T → Run (Fibheap × Memory T)
  unfolding copy_assign
  copy fuel other m = copy_assign fuel other fibheap m

  -- The move constructor; the second heap is what is left of `other`.
  unfoldable pub move : ℕ → Fibheap → Memory T → Run (Fibheap × Fibheap × Memory T)
  unfolding move_assign
  move fuel other m = move_assign fuel other fibheap m

  -- The `while` of `decrease_key`, from `n`.
  unfoldable pub cascade : ℕ → Ptr → Ptr → Memory T → Run (Memory T)
  cascade zero min n m = fault out_of_fuel
  cascade (suc fuel) min n m = do
    up ← deref n m (m.up n)
    let round : Run (Memory T) = do
      mark ← deref n m (m.marked n)
      let cut : Run (Memory T) = do
        a ← set_marked n false m
        b ← rlt_cut n a
        c ← rl_splice min n b
        cascade fuel min up c
      if mark then cut else set_marked n true m
    if up == null then ok m else round

  module _ (comp : T → T → Bool) where
    unfoldable pub insert_new_node : Ptr → Fibheap → Memory T → Run (Fibheap × Memory T)
    insert_new_node added f m =
        let join : Run (Fibheap × Memory T) = do
          a ← rl_splice f.min added m
          v ← deref added a (a.val added)
          w ← deref f.min a (a.val f.min)
          ok (if comp v w then record f { min = added } else f, a)
        in if f.min == null then ok (record f { min = added }, m) else join

    -- `push(p)`, with the new node's key.
    unfoldable pub push : T → Fibheap → Memory T → Run (Ptr × Fibheap × Memory T)
    push p f m = do
      consistency_check f m
      let added = m.next
      (f', a) ← insert_new_node added (record f { size = incr f.size }) (new_node p m)
      ok (added, f', a)

    -- `emplace(args...)`; `make` is the constructor of T.
    unfoldable pub emplace {κ} :
        {Args : Type κ} → (Args → T) → Args → Fibheap → Memory T → Run (Ptr × Fibheap × Memory T)
    emplace make args f m = do
      consistency_check f m
      let added = m.next
      (f', a) ← insert_new_node added (record f { size = incr f.size }) (new_node (make args) m)
      ok (added, f', a)

    -- What both overloads of `decrease_key` do behind their checks.
    unfoldable pub decrease : ℕ → Ptr → T → Fibheap → Memory T → Run (Fibheap × Memory T)
    decrease fuel changed v f m = do
      a ← set_val changed v m
      b ← set_marked changed false a
      n ← deref changed b (b.up changed)
      let lift : Run (Memory T) = do
        c ← rlt_cut changed b
        d ← rl_splice f.min changed c
        cascade fuel f.min n d
      e ← if n == null then ok b else lift
      w ← deref f.min e (e.val f.min)
      x ← deref changed e (e.val changed)
      ok (if comp x w then record f { min = changed } else f, e)

    -- `decrease_key(key, const value_type&)`
    unfoldable pub decrease_key : ℕ → Ptr → T → Fibheap → Memory T → Run (Fibheap × Memory T)
    decrease_key fuel key v f m = do
      assert (not (key == null))
      consistency_check f m
      old ← deref key m (m.val key)
      assert (comp v old)
      decrease fuel key v f m

    -- `decrease_key(key, value_type&&)`, which does not look at the old value.
    unfoldable pub decrease_key_move : ℕ → Ptr → T → Fibheap → Memory T → Run (Fibheap × Memory T)
    decrease_key_move fuel key v f m = do
      assert (not (key == null))
      consistency_check f m
      decrease fuel key v f m
