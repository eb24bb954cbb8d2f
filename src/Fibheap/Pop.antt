-- ===== src/Fibheap/Pop.antt =====
-- `pop` and `_join_nodes`. The logarithm that sizes the vector of trees is a parameter.
use cpp_util.Prelude.{
  ℕ, zero, suc, ◌+◌, ◌-◌, Bool, true, false, not, List, ◌++◌, length, get_elem?, set, replicate,
  ltb, ◌==◌, if◌then◌else◌, Run, ok, fault, undefined, out_of_fuel, ◌>>=◌, ◌>>◌, or_else,
}
use cpp_util.Fibheap.Memory.{Ptr, null, Memory, deref, set_up, set_marked, delete_node}
use cpp_util.Fibheap.Nodes.{decr, rl_cut, rl_splice, rlt_splice}
use cpp_util.Fibheap.Methods.{Fibheap, consistency_check}

-- `log_phi size` stands for `(size_t) log((double) size)/log(PHI)`.
unfoldable pub approx_childnum : (ℕ → ℕ) → ℕ → ℕ
approx_childnum log_phi size = if ltb size 2 then size else log_phi size

-- `while(degree >= trees.size()) trees.push_back(nullptr);`
unfoldable pub pad : ℕ → List Ptr → List Ptr
pad degree trees = trees ++ replicate (degree + 1 - length trees) null

module _ {ℓ} {T : Type ℓ} where
  -- What `pop` makes of the roots behind `top`: no parent, no mark.
  unfoldable pub reset_roots : ℕ → Ptr → Ptr → Memory T → Run (Memory T)
  reset_roots zero i top m = fault out_of_fuel
  reset_roots (suc fuel) i top m =
      let rest : Run (Memory T) = do
        a ← set_up i null m
        b ← set_marked i false a
        next ← deref i b (b.right i)
        reset_roots fuel next top b
      in if i == top then ok m else rest

  -- The children of `min` join the roots; the new `top`, null when nothing is left.
  unfoldable pub raise_children : Ptr → Memory T → Run (Ptr × Memory T)
  unfolding rl_cut rl_splice
  raise_children min m = do
    top ← deref min m (m.right min)
    first ← deref min m (m.down min)
    let join : Run (Ptr × Memory T) = do
      a ← rl_cut min m
      b ← if first == null then ok a else rl_splice top first a
      ok (top, b)
    if top == min then ok (first, m) else join

  module _ (comp : T → T → Bool) where
    -- The vector of trees, the flag and the root that `_join_nodes(trees, n)` gives.
    unfoldable pub join_nodes :
        ℕ → List Ptr → Ptr → Memory T → Run (List Ptr × Bool × Ptr × Memory T)
    unfolding pad rl_cut rlt_splice
    join_nodes zero trees n m = fault out_of_fuel
    join_nodes (suc fuel) trees n m = do
      degree ← deref n m (m.num_children n)
      let padded = pad degree trees
      same_deg ← or_else (get_elem? padded degree) undefined
      let join : Run (List Ptr × Bool × Ptr × Memory T) = do
        v ← deref same_deg m (m.val same_deg)
        w ← deref n m (m.val n)
        let parent = if comp v w then same_deg else n
        let child = if comp v w then n else same_deg
        a ← rl_cut child m
        b ← rlt_splice parent child a
        (trees', again, root, c) ← join_nodes fuel (set padded degree null) parent b
        ok (trees', true, root, c)
      if same_deg == null then ok (set padded degree n, false, n, m) else join

    -- The `while(true)` of `pop`; the result is the new `min`.
    unfoldable pub consolidate : ℕ → List Ptr → Ptr → Ptr → Memory T → Run (Ptr × Memory T)
    unfolding join_nodes
    consolidate zero trees top min m = fault out_of_fuel
    consolidate (suc fuel) trees top min m = do
      (trees', again, root, a) ← join_nodes (suc fuel) trees top m
      let top' = if again then root else top
      v ← deref top' a (a.val top')
      w ← deref min a (a.val min)
      let min' = if comp v w then top' else if not (comp w v) then top' else min
      next ← deref top' a (a.right top')
      degree ← deref next a (a.num_children next)
      seen ←
          if ltb degree (length trees')
          then (or_else (get_elem? trees' degree) undefined >>= λ t. ok (t == next))
          else ok false
      let rest = consolidate fuel trees' next min' a
      if seen then ok (min', a) else rest

    unfoldable pub pop : (ℕ → ℕ) → ℕ → Fibheap → Memory T → Run (Ptr × Fibheap × Memory T)
    unfolding approx_childnum consolidate reset_roots raise_children delete_node consistency_check
    pop log_phi fuel f m = do
      consistency_check f m
      let size = decr f.size
      let shrink : Run (Ptr × Fibheap × Memory T) = do
        (top, a) ← raise_children f.min m
        b ← delete_node f.min a
        let regroup : Run (Ptr × Fibheap × Memory T) = do
          c ← set_up top null b
          d ← set_marked top false c
          next ← deref top d (d.right top)
          e ← reset_roots fuel next top d
          (min, g) ← consolidate fuel (replicate (approx_childnum log_phi size) null) top top e
          ok (f.min, record { min = min; size = size }, g)
        if top == null then ok (f.min, record { min = null; size = size }, b) else regroup
      if f.min == null then ok (null, f, m) else shrink
