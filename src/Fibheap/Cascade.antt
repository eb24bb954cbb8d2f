-- ===== src/Fibheap/Cascade.antt =====
-- The loop of `decrease_key`: marked ancestors become roots.
use cpp_util.Prelude.{
  ℕ, zero, suc, ◌<◌, ◌≡◌, refl, ◌∙◌, Bool, true, false, ◌==◌, ok, Returns, returns, Returns-map,
  Returns-if, ==→ne, arith,
}
use cpp_util.Fibheap.Memory.{Ptr, null, Memory, update}
use cpp_util.Fibheap.Nodes.{rl_splice}
use cpp_util.Fibheap.Methods.{cascade}
use cpp_util.Fibheap.Rings.{spliced, rl_splice-spliced, torn, rlt_cut-torn}
use cpp_util.Fibheap.Family.{IsFamily, raised-IsFamily}
use cpp_util.Fibheap.Forest.{IsForest, spliced-IsForest, torn-IsForest, marked-IsForest}

module _ {ℓ} {T : Type ℓ} where
  -- The nodes and their values are the same, and no root has got a parent.
  pub record IsKept (m m' : Memory T) : Type ℓ where
    pub next : m'.next ≡ m.next
    pub live : m'.live ≡ m.live
    pub val : m'.val ≡ m.val
    pub root : (p : Ptr) → m.up p ≡ null → m'.up p ≡ null

  pub IsKept-trans : {a b c : Memory T} → IsKept a b → IsKept b c → IsKept a c
  IsKept-trans p q = record {
    next = q.next ∙ p.next;
    live = q.live ∙ p.live;
    val = q.val ∙ p.val;
    root = λ x u. q.root x (p.root x u);
  }

module _ {ℓ} {T : Type ℓ} (comp : T → T → Bool) (rank : Ptr → ℕ) where
  -- A forest of whole families with the same nodes.
  abbrev pub Regrown : Memory T → Memory T → Type ℓ
  Regrown m m' = IsForest comp rank m' × IsFamily m' × IsKept m m'

  module _ (m : Memory T) (w : IsForest comp rank m) (min n : Ptr) (live_min : m.live min ≡ true)
      (root : m.up min ≡ null) (live_n : m.live n ≡ true) where
    -- `n` moved from under its parent to the roots.
    abbrev pub raised : Memory T
    raised = spliced min n (torn m w.rings n live_n)

    pub raised-IsForest : IsForest comp rank raised
    raised-IsForest =
        spliced-IsForest comp rank (torn m w.rings n live_n) (torn-IsForest comp rank m w n live_n)
          min n live_min live_n (ground (arith, root)) (ground arith)

    pub raised-IsKept : IsKept m raised
    raised-IsKept = record { next = refl; live = refl; val = refl; root = λ p u. ground arith }

    pub splice-raised : rl_splice min n (torn m w.rings n live_n) ≡ ok raised
    splice-raised =
        rl_splice-spliced (torn m w.rings n live_n) (torn-IsForest comp rank m w n live_n).rings min
          n live_min live_n

  -- The loop climbs at most to the root, and leaves a forest of whole families.
  pub cascade-Regrown :
      (fuel min n : ℕ) (m : Memory T)
      → IsForest comp rank m
      → IsFamily m
      → ((p : Ptr) → m.live p ≡ true → p < m.next)
      → m.live min ≡ true
      → m.up min ≡ null
      → m.live n ≡ true
      → rank n < fuel
      → Returns (Regrown m) (cascade fuel min n m)
  unfolding cascade
  cascade-Regrown zero min n m w fam bound lm um ln f = absurd (omega arith)
  cascade-Regrown (suc fuel) min n m w fam bound lm um ln f = rw ln (
      Returns-if (m.up n == null)
        (λ root. returns (w, fam, record { next = refl; live = refl; val = refl; root = λ p u. u }))
        (λ inner.
          let below = ==→ne (m.up n) null inner in
          let live_up = w.parents n ln below in
          let rise = w.rising n ln below in
          let a = record m { marked = update m.marked n false } in
          let wa = marked-IsForest comp rank m w n false in
          Returns-if (m.marked n)
            (λ marked.
              rw (rlt_cut-torn a wa.rings n ln inner live_up, splice-raised a wa min n lm um ln)
                (Returns-map
                  (cascade-Regrown fuel min (m.up n) (raised a wa min n lm um ln)
                    (raised-IsForest a wa min n lm um ln)
                    (raised-IsFamily a wa.rings wa.level
                      (record { gathered = fam.gathered; children = fam.children }) n ln below min
                      (torn-IsForest comp rank a wa n ln).level lm um (bound n ln))
                    bound lm (ground (arith, um)) live_up (omega arith))
                  λ m' (w', fam', k). (
                    w',
                    fam',
                    IsKept-trans
                        (record {
                          next = refl;
                          live = refl;
                          val = refl;
                          root = λ p u. ground arith;
                        })
                        k,
                  )))
            (λ unmarked. returns (
              marked-IsForest comp rank m w n true,
              record { gathered = fam.gathered; children = fam.children },
              record { next = refl; live = refl; val = refl; root = λ p u. u },
            ))))
