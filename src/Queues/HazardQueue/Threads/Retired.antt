-- ===== src/Queues/HazardQueue/Threads/Retired.antt =====
-- How often a node is among the retired ones, behind a push and behind a removal.
use cpp_util.Prelude.{
  suc, ◌+◌, ◌≡◌, refl, ◌≢◌, ◌⊎◌, inl, inr, List, [], ◌∷◌, ◌++◌, ◌==◌, if◌then◌else◌, arith,
  ℕ_discrete,
}
use cpp_util.Queues.HazardQueue.{Ptr}
use cpp_util.Queues.HazardQueue.Threads.{times, erase}

pub times-append :
    (p : Ptr) (rs : List Ptr) (h : Ptr)
    → times p (rs ++ h ∷ []) ≡ (if h == p then suc (times p rs) else times p rs)
times-append p [] h = ground arith
times-append p (r ∷ rs) h = ground (arith, times-append p rs h)

pub times-erase_self :
    (p : Ptr) (rs : List Ptr) → times p (erase p rs) + 1 ≡ times p rs ⊎ (times p rs ≡ 0)
times-erase_self p [] = inr refl
times-erase_self p (r ∷ rs) = elim (ℕ_discrete r p) [
  | yes e ↦ inl (ground (arith, e))
  | no ne ↦ elim (times-erase_self p rs) [
    | inl h ↦ inl (ground (arith, h, ne))
    | inr h ↦ inr (ground (arith, h, ne))
  ]
]

pub times-erase : (p r : Ptr) (rs : List Ptr) → p ≢ r → times r (erase p rs) ≡ times r rs
times-erase p r [] ne = refl
times-erase p r (x ∷ rs) ne = ground (arith, times-erase p r rs ne)
