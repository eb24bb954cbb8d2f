-- ===== src/Queues/HazardQueue/Threads/Ends.antt =====
-- What a step of a thread puts at the end of the queue, and what it takes from the front.
use cpp_util.Prelude.{ℕ, ◌≡◌, refl, List, [], ◌∷◌, ◌++◌, ◌==◌, if◌then◌else◌, eq→==}
use cpp_util.Queues.HazardQueue.{Ptr}
use cpp_util.Queues.HazardQueue.Interleaved.{following, moved}
use cpp_util.Queues.HazardQueue.Threads.{holding, linked, Worker, inserting, removing}

module _ {ℓ} {T : Type ℓ} where
  -- The node that a thread links, if it goes on from the first place to the second.
  abbrev pub link_of : Worker T → Worker T → List Ptr
  link_of (inserting (holding n p)) (inserting (linked _ _)) = n ∷ []
  link_of _ _ = []

  -- The node that it moves the head off.
  abbrev pub off_of : Worker T → Worker T → List Ptr
  off_of (removing (following h n)) (removing (moved _)) = h ∷ []
  off_of _ _ = []

  abbrev pub Balanced : Worker T → Worker T → List Ptr → List Ptr → Type 0
  Balanced w w' ns ns' = (ns ++ link_of w w') ≡ (off_of w w' ++ ns')

  -- The thread that takes the step is put at its next place.
  pub balance :
      (threads : ℕ → Worker T) (i : ℕ) {w : Worker T} (w' : Worker T) (ns ns' : List Ptr)
      → threads i ≡ w
      → Balanced w w' ns ns'
      → Balanced (threads i) (if i == i then w' else threads i) ns ns'
  balance threads i w' ns ns' e h = rw (e, eq→== i i refl) h
