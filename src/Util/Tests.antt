-- ===== src/Util/Tests.antt =====
-- The theorems of the optionals at concrete objects.
use cpp_util.Prelude.{ℕ, ◌≡◌, refl, true, false, none, some, ◌∷◌, replicate, ok, Returns}
use cpp_util.Util.Optional.{
  Optional, optional, IsValid, vacant, holding, move_assign, move_assign-Moved, destroy,
}
use cpp_util.Util.AtomicOptional.{atomic_optional_from, valid, invalidations, invalidations-valid}

abbrev five : Optional ℕ
five = record { store = some 5; initialized = true }

move_assign-Moved_example :
    Returns
      (λ (o', left).
        (o' ≡ five)
        × IsValid left
        × (left.initialized ≡ true)
        × (destroy o' ≡ ok none)
        × (destroy left ≡ ok none))
      (move_assign (λ _. 0) five optional)
move_assign-Moved_example = move_assign-Moved (λ _. 0) five optional (holding 5) vacant

invalidations-valid_example :
    invalidations 3 (atomic_optional_from {T = ℕ} 5) ≡ true ∷ replicate 2 false
unfolding valid
invalidations-valid_example = invalidations-valid 2 (atomic_optional_from {T = ℕ} 5) refl
