-- ===== src/Dict.antt =====
-- std::unordered_map as the caches use it: an association list under a decidable equality of keys
-- (the template's `Pred`). The order of the entries is never observed.
pub mod Laws
use cpp_util.Prelude.{◌≡◌, Bool, true, false, Option, none, some, List, [], ◌∷◌, ite}

module _ {ℓ} {K V : Type ℓ} (dec : Discrete K) where
  -- `find(k)`, `none` for `end()`
  unfoldable pub find : K → List (K × V) → Option V
  find k [] = none
  find k ((j, v) ∷ m) = ite (dec j k) (some v) (find k m)

  -- `emplace(k, v)`: a key that is there keeps its value, and the answer is false.
  unfoldable pub emplace : K → V → List (K × V) → List (K × V) × Bool
  emplace k v m = elim (find k m) [ none ↦ ((k, v) ∷ m, true) | some _ ↦ (m, false) ]

  -- `erase(k)`
  unfoldable pub erase : K → List (K × V) → List (K × V)
  erase k [] = []
  erase k ((j, v) ∷ m) = ite (dec j k) m ((j, v) ∷ erase k m)

  -- A write through a reference to the value at `k`.
  unfoldable pub modify : K → (V → V) → List (K × V) → List (K × V)
  modify k f [] = []
  modify k f ((j, v) ∷ m) = ite (dec j k) ((j, f v) ∷ m) ((j, v) ∷ modify k f m)

  -- No key occurs twice.
  abbrev pub IsUnique : List (K × V) → Type ℓ
  IsUnique [] = Unit
  IsUnique ((k, v) ∷ m) = ((find k m ≡ none) × IsUnique m)
