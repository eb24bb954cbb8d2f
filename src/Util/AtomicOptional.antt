-- ===== src/Util/AtomicOptional.antt =====
-- src/util/atomic_optional.hpp and atomic_optional.tpp: `atomic_optional`, whose flag many threads
-- may take down. Each call is one atomic step.
use cpp_util.Prelude.{
  ℕ, zero, suc, ◌≡◌, refl, ap, Bool, true, false, Option, none, some, List, [], ◌∷◌, if◌then◌else◌,
  replicate,
}

pub record AtomicOptional {ℓ} (T : Type ℓ) : Type ℓ where
  pub initialized : Bool
  pub store : Option T  -- the object in the bytes

module _ {ℓ} {T : Type ℓ} where
  -- The default constructor.
  abbrev pub atomic_optional : AtomicOptional T
  atomic_optional = record { initialized = false; store = none }

  -- The constructor from a T&&.
  abbrev pub atomic_optional_from : T → AtomicOptional T
  atomic_optional_from rval = record { initialized = true; store = some rval }

  unfoldable pub valid : AtomicOptional T → Bool
  valid o = o.initialized

  -- `invalidate()`: the compare_exchange_strong, and its result.
  unfoldable pub invalidate : AtomicOptional T → Bool × AtomicOptional T
  invalidate o = if o.initialized then (true, record o { initialized = false }) else (false, o)

  -- The destructor: what lives in the bytes behind it.
  unfoldable pub destroy : AtomicOptional T → Option T
  destroy o = if o.initialized then none else o.store

  -- The results of `n` calls of `invalidate()`, by whatever threads, in the order of their steps.
  unfoldable pub invalidations : ℕ → AtomicOptional T → List Bool
  unfolding invalidate
  invalidations zero o = []
  invalidations (suc n) o = let (result, o') = invalidate o in result ∷ invalidations n o'

  lost :
      (n : ℕ) (s : Option T)
      → invalidations n (record { initialized = false; store = s }) ≡ replicate n false
  unfolding invalidations invalidate
  lost zero s = refl
  lost (suc n) s = ap (λ l. false ∷ l) (lost n s)

  -- Of any calls of `invalidate()` on a valid object, by whatever threads, the first wins and all
  -- others lose.
  pub invalidations-valid :
      (n : ℕ) (o : AtomicOptional T)
      → valid o ≡ true
      → invalidations (suc n) o ≡ true ∷ replicate n false
  unfolding invalidations invalidate valid
  invalidations-valid n o up = rw up (ap (λ l. true ∷ l) (lost n o.store))
