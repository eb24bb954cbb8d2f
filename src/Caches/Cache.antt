-- ===== src/Caches/Cache.antt =====
-- src/caches/cache.hpp: the abstract class `cache`, as a record of its methods on a state `S`, and the
-- behaviour it documents. `_print_cache` of a cache is with the cache that overrides it.
use cpp_util.Prelude.{ℕ, ◌≤◌, ◌≡◌, ◌≢◌, Bool, true, false, Option, none, some, ◌==◌, Run, Returns}

pub record Cache {ℓ} (K V S : Type ℓ) : Type ℓ where
  pub is_empty : S → Bool  -- empty
  pub get_size : S → ℕ  -- size
  pub max : S → ℕ  -- get_max_size
  pub put_pair : K → V → S → Run (S × Bool)  -- insert
  pub get_value : K → S → Run (S × Option V)  -- lookup
  pub remove_all : S → Run S  -- clear

-- What the methods promise, of the states that are `Fine`; `Countable k s` says that the count of
-- lookups of `k` can still grow, and `contents s` is the cache as a map.
pub record Contract {ℓ} {K V S : Type ℓ} (cache : Cache K V S) (Fine : S → Type ℓ)
    (Countable : K → S → Type ℓ) (contents : S → K → Option V) : Type ℓ where
  pub emptiness : (s : S) → Fine s → cache.is_empty s ≡ (cache.get_size s == 0)
  pub bounded : (s : S) → Fine s → cache.get_size s ≤ cache.max s
  -- A new key is there afterwards; others may have gone, but none has come or changed.
  pub inserts :
      (k : K) (v : V) (s : S)
      → Fine s
      → contents s k ≡ none
      → Returns
          (λ (s', fresh).
            Fine s'
            × (fresh ≡ true)
            × (contents s' k ≡ some v)
            × (cache.max s' ≡ cache.max s)
            × ((j : K) (w : V) → k ≢ j → contents s' j ≡ some w → contents s j ≡ some w))
          (cache.put_pair k v s)
  pub refuses :
      (k : K) (v w : V) (s : S)
      → Fine s
      → contents s k ≡ some w
      → Returns
          (λ (s', fresh). Fine s' × (fresh ≡ false) × ((j : K) → contents s' j ≡ contents s j))
          (cache.put_pair k v s)
  pub looks_up :
      (k : K) (s : S)
      → Fine s
      → Countable k s
      → Returns
          (λ (s', found).
            Fine s'
            × (found ≡ contents s k)
            × (cache.get_size s' ≡ cache.get_size s)
            × ((j : K) → contents s' j ≡ contents s j))
          (cache.get_value k s)
  pub clears :
      (s : S)
      → Fine s
      → Returns
          (λ s'.
            Fine s'
            × (cache.get_size s' ≡ 0)
            × (cache.max s' ≡ cache.max s)
            × ((j : K) → contents s' j ≡ none))
          (cache.remove_all s)
