-- ===== src/Caches/HeapCache/Tests.antt =====
-- Runs of a heap_cache of numbers, after src/caches/cache-test.cpp, and the theorems at inputs.
use cpp_util.Prelude.{
  ℕ, zero, suc, get_elem?, ◌<◌, ◌≤◌, ◌≡◌, refl, some, true, false, [], ◌∷◌, ok, fault, uassert, Run,
  ◌>>=◌, Returns, ℕ_discrete, arith,
}
use cpp_util.Dict.{find, emplace, erase, modify}
use cpp_util.Caches.HeapCache.{
  Citem, HeapCache, heap_cache, size, empty, insert, lookup, set_max_size, move_assign, copy, move,
  consistency_check,
}
use cpp_util.Caches.HeapCache.Invariant.{IsValid}
use cpp_util.Caches.HeapCache.Resize.{
  heap_cache-IsValid, Resized, set_max_size-Resized, move_assign-other,
}
use cpp_util.Caches.HeapCache.Evict.{item}
use cpp_util.Caches.HeapCache.Insert.{
  Inserted, insert-Inserted, insert-present, AllFail, insert-overfull, insert-one,
}
use cpp_util.Caches.HeapCache.Lookup.{LookedUp, lookup-LookedUp}
use cpp_util.Caches.HeapCache.Contract.{heap_cache-Contract, as_cache, Fine, Countable, contents}
use cpp_util.Caches.Cache.{Contract}
use cpp_util.Caches.HeapCache.Print.{ShownFrom, flatten, print_cache, print_cache-ShownFrom}

abbrev NumberCache : Type 0
NumberCache = HeapCache ℕ ℕ

abbrev fresh : ℕ → NumberCache
fresh max = record { keymap = []; heap = 0 ∷ []; max_size = max }

-- Two keys, the second looked up once.
abbrev two : ℕ → NumberCache
two max = record {
  keymap =
      (7, record { val = 70; loc = 1; count = 1 })
      ∷ (5, record { val = 50; loc = 2; count = 0 })
      ∷ [];
  heap = 0 ∷ 7 ∷ 5 ∷ [];
  max_size = max;
}

abbrev two_built : Run NumberCache
two_built = do
  (a, _) ← insert ℕ_discrete 0 5 50 (fresh 9)
  (b, _) ← insert ℕ_discrete 0 7 70 a
  (c, r) ← lookup ℕ_discrete 0 7 b
  ok c

two_run : two_built ≡ ok (two 9)
unfolding insert lookup emplace modify find ℕ_discrete
two_run = refl

-- The second of two keys fills a cache of 2, and takes the place of the first.
full_run :
    (insert ℕ_discrete 0 5 50 (fresh 2) >>= λ (a, _). insert ℕ_discrete 0 7 70 a)
    ≡ ok (record { keymap = (7, item 70 1) ∷ []; heap = 0 ∷ 7 ∷ []; max_size = 2 }, true)
unfolding insert emplace modify find ℕ_discrete erase
full_run = refl

fresh-IsValid : (max : ℕ) → IsValid ℕ_discrete 0 (fresh max)
unfolding heap_cache
fresh-IsValid = heap_cache-IsValid ℕ_discrete 0

two-held :
    (max i k : ℕ)
    → 0 < i
    → get_elem? (two max).heap i ≡ some k
    → (c : Citem ℕ) × (find ℕ_discrete k (two max).keymap ≡ some c) × (c.loc ≡ i)
unfolding find
two-held max zero k pos g = absurd (omega arith)
two-held max (suc zero) k pos g = (record { val = 70; loc = 1; count = 1 }, ground arith, refl)
two-held max (suc (suc zero)) k pos g =
    (record { val = 50; loc = 2; count = 0 }, ground arith, refl)
two-held max (suc (suc (suc i))) k pos g = cc

two-IsValid : (max : ℕ) → 2 ≤ max → IsValid ℕ_discrete 0 (two max)
unfolding find ℕ_discrete
two-IsValid max big = record {
  sound = record {
    linked = record {
      unique = (refl, (refl, tt));
      located = λ k c f. ground arith;
      held = two-held max;
    };
    ordered = λ k p c d f g o. ground arith;
    sized = refl;
    sentinel = refl;
  };
  bounded = big;
}

insert-Inserted_example :
    Returns
      (λ r. Inserted ℕ_discrete 0 5 50 (fresh 2) r.0 × (r.1 ≡ true))
      (insert ℕ_discrete 0 5 50 (fresh 2))
unfolding size find
insert-Inserted_example =
    insert-Inserted ℕ_discrete 0 5 50 (fresh 2) (fresh-IsValid 2) (omega arith) (omega arith) refl

insert-present_example : insert ℕ_discrete 0 5 1 (two 9) ≡ ok (two 9, false)
unfolding find ℕ_discrete
insert-present_example =
    insert-present ℕ_discrete 0 5 1 (two 9) (record { val = 50; loc = 2; count = 0 })
      (two-IsValid 9 (omega arith)) refl

insert-overfull_example :
    Returns
      (λ r. (size r.0 ≡ suc r.0.max_size) × AllFail ℕ_discrete 0 8 r.0)
      (insert ℕ_discrete 0 8 80 (two 2))
unfolding size find ℕ_discrete
insert-overfull_example =
    insert-overfull ℕ_discrete 0 8 80 (two 2) (two-IsValid 2 (omega arith)) (omega arith) refl refl

insert-one_example : insert ℕ_discrete 0 8 80 (fresh 1) ≡ fault uassert
unfolding size find
insert-one_example = insert-one ℕ_discrete 0 8 80 (fresh 1) (fresh-IsValid 1) refl refl refl

lookup-LookedUp_example :
    Returns
      (λ r.
        LookedUp ℕ_discrete 0 5 (record { val = 50; loc = 2; count = 0 }) (two 9) r.0
        × (r.1 ≡ some 50))
      (lookup ℕ_discrete 0 5 (two 9))
unfolding find ℕ_discrete
lookup-LookedUp_example =
    lookup-LookedUp ℕ_discrete 0 5 (two 9) (record { val = 50; loc = 2; count = 0 })
      (two-IsValid 9 (omega arith)) refl (omega arith)

set_max_size-Resized_example :
    Returns (Resized ℕ_discrete 0 1 (two 9)) (set_max_size ℕ_discrete 0 1 (two 9))
set_max_size-Resized_example =
    set_max_size-Resized ℕ_discrete 0 1 (two 9) (two-IsValid 9 (omega arith)) (omega arith)

move_assign-other_example :
    (move_assign ℕ_discrete 0 (two 9) (fresh 1) ≡ ok (two 9))
    × (copy ℕ_discrete 0 (two 9) ≡ ok (two 9))
    × (move ℕ_discrete 0 (two 9) ≡ ok (two 9))
move_assign-other_example =
    move_assign-other ℕ_discrete 0 (two 9) (fresh 1) (two-IsValid 9 (omega arith)) (fresh-IsValid 1)

heap_cache-Contract_example :
    Contract
      (as_cache {V = ℕ} ℕ_discrete 0)
      (Fine ℕ_discrete 0)
      (Countable ℕ_discrete 0)
      (contents ℕ_discrete 0)
heap_cache-Contract_example = heap_cache-Contract ℕ_discrete 0

-- The second of two keys is not printed.
print_two :
    print_cache ℕ_discrete (λ n. 0) 0 (two 9)
    ≡ ok (2, (record { key = 7; value = 70; looked_up = 1 } ∷ []) ∷ [])
unfolding print_cache find ℕ_discrete consistency_check size empty
print_two = refl

print_cache-ShownFrom_example :
    Returns
      (λ (n, rows). (n ≡ 2) × ShownFrom ℕ_discrete (two 9) 1 2 (flatten rows))
      (print_cache ℕ_discrete (λ n. 0) 0 (two 9))
unfolding size
print_cache-ShownFrom_example =
    print_cache-ShownFrom ℕ_discrete 0 (two 9) (two-IsValid 9 (omega arith)) (λ n. 0) (omega arith)
      (omega arith) (omega arith)
