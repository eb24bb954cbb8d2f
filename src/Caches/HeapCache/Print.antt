-- ===== src/Caches/HeapCache/Print.antt =====
-- `_print_cache`: the rows of the heap, each with its keys, values and counts. `log_ratio n` is
-- (size_t) (log(n) / log(2)) of the C library for a positive n.
use Prim.Native.Nat.{min}
use native.Mathlib.Nat.{two-pow-succ}
use cpp_util.Prelude.{
  ℕ, zero, suc, ◌+◌, ◌-◌, ◌^◌, ◌≤◌, ◌<◌, ◌≡◌, refl, ap, ◌∙◌, sym, subst, some, List, [], ◌∷◌, ◌++◌,
  length, get_elem?, ltb, ◌==◌, if◌then◌else◌, Run, ok, fault, undefined, ◌>>=◌, ◌>>◌, or_else,
  Returns, returns, Returns-bind, Returns-if, get_elem?_lt, ne→==, arith,
}
use cpp_util.Dict.{find}
use cpp_util.Caches.HeapCache.{Citem, HeapCache, size, empty, consistency_check, at}
use cpp_util.Caches.HeapCache.Invariant.{IsValid}
use cpp_util.Caches.HeapCache.Resize.{consistency_check-ok}

-- An entry of a row.
pub record Shown {ℓ} (K V : Type ℓ) : Type ℓ where
  pub key : K
  pub value : V
  pub looked_up : ℕ

module _ {ℓ} {K V : Type ℓ} (dec : Discrete K) where
  -- The inner loop, for `left` places from `j`.
  unfoldable pub print_row : ℕ → ℕ → HeapCache K V → Run (List (Shown K V))
  print_row zero j h = ok []
  print_row (suc left) j h =
      let rest = print_row left (suc j) h in
      let entry : Run (List (Shown K V)) = do
        k ← or_else (get_elem? h.heap j) undefined
        c ← at dec k h
        row ← rest
        ok (record { key = k; value = c.val; looked_up = c.count } ∷ row)
      in if ltb (length h.keymap) j then ok [] else entry

  -- The outer loop, for `left` rows from the row `i`.
  unfoldable pub print_rows : ℕ → ℕ → HeapCache K V → Run (List (List (Shown K V)))
  unfolding print_row
  print_rows zero i h = ok []
  print_rows (suc left) i h = do
    row ← print_row (2 ^ i) (2 ^ i) h
    rows ← print_rows left (suc i) h
    ok (row ∷ rows)

  -- The size, and the rows. The logarithm of 0 is no size_t.
  unfoldable pub print_cache : (ℕ → ℕ) → K → HeapCache K V → Run (ℕ × List (List (Shown K V)))
  unfolding print_rows consistency_check empty size
  print_cache log_ratio key0 h =
      let rows : Run (ℕ × List (List (Shown K V))) = do
        lines ← print_rows (log_ratio (length h.keymap - 1) + 1) 0 h
        ok (size h, lines)
      in consistency_check dec key0 h
        >> (if empty h
            then ok (size h, [])
            else if length h.keymap == 1
            then fault undefined
            else rows)

-- The entries of the places from `j` to before `end`, in order.
pub data ShownFrom {ℓ} {K V : Type ℓ} (dec : Discrete K) (h : HeapCache K V)
    : ℕ → ℕ → List (Shown K V) → Type ℓ where
  stop : {j end : ℕ} → j ≡ end → ShownFrom dec h j end []
  show :
      {j end : ℕ} {k : K} {c : Citem V} {shown : List (Shown K V)}
      → get_elem? h.heap j ≡ some k
      → find dec k h.keymap ≡ some c
      → ShownFrom dec h (suc j) end shown
      → ShownFrom dec h j end (record { key = k; value = c.val; looked_up = c.count } ∷ shown)

pow_positive : (i : ℕ) → 0 < 2 ^ i
pow_positive zero = omega arith
pow_positive (suc i) = omega (arith, two-pow-succ i, pow_positive i)

pow_up : (i n : ℕ) → 2 ^ i ≤ 2 ^ (i + n)
pow_up i zero = let same : 2 ^ i ≡ 2 ^ (i + 0) = ap (λ k. 2 ^ k) (omega arith) in omega arith
pow_up i (suc n) =
    let same : 2 ^ suc (i + n) ≡ 2 ^ (i + suc n) = ap (λ k. 2 ^ k) (omega arith) in
    omega (arith, two-pow-succ (i + n), pow_up i n)

abbrev pub flatten {ℓ} : {A : Type ℓ} → List (List A) → List A
flatten [] = []
flatten (xs ∷ rest) = xs ++ flatten rest

module _ {ℓ} {K V : Type ℓ} (dec : Discrete K) (key0 : K) (h : HeapCache K V)
    (valid : IsValid dec key0 h) where
  ShownFrom-end :
      {j end other : ℕ} {xs : List (Shown K V)}
      → end ≡ other
      → ShownFrom dec h j end xs
      → ShownFrom dec h j other xs
  ShownFrom-end {j = j} {xs = xs} e a = subst (λ i. ShownFrom dec h j i xs) e a

  ShownFrom-append :
      {j k end : ℕ} {xs ys : List (Shown K V)}
      → ShownFrom dec h j k xs
      → ShownFrom dec h k end ys
      → ShownFrom dec h j end (xs ++ ys)
  ShownFrom-append {end = end} {ys = ys} (stop e) b =
      subst (λ i. ShownFrom dec h i end ys) (sym e) b
  ShownFrom-append (show g f a) b = show g f (ShownFrom-append a b)

  print_row-ShownFrom :
      (left j : ℕ)
      → 0 < j
      → j ≤ size h + 1
      → Returns (ShownFrom dec h j (min (j + left) (size h + 1))) (print_row dec left j h)
  unfolding print_row size
  print_row-ShownFrom zero j pos le = returns (stop (omega arith))
  print_row-ShownFrom (suc left) j pos le =
      Returns-if (ltb (length h.keymap) j) (λ beyond. returns (stop (ground arith)))
        λ inside.
          let sized = valid.sound.sized in
          let (k, got) = get_elem?_lt h.heap j (ground arith) in
          let (c, there, is_j) = valid.sound.linked.held j k pos got in
          rw (got, there)
            (Returns-bind (print_row-ShownFrom left (suc j) (omega arith) (ground arith))
              λ row shown.
                returns (
                  show got there
                    (ShownFrom-end (ap (λ e. min e (size h + 1)) (omega arith)) shown)))

  -- The rows up to the last one, of which all but that are full.
  print_rows-ShownFrom :
      (left i : ℕ)
      → 2 ^ (i + left) ≤ size h
      → Returns
          (λ rows. ShownFrom dec h (2 ^ i) (min (2 ^ suc (i + left)) (size h + 1)) (flatten rows))
          (print_rows dec (suc left) i h)
  unfolding print_rows
  print_rows-ShownFrom zero i le =
      let width : min (2 ^ i + 2 ^ i) (size h + 1) ≡ min (2 ^ suc (i + 0)) (size h + 1) =
        ap (λ e. min e (size h + 1)) (sym (two-pow-succ i) ∙ ap (λ k. 2 ^ suc k) (omega arith)) in
      Returns-bind
        (print_row-ShownFrom (2 ^ i) (2 ^ i) (pow_positive i) (omega (arith, pow_up i 0)))
        λ row shown. returns (ShownFrom-append (ShownFrom-end width shown) (stop refl))
  print_rows-ShownFrom (suc left) i le =
      let shift : 2 ^ (suc i + left) ≡ 2 ^ (i + suc left) = ap (λ k. 2 ^ k) (omega arith) in
      let up : 2 ^ suc i ≤ 2 ^ (i + suc left) = omega (arith, pow_up (suc i) left) in
      let full : min (2 ^ i + 2 ^ i) (size h + 1) ≡ 2 ^ suc i = omega (arith, two-pow-succ i) in
      let last : min (2 ^ suc (suc i + left)) (size h + 1)
          ≡ min (2 ^ suc (i + suc left)) (size h + 1) =
        ap (λ k. min (2 ^ suc k) (size h + 1)) (omega arith) in
      Returns-bind
        (print_row-ShownFrom (2 ^ i) (2 ^ i) (pow_positive i) (omega (arith, two-pow-succ i)))
        λ row shown. Returns-bind (print_rows-ShownFrom left (suc i) (omega arith)) λ rows rest.
          returns (ShownFrom-append (ShownFrom-end full shown) (ShownFrom-end last rest))

  -- A valid cache of at least two keys, with a logarithm to base 2 that is rounded down, is printed as
  -- its size and the entries of its heap from the first place on: all of them, unless the size is a
  -- power of two, when the last one is left out.
  pub print_cache-ShownFrom :
      (log_ratio : ℕ → ℕ)
      → 1 < size h
      → 2 ^ log_ratio (size h - 1) < size h
      → size h ≤ 2 ^ suc (log_ratio (size h - 1))
      → Returns
          (λ (n, rows).
            (n ≡ size h)
            × ShownFrom dec h 1
                (if size h == 2 ^ suc (log_ratio (size h - 1)) then size h else size h + 1)
                (flatten rows))
          (print_cache dec log_ratio key0 h)
  unfolding print_cache empty size
  print_cache-ShownFrom log_ratio two low high =
      let l = log_ratio (size h - 1) in
      let one_more : l + 1 ≡ suc l = omega arith in
      let shift : 2 ^ l ≡ 2 ^ (0 + l) = ap (λ k. 2 ^ k) (omega arith) in
      let shift' : 2 ^ suc (0 + l) ≡ 2 ^ suc l = ap (λ k. 2 ^ suc k) (omega arith) in
      let reached : min (2 ^ suc (0 + l)) (size h + 1)
          ≡ (if size h == 2 ^ suc l then size h else size h + 1) =
        ground arith in
      rw
        (
          consistency_check-ok dec key0 h valid,
          ne→== (length h.keymap) 0 (omega arith),
          ne→== (length h.keymap) 1 (omega arith),
          one_more,
        )
        (Returns-bind (print_rows-ShownFrom l 0 (omega arith))
          λ rows shown. returns (refl, ShownFrom-end reached shown))
