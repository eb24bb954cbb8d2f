-- ===== src/Util/Radix/Digits.antt =====
-- The digits of keys and the counts of a pass: `counts` and `num_remaining` before the first swap.
use cpp_util.Prelude.{
  ℕ, zero, suc, ◌+◌, ◌^◌, ◌≤◌, ◌<◌, ◌≡◌, refl, ℤ, pos, negsuc, ltb, ◌==◌, ok, Returns, returns,
  Returns-map, lt→ltb, arith,
}
use cpp_util.Util.Radix.{
  Array, update, get, put, add_int, incr_at, bucket, partial_sum, count_digits,
}
use cpp_util.Util.Radix.Shuffle.{tally}

-- What `digit_of` may give: a digit below the radix, or -1 at the end of a key.
pub data IsDigit (radix : ℕ) : ℤ → Type 0 where
  digit : {n : ℕ} → n < radix → IsDigit radix (pos n)
  ended : IsDigit radix (negsuc zero)

-- A digit's bucket.
abbrev pub place : ℤ → ℕ
place (pos n) = suc n
place (negsuc n) = 0

pub bucket-place :
    (radix : ℕ) {z : ℤ} → IsDigit radix z → (bucket radix z ≡ ok (place z)) × (place z ≤ radix)
unfolding bucket
bucket-place radix (digit {n = n} h) = (rw (lt→ltb n radix h) refl, omega arith)
bucket-place radix ended = (refl, omega arith)

module _ {ℓ} {A : Type ℓ} where
  pub get-ok : (i : ℕ) (v : Array A) → i < v.size → get i v ≡ ok (v.at i)
  unfolding get
  get-ok i v h = rw (lt→ltb i v.size h) refl

  pub put-ok :
      (i : ℕ) (x : A) (v : Array A)
      → i < v.size
      → put i x v ≡ ok (record v { at = update v.at i x })
  unfolding put
  put-ok i x v h = rw (lt→ltb i v.size h) refl

pub add_int-ok : (a b : ℕ) → a + b < 2 ^ 31 → add_int a b ≡ ok (a + b)
unfolding add_int
add_int-ok a b h = rw (lt→ltb (a + b) (2 ^ 31) h) refl

pub incr_at-ok :
    (i : ℕ) (c : Array ℕ)
    → i < c.size
    → c.at i + 1 < 2 ^ 31
    → incr_at i c ≡ ok (record c { at = update c.at i (c.at i + 1) })
unfolding incr_at get put add_int
incr_at-ok i c h small = rw (lt→ltb i c.size h, lt→ltb (c.at i + 1) (2 ^ 31) small) refl

-- The sums up to each place, by an equation for each.
pub partial_sum-ok :
    (S N : ℕ → ℕ) (left b : ℕ) (c : Array ℕ)
    → b + left < c.size
    → ((j : ℕ) → S (suc j) ≡ S j + N j)
    → ((j : ℕ) → j ≤ b + left → S j < 2 ^ 31)
    → ((j : ℕ) → j ≤ b → c.at j ≡ S j)
    → ((j : ℕ) → b ≤ j → c.at (suc j) ≡ N j)
    → Returns
        (λ c'. (c'.size ≡ c.size) × ((j : ℕ) → j ≤ b + left → c'.at j ≡ S j))
        (partial_sum left b c)
unfolding partial_sum get put add_int
partial_sum-ok S N zero b c h step small done todo = returns (refl, λ j l. done j (omega arith))
partial_sum-ok S N (suc left) b c h step small done todo =
    rw
      (
        lt→ltb b c.size (omega arith),
        lt→ltb (suc b) c.size (omega arith),
        lt→ltb (c.at b + c.at (suc b)) (2 ^ 31)
            (omega (arith, small (suc b) (omega arith), step b, done b, todo b)),
      )
      (Returns-map
        (partial_sum-ok S N left (suc b) _ (omega arith) step (λ j l. small j (omega arith))
          (λ j l. grind (arith, done j, done b, todo b, step b)) (λ j l. grind (arith, todo j)))
        λ c' p. (p.0, λ j l. p.1 j (omega arith)))

module _ {ℓ} {A : Type ℓ} (radix : ℕ) (digit_of : ℕ → A → ℤ) where
  abbrev pub at_digit : ℕ → A → ℕ
  at_digit k x = place (digit_of k x)

  -- How many of the `n` keys from `lo` have the digit `b`, and a digit below `b`.
  abbrev pub of_digit : ℕ → (ℕ → A) → ℕ → ℕ → ℕ → ℕ
  of_digit k f lo n b = tally (λ j. at_digit k (f j) == b) lo n

  abbrev pub below_digit : ℕ → (ℕ → A) → ℕ → ℕ → ℕ → ℕ
  below_digit k f lo n b = tally (λ j. ltb (at_digit k (f j)) b) lo n

  pub below_digit-suc :
      (k : ℕ) (f : ℕ → A) (lo n b : ℕ)
      → below_digit k f lo n (suc b) ≡ below_digit k f lo n b + of_digit k f lo n b
  below_digit-suc k f lo zero b = omega arith
  below_digit-suc k f lo (suc n) b = ground (arith, below_digit-suc k f (suc lo) n b)

  pub below_digit-zero : (k : ℕ) (f : ℕ → A) (lo n : ℕ) → below_digit k f lo n 0 ≡ 0
  below_digit-zero k f lo zero = refl
  below_digit-zero k f lo (suc n) = ground (arith, below_digit-zero k f (suc lo) n)

  pub below_digit-le :
      (k : ℕ) (f : ℕ → A) (lo n b c : ℕ) → b ≤ c → below_digit k f lo n b ≤ below_digit k f lo n c
  below_digit-le k f lo zero b c h = omega arith
  below_digit-le k f lo (suc n) b c h = ground (arith, below_digit-le k f (suc lo) n b c h)

  module _ (digits : (k : ℕ) (x : A) → IsDigit radix (digit_of k x)) where
    pub at_digit-le : (k : ℕ) (x : A) → at_digit k x ≤ radix
    at_digit-le k x = (bucket-place radix (digits k x)).1

    pub below_digit-all : (k : ℕ) (f : ℕ → A) (lo n : ℕ) → below_digit k f lo n (suc radix) ≡ n
    below_digit-all k f lo zero = refl
    below_digit-all k f lo (suc n) =
        ground (arith, at_digit-le k (f lo), below_digit-all k f (suc lo) n)

    -- What the counting loop adds, for the keys that are left.
    pub count_digits-ok :
        (left k i : ℕ) (v : Array A) (c m : Array ℕ)
        → i + left ≤ v.size
        → c.size ≡ radix + 2
        → m.size ≡ radix + 1
        → ((b : ℕ) → c.at b + left < 2 ^ 31)
        → ((b : ℕ) → m.at b + left < 2 ^ 31)
        → Returns
            (λ (c', m').
              (c'.size ≡ radix + 2)
              × (m'.size ≡ radix + 1)
              × (c'.at 0 ≡ c.at 0)
              × ((b : ℕ) → c'.at (suc b) ≡ c.at (suc b) + of_digit k v.at i left b)
              × ((b : ℕ) → m'.at b ≡ m.at b + of_digit k v.at i left b))
            (count_digits radix digit_of left k i v c m)
    unfolding count_digits
    count_digits-ok zero k i v c m h cs ms small small' =
        returns (cs, ms, refl, λ b. omega arith, λ b. omega arith)
    count_digits-ok (suc left) k i v c m h cs ms small small' =
        let b = at_digit k (v.at i) in
        let (at, le) = bucket-place radix (digits k (v.at i)) in
        rw
          (
            get-ok i v (omega arith),
            at,
            incr_at-ok (suc b) c (omega arith) (omega (arith, small (suc b))),
            incr_at-ok b m (omega arith) (omega (arith, small' b)),
          )
          (Returns-map
            (count_digits-ok left k (suc i) v _ _ (omega arith) cs ms (λ q. grind (arith, small q))
              (λ q. grind (arith, small' q)))
            λ r (sized, sized', first, cs', ms'). (
              sized,
              sized',
              grind (arith, first),
              (λ q. grind (arith, cs' q)),
              (λ q. grind (arith, ms' q)),
            ))
