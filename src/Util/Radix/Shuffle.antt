-- ===== src/Util/Radix/Shuffle.antt =====
-- Ranges of an array: how many of their elements pass a test, and arrays that differ by the order of
-- a range.
use cpp_util.Prelude.{
  ℕ, zero, suc, ◌+◌, ◌-◌, ◌≤◌, ◌<◌, ◌≡◌, refl, ◌⊎◌, inl, inr, ap, ◌∙◌, sym, Bool, true, false,
  if◌then◌else◌, ℕ_discrete, ok, lt→ltb, arith,
}
use cpp_util.Util.Radix.{Array, update, get, put, swap}

-- How many of the `n` places from `lo` pass.
abbrev pub tally : (ℕ → Bool) → ℕ → ℕ → ℕ
tally q lo zero = 0
tally q lo (suc n) = (if q lo then 1 else 0) + tally q (suc lo) n

pub tally-same :
    (q r : ℕ → Bool) (lo n : ℕ)
    → ((j : ℕ) → lo ≤ j → j < lo + n → q j ≡ r j)
    → tally q lo n ≡ tally r lo n
tally-same q r lo zero h = refl
tally-same q r lo (suc n) h =
    ground (arith, h lo, tally-same q r (suc lo) n (λ j l u. h j (omega arith) (omega arith)))

pub tally-outside :
    (q : ℕ → Bool) (i : ℕ) (b : Bool) (lo n : ℕ) → i < lo → tally (update q i b) lo n ≡ tally q lo n
tally-outside q i b lo n h = tally-same _ _ lo n λ j l u. ground arith

pub tally-update :
    (q : ℕ → Bool) (i : ℕ) (b : Bool) (lo n : ℕ)
    → lo ≤ i
    → i < lo + n
    → tally (update q i b) lo n + (if q i then 1 else 0) ≡ tally q lo n + (if b then 1 else 0)
tally-update q i b lo zero l u = absurd (omega arith)
tally-update q i b lo (suc n) l u = elim (ℕ_discrete i lo) [
  | yes e ↦ ground (arith, tally-outside q i b (suc lo) n, ap q e)
  | no ne ↦ ground (arith, tally-update q i b (suc lo) n (omega arith) (omega arith))
]

-- A range in which all pass is no longer than the count.
pub interval-le :
    (q : ℕ → Bool) (s e lo n : ℕ)
    → lo ≤ s
    → e ≤ lo + n
    → ((j : ℕ) → s ≤ j → j < e → q j ≡ true)
    → e - s ≤ tally q lo n
interval-le q s e lo zero l u h = omega arith
interval-le q s e lo (suc n) l u h = elim (ℕ_discrete s lo) [
  | yes same ↦ ground (
    arith,
    h lo,
    interval-le q (suc lo) e (suc lo) n (omega arith) (omega arith) λ j l' u'. h j (omega arith) u',
  )
  | no differ ↦ ground (arith, interval-le q s e (suc lo) n (omega arith) (omega arith) h)
]

-- One more that passes elsewhere.
pub interval-lt :
    (q : ℕ → Bool) (s e i lo n : ℕ)
    → lo ≤ s
    → s ≤ e
    → e ≤ lo + n
    → lo ≤ i
    → i < lo + n
    → (i < s) ⊎ (e ≤ i)
    → ((j : ℕ) → s ≤ j → j < e → q j ≡ true)
    → q i ≡ true
    → e - s < tally q lo n
interval-lt q s e i lo n l le u li ui out h at = ground (
  arith,
  tally-update q i false lo n li ui,
  interval-le (update q i false) s e lo n l u λ j l' u'. ground (arith, h j, out),
)

tally-all :
    (q : ℕ → Bool) (lo n : ℕ) → ((j : ℕ) → lo ≤ j → j < lo + n → q j ≡ true) → tally q lo n ≡ n
tally-all q lo zero h = refl
tally-all q lo (suc n) h =
    ground (arith, h lo, tally-all q (suc lo) n (λ j l u. h j (omega arith) (omega arith)))

tally-le : (q : ℕ → Bool) (lo n : ℕ) → tally q lo n ≤ n
tally-le q lo zero = omega arith
tally-le q lo (suc n) = ground (arith, tally-le q (suc lo) n)

all_first : (q : ℕ → Bool) (lo n : ℕ) → tally q lo (suc n) ≡ suc n → q lo ≡ true
all_first q lo n h = ground (arith, tally-le q (suc lo) n)

all-of_tally :
    (q : ℕ → Bool) (lo n : ℕ) → tally q lo n ≡ n → (j : ℕ) → lo ≤ j → j < lo + n → q j ≡ true
all-of_tally q lo zero h j l u = absurd (omega arith)
all-of_tally q lo (suc n) h j l u = elim (ℕ_discrete lo j) [
  | yes e ↦ ap q (sym e) ∙ all_first q lo n h
  | no ne ↦
      all-of_tally q (suc lo) n (ground (arith, tally-le q (suc lo) n)) j (omega arith)
        (omega arith)
]

tally-append : (q : ℕ → Bool) (lo m n : ℕ) → tally q lo (m + n) ≡ tally q lo m + tally q (lo + m) n
tally-append q lo zero n =
    let here : tally q lo (0 + n) ≡ tally q lo n = ap (tally q lo) (omega arith) in
    let shift : tally q lo n ≡ tally q (lo + 0) n = ap (λ k. tally q k n) (omega arith) in
    omega (arith, here, shift)
tally-append q lo (suc m) n =
    let shift : tally q (suc lo + m) n ≡ tally q (lo + suc m) n =
      ap (λ k. tally q k n) (omega arith) in
    let here : tally q lo (suc m + n) ≡ tally q lo (suc (m + n)) =
      ap (tally q lo) {y = suc (m + n)} (omega arith) in
    let rest = tally-append q (suc lo) m n in omega (arith, here, shift, rest)

-- A range in three parts.
tally-parts :
    (q : ℕ → Bool) (lo n lo' n' : ℕ)
    → lo' ≤ lo
    → lo + n ≤ lo' + n'
    → tally q lo' n'
      ≡ tally q lo' (lo - lo') + (tally q lo n + tally q (lo + n) (lo' + n' - (lo + n)))
tally-parts q lo n lo' n' l u =
    let whole : tally q lo' n' ≡ tally q lo' ((lo - lo') + (n + (lo' + n' - (lo + n)))) =
      ap (tally q lo') (omega arith) in
    let back : tally q (lo' + (lo - lo')) (n + (lo' + n' - (lo + n)))
        ≡ tally q lo (n + (lo' + n' - (lo + n))) =
      ap (λ k. tally q k (n + (lo' + n' - (lo + n)))) (omega arith) in
    let first = tally-append q lo' (lo - lo') (n + (lo' + n' - (lo + n))) in
    let second = tally-append q lo n (lo' + n' - (lo + n)) in
    omega (arith, whole, back, first, second)

-- Tests that agree but on a range, where they pass equally often.
tally-around :
    (q r : ℕ → Bool) (lo n lo' n' : ℕ)
    → lo' ≤ lo
    → lo + n ≤ lo' + n'
    → ((j : ℕ) → (j < lo) ⊎ (lo + n ≤ j) → r j ≡ q j)
    → tally r lo n ≡ tally q lo n
    → tally r lo' n' ≡ tally q lo' n'
tally-around q r lo n lo' n' l u same counts =
    let before = tally-same r q lo' (lo - lo') (λ j l' u'. same j (inl (omega arith))) in
    let behind = tally-same r q (lo + n) (lo' + n' - (lo + n)) (λ j l' u'. same j (inr l')) in
    omega
      (arith, tally-parts q lo n lo' n' l u, tally-parts r lo n lo' n' l u, before, behind, counts)

module _ {ℓ} {A : Type ℓ} where
  -- `g` is `f` with the `n` elements from `lo` in another order.
  pub record Shuffled (lo n : ℕ) (f g : ℕ → A) : Type ℓ where
    pub outside : (j : ℕ) → (j < lo) ⊎ (lo + n ≤ j) → g j ≡ f j
    pub counts : (test : A → Bool) → tally (λ j. test (g j)) lo n ≡ tally (λ j. test (f j)) lo n

  pub Shuffled-refl : (lo n : ℕ) (f : ℕ → A) → Shuffled lo n f f
  Shuffled-refl lo n f = record { outside = λ j h. refl; counts = λ test. refl }

  pub Shuffled-trans :
      {lo n : ℕ} {f g h : ℕ → A} → Shuffled lo n f g → Shuffled lo n g h → Shuffled lo n f h
  Shuffled-trans p q = record {
    outside = λ j h. q.outside j h ∙ p.outside j h;
    counts = λ test. q.counts test ∙ p.counts test;
  }

  -- What all elements of the range pass, all pass behind it.
  pub Shuffled-all :
      {lo n : ℕ} {f g : ℕ → A} (test : A → Bool)
      → Shuffled lo n f g
      → ((j : ℕ) → lo ≤ j → j < lo + n → test (f j) ≡ true)
      → (j : ℕ) → lo ≤ j
      → j < lo + n
      → test (g j) ≡ true
  Shuffled-all {lo} {n} {f} {g} test p h =
      all-of_tally (λ j. test (g j)) lo n (p.counts test ∙ tally-all (λ j. test (f j)) lo n h)

  -- A range within a range.
  pub Shuffled-wider :
      {lo n : ℕ} {f g : ℕ → A} (lo' n' : ℕ)
      → lo' ≤ lo
      → lo + n ≤ lo' + n'
      → Shuffled lo n f g
      → Shuffled lo' n' f g
  Shuffled-wider {lo} {n} {f} {g} lo' n' l u p = record {
    outside = λ j h. p.outside j (ground (arith, h));
    counts = λ test.
        tally-around (λ j. test (f j)) (λ j. test (g j)) lo n lo' n' l u
          (λ j h. ap test (p.outside j h)) (p.counts test);
  }

  abbrev pub swapped : (ℕ → A) → ℕ → ℕ → ℕ → A
  swapped f i j = update (update f i (f j)) j (f i)

  pub swapped-Shuffled :
      (lo n : ℕ) (f : ℕ → A) (i j : ℕ)
      → lo ≤ i
      → i < lo + n
      → lo ≤ j
      → j < lo + n
      → Shuffled lo n f (swapped f i j)
  swapped-Shuffled lo n f i j li ui lj uj = record {
    outside = λ k h. ground (arith, h);
    counts = λ test.
        let q = λ (k : ℕ). test (f k) in
        tally-same (λ k. test (swapped f i j k)) (update (update q i (q j)) j (q i)) lo n
          (λ k l u. ground arith)
        ∙ ground (
          arith,
          tally-update (update q i (q j)) j (q i) lo n lj uj,
          tally-update q i (q j) lo n li ui,
        );
  }

  pub swap-swapped :
      (i j : ℕ) (v : Array A)
      → i < v.size
      → j < v.size
      → swap i j v ≡ ok (record v { at = swapped v.at i j })
  unfolding swap get put
  swap-swapped i j v hi hj = rw (lt→ltb i v.size hi, lt→ltb j v.size hj) refl
