-- ===== src/Util/Radix/Pass.antt =====
-- A pass over a range: it returns, and leaves the range in the order of its digits at `index`.
use cpp_util.Prelude.{
  ℕ, zero, suc, ◌+◌, ◌-◌, ◌^◌, ◌≤◌, ◌<◌, ◌≡◌, refl, sym, subst, inr, ℤ, ltb, Returns, returns,
  Returns-map, Returns-bind, Returns-if, dec_lt, ℕ_discrete, arith,
}
use cpp_util.Util.Radix.{Array, zeros, fill_bucket, fill_buckets, pass}
use cpp_util.Util.Radix.Shuffle.{Shuffled, Shuffled-refl}
use cpp_util.Util.Radix.Digits.{
  IsDigit, get-ok, at_digit, at_digit-le, below_digit-zero, count_digits-ok, partial_sum-ok,
}
use cpp_util.Util.Radix.Fill.{
  total, key, start, count, start-suc, start-le, start-end, Filling, room, place_one-Filling,
}

total-le : (f g : ℕ → ℕ) (n : ℕ) → ((q : ℕ) → f q ≤ g q) → total f n ≤ total g n
total-le f g zero h = omega arith
total-le f g (suc n) h = omega (arith, total-le f g n h, h n)

total-same : (f g : ℕ → ℕ) (n : ℕ) → ((q : ℕ) → f q ≡ g q) → total f n ≡ total g n
total-same f g zero h = refl
total-same f g (suc n) h = omega (arith, total-same f g n h, h n)

module _ {ℓ} {A : Type ℓ} (radix : ℕ) (digit_of : ℕ → A → ℤ)
    (digits : (k : ℕ) (x : A) → IsDigit radix (digit_of k x)) where
  -- What a pass over `n` keys from `first` leaves, with the keys that have ended before `next`.
  pub record Passed (first n index : ℕ) (v0 : Array A) (next : ℕ) (v : Array A) : Type ℓ where
    pub shuffled : Shuffled first n v0.at v.at
    pub sized : v.size ≡ v0.size
    pub begins : first ≤ next
    pub ends : next ≤ first + n
    pub before : (j : ℕ) → first ≤ j → j < next → at_digit radix digit_of index (v.at j) ≡ 0
    pub behind : (j : ℕ) → next ≤ j → j < first + n → 0 < at_digit radix digit_of index (v.at j)
    pub ordered :
        (i j : ℕ)
        → first ≤ i
        → i ≤ j
        → j < first + n
        → at_digit radix digit_of index (v.at i) ≤ at_digit radix digit_of index (v.at j)

  module _ (first n index : ℕ) (v0 : Array A) (inside : first + n ≤ v0.size)
      (small : n < 2 ^ 31) where
    abbrev Fills : Array A → Array ℕ → Array ℕ → Type ℓ
    Fills = Filling radix digit_of digits first n index v0 inside small

    abbrev starts : ℕ → ℕ
    starts = start radix digit_of digits first n index v0 inside small

    abbrev counted : ℕ → ℕ
    counted = count radix digit_of digits first n index v0 inside small

    abbrev bucket_of : A → ℕ
    bucket_of = key radix digit_of digits first n index v0 inside small

    monotone : (b c : ℕ) → b ≤ c → starts b ≤ starts c
    monotone = start-le radix digit_of digits first n index v0 inside small

    at_end : starts (suc radix) ≡ n
    at_end = start-end radix digit_of digits first n index v0 inside small

    fill_bucket-ok :
        (fuel b : ℕ) (v : Array A) (c m : Array ℕ)
        → Fills v c m
        → b < radix
        → total m.at (suc radix) < fuel
        → Returns
            (λ (v', c', m'). Fills v' c' m' × ((q : ℕ) → m'.at q ≤ m.at q) × (m'.at b ≡ 0))
            (fill_bucket radix digit_of fuel first index b v c m)
    unfolding fill_bucket
    fill_bucket-ok zero b v c m f lb enough = absurd (omega arith)
    fill_bucket-ok (suc fuel) b v c m f lb enough =
        rw (get-ok b m (omega (arith, f.remaining_sized))) (
          Returns-if (ltb 0 (m.at b))
            (λ more.
              Returns-bind
                (place_one-Filling radix digit_of digits first n index v0 inside small b v c m f lb
                  (ground arith))
                λ (v', c', m') (f', p).
                  Returns-map (fill_bucket-ok fuel b v' c' m' f' lb (omega (arith, p.one)))
                    λ r (g, fewer, done). (g, (λ q. omega (arith, fewer q, p.fewer q)), done))
            λ none_left. returns (f, (λ q. omega arith), ground arith))

    fill_buckets-ok :
        (left fuel b : ℕ) (v : Array A) (c m : Array ℕ)
        → Fills v c m
        → b + left ≡ radix
        → total m.at (suc radix) < fuel
        → ((q : ℕ) → q < b → m.at q ≡ 0)
        → Returns
            (λ (v', c', m'). Fills v' c' m' × ((q : ℕ) → q < radix → m'.at q ≡ 0))
            (fill_buckets radix digit_of left fuel first index b v c m)
    unfolding fill_buckets
    fill_buckets-ok zero fuel b v c m f last enough done = returns (f, λ q l. done q (omega arith))
    fill_buckets-ok (suc left) fuel b v c m f last enough done =
        Returns-bind (fill_bucket-ok fuel b v c m f (omega arith) enough)
          λ (v', c', m') (f', fewer, empty).
            fill_buckets-ok left fuel (suc b) v' c' m' f' (omega arith)
              (omega (arith, total-le m'.at m.at (suc radix) fewer))
              λ q l. ground (arith, done q, fewer q, empty, ℕ_discrete q b)

    total-counted : (k : ℕ) → total counted k ≡ starts k
    total-counted zero = sym (below_digit-zero radix digit_of index v0.at first n)
    total-counted (suc k) =
        omega
          (arith, total-counted k, start-suc radix digit_of digits first n index v0 inside small k)

    -- The counts before the first swap.
    initial-Fills :
        (c m : Array ℕ)
        → c.size ≡ radix + 2
        → m.size ≡ radix + 1
        → ((b : ℕ) → b ≤ radix → c.at b ≡ starts b)
        → ((b : ℕ) → m.at b ≡ counted b)
        → Fills v0 c m
    initial-Fills c m cs ms begins remain = record {
      shuffled = Shuffled-refl first n v0.at;
      sized = refl;
      counts_sized = cs;
      remaining_sized = ms;
      begun = λ b l. omega (arith, begins b);
      left = λ b l. omega (
        arith,
        begins b,
        remain b,
        start-suc radix digit_of digits first n index v0 inside small b,
      );
      placed = λ b j l lo hi. absurd (omega (arith, begins b));
    }

    -- A place is in the range of some bucket.
    located : (k j : ℕ) → j < starts k → (b : ℕ) × (b < k) × (starts b ≤ j) × (j < starts (suc b))
    located zero j h = absurd (omega (arith, below_digit-zero radix digit_of index v0.at first n))
    located (suc k) j h = elim (dec_lt j (starts k)) [
      | yes l ↦ let (b, lb, lo, hi) = located k j l in (b, omega arith, lo, hi)
      | no nl ↦ (k, omega arith, omega arith, h)
    ]

    -- When all buckets but the last are full, each key is in its bucket.
    sorted_places :
        (v : Array A) (c m : Array ℕ)
        → Fills v c m
        → ((q : ℕ) → q < radix → m.at q ≡ 0)
        → (j : ℕ) → j < n
        → let d = bucket_of (v.at (first + j)) in (starts d ≤ j) × (j < starts (suc d))
    sorted_places v c m f done j h =
        let d = bucket_of (v.at (first + j)) in
        let ld = at_digit-le radix digit_of digits index (v.at (first + j)) in
        let (b, lb, lo, hi) = located (suc radix) j (omega (arith, at_end)) in
        elim (dec_lt b radix) [
          | yes l ↦
              let same = f.placed b j (omega arith) lo (omega (arith, f.left b, done b)) in
              subst (λ q. (starts q ≤ j) × (j < starts (suc q))) (sym same) (lo, hi)
          | no nl ↦ elim (ℕ_discrete d radix) [
            | yes e ↦ subst (λ q. (starts q ≤ j) × (j < starts (suc q))) (omega arith) (lo, hi)
            | no ne ↦
                let full =
                  room radix digit_of digits first n index v0 inside small v (starts (suc d)) j d
                    f.shuffled (monotone d (suc d) (omega arith))
                    (omega (arith, monotone (suc d) (suc radix) (omega arith), at_end))
                    (λ i lo' hi'. f.placed d i ld lo' (omega (arith, f.left d ld, done d))) h
                    (inr (omega (arith, monotone (suc d) b (omega arith)))) refl in
                absurd (omega (arith, full))
          ]
        ]

    -- The same, of a place in the array.
    in_place :
        (v : Array A) (c m : Array ℕ)
        → Fills v c m
        → ((q : ℕ) → q < radix → m.at q ≡ 0)
        → (j : ℕ) → first ≤ j
        → j < first + n
        → let d = bucket_of (v.at j) in (starts d ≤ j - first) × (j - first < starts (suc d))
    in_place v c m f done j l u =
        subst
          (λ k.
            (starts (bucket_of (v.at k)) ≤ j - first)
            × (j - first < starts (suc (bucket_of (v.at k)))))
          (omega arith) (sorted_places v c m f done (j - first) (omega arith))

    filled-Passed :
        (v : Array A) (c m : Array ℕ)
        → Fills v c m
        → 0 < radix
        → ((q : ℕ) → q < radix → m.at q ≡ 0)
        → Passed first n index v0 (first + c.at 0) v
    filled-Passed v c m f some_digit done =
        let start_one : c.at 0 ≡ starts 1 = omega (arith, f.left 0, done 0) in
        let at = in_place v c m f done in
        record {
          shuffled = f.shuffled;
          sized = f.sized;
          begins = omega arith;
          ends = omega (arith, monotone 1 (suc radix), at_end);
          before = λ j l u.
              let d = bucket_of (v.at j) in
              ground (arith, monotone 1 d, at j l (omega (arith, monotone 1 (suc radix), at_end)));
          behind = λ j l u. ground (arith, at j, monotone (suc (bucket_of (v.at j))) 1);
          ordered = λ i j lo le hi.
              ground (arith, at i, at j, monotone (suc (bucket_of (v.at j))) (bucket_of (v.at i)));
        }

  -- A pass over a range inside the array returns, for a radix that is not 0, a digit_of that gives
  -- every key only digits from -1 to below the radix, and fewer than 2^31 keys: every test is passed by
  -- as many keys of the range as before, the others stay, and the range is in the order of the digits
  -- at `index`, with the keys that have ended before the place returned.
  pub pass-Passed :
      (first n index : ℕ) (v : Array A)
      → first + n ≤ v.size
      → n < 2 ^ 31
      → 0 < radix
      → Returns
          (λ (next, v'). Passed first n index v next v')
          (pass radix digit_of first (first + n) index v)
  unfolding pass zeros
  pass-Passed first n index v inside small some_digit =
      let whole : first + n - first ≡ n = omega arith in
      rw whole (
        Returns-bind
          (count_digits-ok radix digit_of digits n index first v (zeros (radix + 2))
            (zeros (radix + 1)) inside refl refl (λ b. omega arith) (λ b. omega arith))
          λ (counts, remaining) (cs, ms, c0, counted_next, counted_here).
            Returns-bind
              (partial_sum-ok (starts first n index v inside small)
                (counted first n index v inside small) (radix + 1) 0 counts (omega arith)
                (start-suc radix digit_of digits first n index v inside small)
                (λ j l. omega (
                  arith,
                  monotone first n index v inside small j (suc radix),
                  at_end first n index v inside small,
                ))
                (λ j l. ground (arith, c0, below_digit-zero radix digit_of index v.at first n))
                (λ j l. omega (arith, counted_next j)))
              λ c (cs', sums).
                let all_counted =
                  total-same remaining.at (counted first n index v inside small) (suc radix)
                    (λ b. omega (arith, counted_here b)) in
                Returns-bind
                  (fill_buckets-ok first n index v inside small radix (suc n) 0 v c remaining
                    (initial-Fills first n index v inside small c remaining (omega arith) ms
                      (λ b l. sums b (omega arith)) (λ b. omega (arith, counted_here b)))
                    (omega arith)
                    (omega (
                      arith,
                      all_counted,
                      total-counted first n index v inside small (suc radix),
                      at_end first n index v inside small,
                    ))
                    (λ q l. absurd (omega arith)))
                  λ (v', c', m') (f, done). rw (get-ok 0 c' (omega (arith, f.counts_sized))) (
                    returns
                      (filled-Passed first n index v inside small v' c' m' f some_digit done)))
