-- ===== src/Util/Radix/Fill.antt =====
-- The loop that fills the buckets: its invariant, and that a swap keeps it.
use cpp_util.Prelude.{
  ℕ, zero, suc, ◌+◌, ◌-◌, ◌^◌, ◌≤◌, ◌<◌, ◌≡◌, refl, ◌≢◌, ap, ◌∙◌, ◌⊎◌, ℤ, ◌==◌, Returns, returns,
  eq→==, ne→==, ℕ_discrete, arith,
}
use cpp_util.Util.Radix.{Array, update, place_one}
use cpp_util.Util.Radix.Shuffle.{interval-lt, Shuffled, Shuffled-trans, swapped, swapped-Shuffled}
use cpp_util.Util.Radix.Digits.{
  IsDigit, bucket-place, get-ok, put-ok, add_int-ok, at_digit, of_digit, below_digit,
  below_digit-suc, below_digit-le, below_digit-all,
}

abbrev pub total : (ℕ → ℕ) → ℕ → ℕ
total f zero = 0
total f (suc n) = total f n + f n

total_outside : (f : ℕ → ℕ) (t x n : ℕ) → n ≤ t → total (update f t x) n ≡ total f n
total_outside f t x zero h = refl
total_outside f t x (suc n) h = grind (arith, total_outside f t x n (omega arith))

pub total-update : (f : ℕ → ℕ) (t x n : ℕ) → t < n → total (update f t x) n + f t ≡ total f n + x
total-update f t x zero h = absurd (omega arith)
total-update f t x (suc n) h = elim (ℕ_discrete t n) [
  | yes e ↦ grind (arith, total_outside f t x n (omega arith), ap f e)
  | no ne ↦ grind (arith, total-update f t x n (omega arith))
]

module _ {ℓ} {A : Type ℓ} (radix : ℕ) (digit_of : ℕ → A → ℤ)
    (digits : (k : ℕ) (x : A) → IsDigit radix (digit_of k x)) (first n index : ℕ) (v0 : Array A)
    (inside : first + n ≤ v0.size) (small : n < 2 ^ 31) where
  -- The bucket of a key, and where each bucket begins.
  abbrev pub key : A → ℕ
  key x = at_digit radix digit_of index x

  abbrev pub start : ℕ → ℕ
  start b = below_digit radix digit_of index v0.at first n b

  abbrev pub count : ℕ → ℕ
  count b = of_digit radix digit_of index v0.at first n b

  pub start-suc : (b : ℕ) → start (suc b) ≡ start b + count b
  start-suc b = below_digit-suc radix digit_of index v0.at first n b

  pub start-le : (b c : ℕ) → b ≤ c → start b ≤ start c
  start-le b c h = below_digit-le radix digit_of index v0.at first n b c h

  pub start-end : start (suc radix) ≡ n
  start-end = below_digit-all radix digit_of digits index v0.at first n

  -- In the middle of the loop: the bucket `b` is filled up to `c.at b`, and `m.at b` of its places
  -- are left.
  pub record Filling (v : Array A) (c m : Array ℕ) : Type ℓ where
    pub shuffled : Shuffled first n v0.at v.at
    pub sized : v.size ≡ v0.size
    pub counts_sized : c.size ≡ radix + 2
    pub remaining_sized : m.size ≡ radix + 1
    pub begun : (b : ℕ) → b ≤ radix → start b ≤ c.at b
    pub left : (b : ℕ) → b ≤ radix → c.at b + m.at b ≡ start (suc b)
    pub placed : (b j : ℕ) → b ≤ radix → start b ≤ j → j < c.at b → key (v.at (first + j)) ≡ b

  -- A place outside of the bucket of its key means that the bucket is not full.
  pub room :
      (v : Array A) (e j b : ℕ)
      → Shuffled first n v0.at v.at
      → start b ≤ e
      → e ≤ n
      → ((i : ℕ) → start b ≤ i → i < e → key (v.at (first + i)) ≡ b)
      → j < n
      → (j < start b) ⊎ (e ≤ j)
      → key (v.at (first + j)) ≡ b
      → e < start (suc b)
  room v e j b shuffled le below all inside_j out at =
      let counted = shuffled.counts λ x. key x == b in
      let more =
        interval-lt (λ i. key (v.at i) == b) (first + start b) (first + e) (first + j) first n
          (omega arith) (omega arith) (omega arith) (omega arith) (omega arith)
          (ground (arith, out))
          (λ i l u.
            let here : key (v.at i) ≡ key (v.at (first + (i - first))) =
              ap (λ k. key (v.at k)) (omega arith) in
            eq→== (key (v.at i)) b (here ∙ all (i - first) (omega arith) (omega arith)))
          (ground (arith, at)) in
      omega (arith, start-suc b, counted, more)

  -- After one swap: the bucket of the key moved has one place less left.
  pub record Placed (m m' : Array ℕ) : Type 0 where
    pub fewer : (b : ℕ) → m'.at b ≤ m.at b
    pub one : total m'.at (suc radix) + 1 ≡ total m.at (suc radix)

  -- A place is in one bucket.
  pub one_bucket :
      (q r k : ℕ) → start q ≤ k → k < start (suc q) → start r ≤ k → k < start (suc r) → q ≡ r
  one_bucket q r k l u l' u' = ground (arith, start-le (suc q) r, start-le (suc r) q)

  -- The counts after a key went to the bucket `t`.
  advanced-left :
      (t : ℕ) (v : Array A) (c m : Array ℕ)
      → Filling v c m
      → t ≤ radix
      → 0 < m.at t
      → (q : ℕ) → q ≤ radix
      → update c.at t (c.at t + 1) q + update m.at t (m.at t - 1) q ≡ start (suc q)
  advanced-left t v c m f le more q l = elim (ℕ_discrete t q) [
    | yes e ↦ rw (eq→== t q e) (omega (arith, f.left t le, ap start (ap suc e)))
    | no ne ↦ rw (ne→== t q ne) (f.left q l)
  ]

  kept_below : (c : ℕ → ℕ) (t q k : ℕ) → k < update c t (c t + 1) q → c t ≢ k → k < c q
  kept_below c t q k h ne = ground (arith, ap c)

  -- The keys of the buckets after the swap of the key at `c.at b` to its place in the bucket `t`.
  advanced-placed :
      (b t : ℕ) (v : Array A) (c m : Array ℕ)
      → Filling v c m
      → b ≤ radix
      → t ≤ radix
      → key (v.at (first + c.at b)) ≡ t
      → 0 < m.at b
      → 0 < m.at t
      → (q k : ℕ) → q ≤ radix
      → start q ≤ k
      → k < update c.at t (c.at t + 1) q
      → key (swapped v.at (first + c.at b) (first + c.at t) (first + k)) ≡ q
  advanced-placed b t v c m f lb lt at more more' q k lq lo hi =
      let below_next : k < start (suc q) = omega (arith, advanced-left t v c m f lt more' q lq) in
      elim (ℕ_discrete (c.at t) k) [
        | yes e ↦
            let same =
              one_bucket t q k (omega (arith, f.begun t lt)) (omega (arith, f.left t lt)) lo
                below_next in
            rw (eq→== (first + c.at t) (first + k) (omega arith)) (at ∙ same)
        | no ne ↦
            rw (ne→== (first + c.at t) (first + k) (omega arith)) (elim (ℕ_discrete (c.at b) k) [
              | yes e ↦
                  let same =
                    one_bucket q b k lo below_next (omega (arith, f.begun b lb))
                      (omega (arith, f.left b lb)) in
                  absurd (omega (arith, kept_below c.at t q k hi ne, ap c.at same))
              | no ne' ↦
                  rw (ne→== (first + c.at b) (first + k) (omega arith))
                    (f.placed q k lq lo (kept_below c.at t q k hi ne))
            ])
      ]

  pub place_one-Filling :
      (b : ℕ) (v : Array A) (c m : Array ℕ)
      → Filling v c m
      → b < radix
      → 0 < m.at b
      → Returns
          (λ (v', c', m'). Filling v' c' m' × Placed m m')
          (place_one radix digit_of first index b v c m)
  unfolding place_one
  place_one-Filling b v c m f below more =
      let i = c.at b in
      let t = key (v.at (first + i)) in
      let (found, le) = bucket-place radix (digits index (v.at (first + i))) in
      let j = c.at t in
      let i_in : i < n = omega (arith, f.left b, start-le (suc b) (suc radix), start-end) in
      let free : j < start (suc t) = elim (ℕ_discrete t b) [
        | yes e ↦ omega (arith, f.left t le, ap m.at e)
        | no ne ↦
            room v j i t f.shuffled (f.begun t le)
              (omega (arith, f.left t le, start-le (suc t) (suc radix), start-end))
              (λ k l u. f.placed t k le l u) i_in
              (ground (
                arith,
                ne,
                f.begun b,
                f.begun t le,
                f.left b,
                f.left t le,
                start-le (suc b) t,
                start-le (suc t) b,
              ))
              refl
      ] in
      let room_left : 0 < m.at t = omega (arith, f.left t le) in
      let j_in : j < n = omega (arith, start-le (suc t) (suc radix), start-end) in
      let v' : Array A = record v { at = swapped v.at (first + i) (first + j) } in
      let c' : Array ℕ = record c { at = update c.at t (c.at t + 1) } in
      let m' : Array ℕ = record m { at = update m.at t (m.at t - 1) } in
      rw
        (
          get-ok b c (omega (arith, f.counts_sized)),
          get-ok (first + i) v (omega (arith, f.sized)),
          found,
          get-ok t c (omega (arith, f.counts_sized)),
          get-ok (first + j) v (omega (arith, f.sized)),
          put-ok (first + i) (v.at (first + j)) v (omega (arith, f.sized)),
          put-ok (first + j) (v.at (first + i))
              (record v { at = update v.at (first + i) (v.at (first + j)) })
              (omega (arith, f.sized)),
          add_int-ok j 1 (omega arith),
          put-ok t (j + 1) c (omega (arith, f.counts_sized)),
          get-ok t m (omega (arith, f.remaining_sized)),
          put-ok t (m.at t - 1) m (omega (arith, f.remaining_sized)),
        )
        (returns (
          record {
            shuffled = Shuffled-trans f.shuffled (
                swapped-Shuffled first n v.at (first + i) (first + j) (omega arith) (omega arith)
                  (omega arith) (omega arith));
            sized = f.sized;
            counts_sized = f.counts_sized;
            remaining_sized = f.remaining_sized;
            begun = λ q l. grind (arith, f.begun q l);
            left = advanced-left t v c m f le room_left;
            placed = advanced-placed b t v c m f (omega arith) le refl more room_left;
          },
          record {
            fewer = λ q. grind arith;
            one =
                omega
                  (arith, total-update m.at t (m.at t - 1) (suc radix) (omega arith), f.left t le);
          },
        ))
