-- ===== src/Util/Radix/Runs.antt =====
-- The order of keys by their digits, and the loop over the runs of keys with the same digit.
use cpp_util.Prelude.{
  ℕ, zero, suc, ◌-◌, ◌≤◌, ◌<◌, ◌≡◌, refl, ◌≢◌, ap, ◌∙◌, sym, inl, inr, ℤ, ◌==ℤ◌, Bool, true, false,
  ltb, ◌==◌, if◌then◌else◌, Run, Returns, returns, Returns-map, Returns-bind, Returns-if, eq→==,
  lt→ltb, dec_lt, arith,
}
use cpp_util.Util.Radix.{Array, sort_runs}
use cpp_util.Util.Radix.Shuffle.{Shuffled, Shuffled-trans, Shuffled-all, Shuffled-wider}
use cpp_util.Util.Radix.Digits.{IsDigit, digit, ended, place, at_digit}

pub place_same :
    {radix : ℕ} {y z : ℤ} → IsDigit radix y → IsDigit radix z → (y ==ℤ z) ≡ (place y == place z)
place_same (digit h) (digit h') = ground arith
place_same (digit h) ended = ground arith
place_same ended (digit h) = ground arith
place_same ended ended = refl

module _ {ℓ} {A : Type ℓ} (radix : ℕ) (digit_of : ℕ → A → ℤ) where
  abbrev D : ℕ → A → ℕ
  D = at_digit radix digit_of

  -- The order of keys from the digit `k` on; a key that has ended comes first.
  pub data Precedes (x y : A) : ℕ → Type 0 where
    done : {k : ℕ} → D k x ≡ 0 → Precedes x y k
    less : {k : ℕ} → D k x < D k y → Precedes x y k
    same : {k : ℕ} → D k x ≡ D k y → 0 < D k x → Precedes x y (suc k) → Precedes x y k

  -- One of the `n` digits from `k` is the end of the key.
  abbrev pub ends_in : ℕ → ℕ → A → Bool
  ends_in k zero x = false
  ends_in k (suc n) x = if D k x == 0 then true else ends_in (suc k) n x

  -- The keys from `first` to `r` are those up to `end` with the first one's digit before `index`.
  abbrev pub IsRun : ℕ → ℕ → ℕ → ℕ → (ℕ → A) → Type 0
  IsRun zero first r end f = r ≡ end
  IsRun (suc prev) first r end f =
      ((j : ℕ) → first ≤ j → j < r → D prev (f j) ≡ D prev (f first))
      × (r < end → D prev (f r) ≢ D prev (f first))

  -- What a call on the range from `first` to `end` makes of it.
  pub record SortedRun (index first end : ℕ) (v0 : Array A) (r : ℕ) (v : Array A) : Type ℓ where
    pub shuffled : Shuffled first (r - first) v0.at v.at
    pub sized : v.size ≡ v0.size
    pub begins : first ≤ r
    pub ends : r ≤ end
    pub moves : first < end → first < r
    pub run : IsRun index first r end v0.at
    pub ordered : (i j : ℕ) → first ≤ i → i < j → j < r → Precedes (v.at i) (v.at j) index

  module _ (index last m : ℕ) where
    -- Keys with digits at `index`, in the order of them.
    pub record Ready (next : ℕ) (v : Array A) : Type ℓ where
      pub below : next ≤ last
      pub inside : last ≤ v.size
      pub going : (j : ℕ) → next ≤ j → j < last → 0 < D index (v.at j)
      pub ordered : (i j : ℕ) → next ≤ i → i ≤ j → j < last → D index (v.at i) ≤ D index (v.at j)
      pub ending : (j : ℕ) → next ≤ j → j < last → ends_in (suc index) m (v.at j) ≡ true

    pub record Finished (next : ℕ) (v0 v : Array A) : Type ℓ where
      pub shuffled : Shuffled next (last - next) v0.at v.at
      pub sized : v.size ≡ v0.size
      pub ordered : (i j : ℕ) → next ≤ i → i < j → j < last → Precedes (v.at i) (v.at j) index

    -- The keys of a sorted run keep its digit.
    run_digit :
        (next r : ℕ) (v w : Array A)
        → SortedRun (suc index) next last v r w
        → (j : ℕ) → next ≤ j
        → j < r
        → D index (w.at j) ≡ D index (v.at next)
    run_digit next r v w s j l u = ground (
      arith,
      Shuffled-all (λ x. D index x == D index (v.at next)) s.shuffled
          (λ i l' u'. eq→== _ _ (s.run.0 i l' (omega arith))) j l (omega (arith, s.begins)),
    )

    later_Ready :
        (next r : ℕ) (v w : Array A)
        → Ready next v
        → SortedRun (suc index) next last v r w
        → Ready r w
    later_Ready next r v w ready s =
        let kept : (j : ℕ) → r ≤ j → w.at j ≡ v.at j =
          λ j l. s.shuffled.outside j (inr (omega (arith, s.begins))) in
        record {
          below = s.ends;
          inside = omega (arith, ready.inside, s.sized);
          going = λ j l u. rw (kept j l) (ready.going j (omega (arith, s.begins)) u);
          ordered = λ i j l le u.
              rw (kept i l, kept j (omega arith))
                (ready.ordered i j (omega (arith, s.begins)) le u);
          ending = λ j l u. rw (kept j l) (ready.ending j (omega (arith, s.begins)) u);
        }

    run_ordered :
        (next r : ℕ) (v w : Array A)
        → Ready next v
        → SortedRun (suc index) next last v r w
        → (i j : ℕ) → next ≤ i
        → i < j
        → j < r
        → Precedes (w.at i) (w.at j) index
    run_ordered next r v w ready s i j l le u =
        let di = run_digit next r v w s i l (omega arith) in
        let dj = run_digit next r v w s j (omega arith) u in
        same (di ∙ sym dj)
          (omega (arith, di, ready.going next (omega arith) (omega (arith, s.ends))))
          (s.ordered i j l le u)

    rest_higher :
        (next r : ℕ) (v w : Array A)
        → Ready next v
        → SortedRun (suc index) next last v r w
        → (j : ℕ) → r ≤ j
        → j < last
        → D index (v.at next) < D index (w.at j)
    rest_higher next r v w ready s j l u =
        let kept = ap (D index) (s.shuffled.outside j (inr (omega (arith, s.begins)))) in
        let up = ready.ordered next r (omega arith) s.begins (omega arith) in
        let on = ready.ordered r j s.begins l u in
        let new = s.run.1 (omega arith) in ground (arith, kept, up, on, new)

    -- A sorted run, and the rest sorted behind it.
    joined :
        (next r : ℕ) (v w u : Array A)
        → Ready next v
        → next < last
        → SortedRun (suc index) next last v r w
        → Finished r w u
        → Finished next v u
    joined next r v w u ready some_key s f =
        let front : (i : ℕ) → i < r → u.at i ≡ w.at i = λ i l. f.shuffled.outside i (inl l) in
        let higher : (j : ℕ) → r ≤ j → j < last → D index (v.at next) < D index (u.at j) =
          λ j l below. ground (
            arith,
            Shuffled-all (λ x. ltb (D index (v.at next)) (D index x)) f.shuffled
                (λ i l' u'. lt→ltb _ _ (rest_higher next r v w ready s i l' (omega arith))) j l
                (omega arith),
          ) in
        record {
          shuffled =
              Shuffled-trans
                (Shuffled-wider next (last - next) (omega arith) (omega (arith, s.begins, s.ends))
                  s.shuffled)
                (Shuffled-wider next (last - next) s.begins (omega (arith, s.begins, s.ends))
                  f.shuffled);
          sized = f.sized ∙ s.sized;
          ordered = λ i j l le below. elim (dec_lt j r) [
            | yes jr ↦
                rw (front i (omega arith), front j jr) (run_ordered next r v w ready s i j l le jr)
            | no jr ↦ elim (dec_lt i r) [
              | yes ir ↦ less (
                  omega (
                    arith,
                    higher j (omega arith) below,
                    ap (D index) (front i ir),
                    run_digit next r v w s i l ir,
                  ))
              | no ir ↦ f.ordered i j (omega arith) le below
            ]
          ];
        }

    -- The loop over the runs, with a call that sorts each of them.
    pub sort_runs-Finished :
        (sort : ℕ → Array A → Run (ℕ × Array A))
        → ((next : ℕ) (v : Array A)
            → Ready next v
            → Returns (λ (r, w). SortedRun (suc index) next last v r w) (sort next v))
        → (fuel next : ℕ) (v : Array A) → Ready next v
        → last - next < fuel
        → Returns
            (λ (r, w). (r ≡ last) × Finished next v w)
            (sort_runs radix digit_of fuel sort next last v)
    unfolding sort_runs
    sort_runs-Finished sort sorts zero next v ready enough = absurd (omega arith)
    sort_runs-Finished sort sorts (suc fuel) next v ready enough =
        Returns-bind (sorts next v ready) λ (r, w) s.
          Returns-if (r == last)
            (λ at_end. returns (
              ground arith,
              record {
                shuffled =
                    Shuffled-wider next (last - next) (omega arith)
                      (omega (arith, s.begins, s.ends)) s.shuffled;
                sized = s.sized;
                ordered = λ i j l le u. run_ordered next r v w ready s i j l le (ground arith);
              },
            ))
            λ more.
              let differ : r ≢ last = ground arith in
              let some_key : next < last = omega (arith, differ, s.begins, s.ends) in
              Returns-map
                (sort_runs-Finished sort sorts fuel r w (later_Ready next r v w ready s)
                  (omega (arith, s.moves some_key, s.ends)))
                λ (r', u) (e, f). (e, joined next r v w u ready some_key s f)
