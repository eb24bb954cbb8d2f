-- ===== src/Util/Radix/FindLast.antt =====
-- The run of keys that `find_last` finds.
use cpp_util.Prelude.{
  ℕ, zero, suc, ◌+◌, ◌-◌, ◌≤◌, ◌<◌, ◌≡◌, refl, ◌≢◌, ap, ◌∙◌, sym, ℤ, ◌==ℤ◌, true, Returns, returns,
  Returns-map, Returns-if, ℕ_discrete, arith,
}
use cpp_util.Util.Radix.{Array, run_end, find_last}
use cpp_util.Util.Radix.Digits.{IsDigit, bucket-place, get-ok, at_digit}
use cpp_util.Util.Radix.Runs.{place_same, IsRun}

module _ {ℓ} {A : Type ℓ} (radix : ℕ) (digit_of : ℕ → A → ℤ)
    (digits : (k : ℕ) (x : A) → IsDigit radix (digit_of k x)) where
  abbrev D : ℕ → A → ℕ
  D = at_digit radix digit_of

  -- The end of the run of keys with the digit of `x`.
  run_end-ok :
      (left prev last : ℕ) (x : A) (v : Array A)
      → last + left ≤ v.size
      → Returns
          (λ r.
            (last ≤ r)
            × (r ≤ last + left)
            × ((j : ℕ) → last ≤ j → j < r → D prev (v.at j) ≡ D prev x)
            × (r < last + left → D prev (v.at r) ≢ D prev x))
          (run_end radix digit_of left prev (digit_of prev x) last v)
  unfolding run_end
  run_end-ok zero prev last x v h =
      returns (omega arith, omega arith, (λ j l u. absurd (omega arith)), λ u. absurd (omega arith))
  run_end-ok (suc left) prev last x v h =
      let equal = place_same (digits prev (v.at last)) (digits prev x) in
      let here : (digit_of prev (v.at last) ==ℤ digit_of prev x) ≡ true
          → D prev (v.at last) ≡ D prev x =
        λ on. ground (arith, equal) in
      rw (get-ok last v (omega arith)) (
        Returns-if (digit_of prev (v.at last) ==ℤ digit_of prev x)
          (λ on.
            Returns-map (run_end-ok left prev (suc last) x v (omega arith)) λ r (lo, hi, all, stop).
              (
                omega arith,
                omega arith,
                (λ j l u. elim (ℕ_discrete last j) [
                  | yes e ↦ ap (λ k. D prev (v.at k)) (sym e) ∙ here on
                  | no ne ↦ all j (omega arith) u
                ]),
                λ u. stop (omega arith),
              ))
          λ off. returns (
            omega arith,
            omega arith,
            (λ j l u. absurd (omega arith)),
            λ u e. ground (arith, equal, off),
          ))

  pub find_last-IsRun :
      (first end index : ℕ) (v : Array A)
      → first < end
      → end ≤ v.size
      → Returns
          (λ r. (first < r) × (r ≤ end) × IsRun radix digit_of index first r end v.at)
          (find_last radix digit_of first end index v)
  unfolding find_last
  find_last-IsRun first end zero v h inside = returns (h, omega arith, refl)
  find_last-IsRun first end (suc prev) v h inside =
      let whole : suc first + (end - suc first) ≡ end = omega arith in
      rw (get-ok first v (omega arith), (bucket-place radix (digits prev (v.at first))).0)
        (Returns-map (run_end-ok (end - suc first) prev (suc first) (v.at first) v (omega arith))
          λ r (lo, hi, all, stop). (
            omega arith,
            omega arith,
            (
              (λ j l u. elim (ℕ_discrete first j) [
                | yes e ↦ ap (λ k. D prev (v.at k)) (sym e)
                | no ne ↦ all j (omega arith) u
              ]),
              λ u. stop (omega arith),
            ),
          ))
