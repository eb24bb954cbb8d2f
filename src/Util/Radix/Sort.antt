-- ===== src/Util/Radix/Sort.antt =====
-- The sort as a whole: the recursion.
use cpp_util.Prelude.{
  ℕ, zero, suc, ◌+◌, ◌-◌, ◌^◌, ◌≤◌, ◌<◌, ◌≡◌, refl, ap, ◌∙◌, sym, subst, inl, ℤ, Bool, true, ◌==◌,
  Returns, returns, Returns-map, Returns-bind, Returns-if, dec_lt, arith,
}
use cpp_util.Util.Radix.{Array, pass, msd_in_place_recursive, msd_in_place_radix}
use cpp_util.Util.Radix.Shuffle.{tally, Shuffled-refl, Shuffled-trans, Shuffled-all, Shuffled-wider}
use cpp_util.Util.Radix.Digits.{IsDigit, at_digit}
use cpp_util.Util.Radix.Pass.{Passed, pass-Passed}
use cpp_util.Util.Radix.Runs.{
  Precedes, done, ends_in, IsRun, SortedRun, Ready, Finished, sort_runs-Finished,
}
use cpp_util.Util.Radix.FindLast.{find_last-IsRun}

module _ {ℓ} {A : Type ℓ} (radix : ℕ) (digit_of : ℕ → A → ℤ)
    (digits : (k : ℕ) (x : A) → IsDigit radix (digit_of k x)) where
  abbrev D : ℕ → A → ℕ
  D = at_digit radix digit_of

  -- The loop over the runs, in a range that has been passed.
  Passed-Ready :
      (index m first n : ℕ) (v0 : Array A) (next : ℕ) (v : Array A)
      → first + n ≤ v0.size
      → ((j : ℕ)
          → first ≤ j
          → j < first + n
          → ends_in radix digit_of index (suc m) (v0.at j) ≡ true)
      → Passed radix digit_of digits first n index v0 next v
      → Ready radix digit_of index (first + n) m next v
  Passed-Ready index m first n v0 next v inside ending p = record {
    below = p.ends;
    inside = omega (arith, p.sized);
    going = p.behind;
    ordered = λ i j l le u. p.ordered i j (omega (arith, p.begins)) le u;
    ending = λ j l u. ground (
      arith,
      p.behind j l u,
      Shuffled-all (λ x. ends_in radix digit_of index (suc m) x) p.shuffled ending j
          (omega (arith, p.begins)) u,
    );
  }

  range_Ready :
      (index m first last : ℕ) (v0 : Array A) (next : ℕ) (v : Array A)
      → first ≤ last
      → last ≤ v0.size
      → ((j : ℕ) → first ≤ j → j < last → ends_in radix digit_of index (suc m) (v0.at j) ≡ true)
      → Passed radix digit_of digits first (last - first) index v0 next v
      → Ready radix digit_of index last m next v
  range_Ready index m first last v0 next v le inside ending p =
      subst (λ k. Ready radix digit_of index k m next v) (omega arith)
        (Passed-Ready index m first (last - first) v0 next v (omega arith)
          (λ j l u. ending j l (omega arith)) p)

  range_Passed :
      0 < radix
      → (first last index : ℕ) (v : Array A) → first ≤ last
      → last ≤ v.size
      → last < 2 ^ 31
      → Returns
          (λ (next, w). Passed radix digit_of digits first (last - first) index v next w)
          (pass radix digit_of first last index v)
  range_Passed some_digit first last index v le inside small =
      subst
        (λ k.
          Returns (λ (next, w). Passed radix digit_of digits first (last - first) index v next w)
            (pass radix digit_of first k index v))
        (omega arith)
        (pass-Passed radix digit_of digits first (last - first) index v (omega arith) (omega arith)
          some_digit)

  -- A pass, and the runs behind the keys that have ended.
  Passed-SortedRun :
      (index m first last end : ℕ) (v0 : Array A) (next : ℕ) (v w : Array A)
      → first < last
      → last ≤ end
      → IsRun radix digit_of index first last end v0.at
      → Passed radix digit_of digits first (last - first) index v0 next v
      → Finished radix digit_of index last m next v w
      → SortedRun radix digit_of index first end v0 last w
  Passed-SortedRun index m first last end v0 next v w some_key inside run p f =
      let front : (i : ℕ) → i < next → w.at i ≡ v.at i = λ i l. f.shuffled.outside i (inl l) in
      record {
        shuffled = Shuffled-trans p.shuffled (
            Shuffled-wider first (last - first) p.begins (omega (arith, p.begins, p.ends))
              f.shuffled);
        sized = f.sized ∙ p.sized;
        begins = omega arith;
        ends = inside;
        moves = λ h. some_key;
        run = run;
        ordered = λ i j l le u. elim (dec_lt i next) [
          | yes before ↦ done (ap (D index) (front i before) ∙ p.before i l before)
          | no after ↦ f.ordered i j (omega arith) le u
        ];
      }

  none_IsRun :
      (index first end : ℕ) (f : ℕ → A) → first ≡ end → IsRun radix digit_of index first end end f
  none_IsRun zero first end f e = refl
  none_IsRun (suc prev) first end f e = ((λ j l u. absurd (omega arith)), λ u. absurd (omega arith))

  none_SortedRun :
      (index first end : ℕ) (v : Array A)
      → first ≡ end
      → SortedRun radix digit_of index first end v end v
  none_SortedRun index first end v e = record {
    shuffled = Shuffled-refl first (end - first) v.at;
    sized = refl;
    begins = omega arith;
    ends = omega arith;
    moves = λ h. absurd (omega arith);
    run = none_IsRun index first end v.at e;
    ordered = λ i j l le u. absurd (omega arith);
  }

  module _ (some_digit : 0 < radix) where
    recursive-SortedRun :
        (m index first end : ℕ) (v : Array A)
        → first ≤ end
        → end ≤ v.size
        → end < 2 ^ 31
        → ((j : ℕ) → first ≤ j → j < end → ends_in radix digit_of index m (v.at j) ≡ true)
        → Returns
            (λ (r, w). SortedRun radix digit_of index first end v r w)
            (msd_in_place_recursive radix digit_of (suc m) first end index v)
    unfolding msd_in_place_recursive
    recursive-SortedRun zero index first end v le inside small ending =
        Returns-if (first == end)
          (λ none_left. returns (none_SortedRun index first end v (ground arith)))
          λ some_left. absurd (ground (arith, ending first))
    recursive-SortedRun (suc m) index first end v le inside small ending =
        Returns-if (first == end)
          (λ none_left. returns (none_SortedRun index first end v (ground arith)))
          λ some_left.
            let some_key : first < end = ground arith in
            Returns-bind (find_last-IsRun radix digit_of digits first end index v some_key inside)
              λ last (moved, within, run).
                Returns-bind
                  (range_Passed some_digit first last index v (omega arith) (omega arith)
                    (omega arith))
                  λ (next, w) p.
                    Returns-map
                      (sort_runs-Finished radix digit_of index last m
                        (λ n u. msd_in_place_recursive radix digit_of (suc m) n last (suc index) u)
                        (λ n u ready.
                          recursive-SortedRun m (suc index) n last u ready.below ready.inside
                            (omega arith) ready.ending)
                        (suc (last - first)) next w
                        (range_Ready index m first last v next w (omega arith) (omega arith)
                          (λ j l u. ending j l (omega arith)) p)
                        (omega (arith, p.begins)))
                      λ (r, u) (e, f).
                        subst (λ k. SortedRun radix digit_of index first end v k u) (sym e)
                          (Passed-SortedRun index m first last end v next w u moved within run p f)

    -- The order that the whole range is left in, with the elements that it had.
    pub record Sorted (v w : Array A) : Type ℓ where
      pub sized : w.size ≡ v.size
      pub elements :
          (test : A → Bool)
          → tally (λ j. test (w.at j)) 0 v.size ≡ tally (λ j. test (v.at j)) 0 v.size
      pub ordered : (i j : ℕ) → i < j → j < v.size → Precedes radix digit_of (w.at i) (w.at j) 0

    -- For a radix that is not 0, a digit_of that gives every key only digits from -1 to below the
    -- radix, and fewer than 2^31 keys that all end within `m` digits, the sort returns, with a
    -- recursion no deeper than m + 1: the range is as long as before, every test is passed by as many
    -- of its elements as before, and they are in lexicographic order of their digits.
    pub msd_in_place_radix-Sorted :
        (m : ℕ) (v : Array A)
        → v.size < 2 ^ 31
        → ((j : ℕ) → j < v.size → ends_in radix digit_of 0 m (v.at j) ≡ true)
        → Returns (Sorted v) (msd_in_place_radix radix digit_of (suc m) v)
    unfolding msd_in_place_radix
    msd_in_place_radix-Sorted m v small ending =
        Returns-bind
          (recursive-SortedRun m 0 0 v.size v (omega arith) (omega arith) small λ j l u. ending j u)
          λ (r, w) s. returns record {
            sized = s.sized;
            elements =
                (Shuffled-wider 0 v.size (omega arith) (omega (arith, s.ends)) s.shuffled).counts;
            ordered = λ i j l u. s.ordered i j (omega arith) l (omega (arith, s.run));
          }
