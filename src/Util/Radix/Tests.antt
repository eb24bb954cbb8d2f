-- ===== src/Util/Radix/Tests.antt =====
-- Runs of the radix sort on lists of digits.
use cpp_util.Prelude.{
  ℕ, zero, suc, ◌≡◌, refl, ℤ, pos, negsuc, List, [], ◌∷◌, length, get_elem?, none, some, ok, ◌>>=◌,
  Bool, true, false, if◌then◌else◌, ◌==◌, ◌+◌, ◌<◌, Returns, arith,
}
use cpp_util.Util.Radix.{Array, msd_in_place_radix, pass}
use cpp_util.Util.Radix.Digits.{IsDigit, digit, ended}
use cpp_util.Util.Radix.Pass.{Passed, pass-Passed}
use cpp_util.Util.Radix.Runs.{ends_in}
use cpp_util.Util.Radix.Sort.{Sorted, msd_in_place_radix-Sorted}

-- A key is its list of digits, and ends where the list does.
digit_of : ℕ → List ℕ → ℤ
digit_of i key = elim (get_elem? key i) [ none ↦ negsuc 0 | some d ↦ pos d ]

array : List (List ℕ) → Array (List ℕ)
array keys = record {
  size = length keys;
  at = λ i. elim (get_elem? keys i) [ none ↦ [] | some key ↦ key ];
}

items : ℕ → ℕ → (ℕ → List ℕ) → List (List ℕ)
items zero i f = []
items (suc n) i f = f i ∷ items n (suc i) f

sorts :
    (msd_in_place_radix 4 digit_of 5 (
        array (
          (3 ∷ 1 ∷ [])
          ∷ (2 ∷ [])
          ∷ []
          ∷ (3 ∷ [])
          ∷ (0 ∷ 3 ∷ 2 ∷ [])
          ∷ (3 ∷ 0 ∷ [])
          ∷ (0 ∷ 3 ∷ 1 ∷ [])
          ∷ []))
      >>= λ v. ok (items 7 0 v.at))
    ≡ ok (
        []
        ∷ (0 ∷ 3 ∷ 1 ∷ [])
        ∷ (0 ∷ 3 ∷ 2 ∷ [])
        ∷ (2 ∷ [])
        ∷ (3 ∷ [])
        ∷ (3 ∷ 0 ∷ [])
        ∷ (3 ∷ 1 ∷ [])
        ∷ [])
unfolding msd_in_place_radix digit_of array items
sorts = refl

-- Keys of bits.
bit_of : ℕ → List Bool → ℤ
bit_of i key = elim (get_elem? key i) [ none ↦ negsuc 0 | some b ↦ if b then pos 1 else pos 0 ]

bit_of-IsDigit : (i : ℕ) (key : List Bool) → IsDigit 2 (bit_of i key)
unfolding bit_of
bit_of-IsDigit i [] = ended
bit_of-IsDigit zero (true ∷ key) = digit (omega arith)
bit_of-IsDigit zero (false ∷ key) = digit (omega arith)
bit_of-IsDigit (suc i) (b ∷ key) = bit_of-IsDigit i key

abbrev bits : Array (List Bool)
bits = record {
  size = 3;
  at = λ i. if i == 0 then true ∷ [] else if i == 1 then [] else false ∷ true ∷ [];
}

bits_end : (j : ℕ) → j < bits.size → ends_in 2 bit_of 0 3 (bits.at j) ≡ true
unfolding bit_of
bits_end zero h = refl
bits_end (suc zero) h = refl
bits_end (suc (suc zero)) h = refl
bits_end (suc (suc (suc j))) h = absurd (omega arith)

msd_in_place_radix-Sorted_example :
    Returns (Sorted 2 bit_of bit_of-IsDigit (omega arith) bits) (msd_in_place_radix 2 bit_of 4 bits)
msd_in_place_radix-Sorted_example =
    msd_in_place_radix-Sorted 2 bit_of bit_of-IsDigit (omega arith) 3 bits (omega arith) bits_end

pass-Passed_example :
    Returns
      (λ (next, v). Passed 2 bit_of bit_of-IsDigit 0 3 0 bits next v)
      (pass 2 bit_of 0 (0 + 3) 0 bits)
pass-Passed_example =
    pass-Passed 2 bit_of bit_of-IsDigit 0 3 0 bits (omega arith) (omega arith) (omega arith)
