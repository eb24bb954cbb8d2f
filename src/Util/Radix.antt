-- ===== src/Util/Radix.antt =====
-- src/util/radix.tpp: the in-place radix sort. The range is an array of which every access is checked;
-- `int` counts that leave their range are undefined behaviour.
pub mod Shuffle
pub mod Digits
pub mod Fill
pub mod Pass
pub mod Runs
pub mod FindLast
pub mod Sort
mod Tests
use cpp_util.Prelude.{
  ℕ, zero, suc, ◌+◌, ◌-◌, ◌^◌, ℤ, pos, negsuc, ◌==ℤ◌, Bool, true, false, not, ◌&&◌, ltb, leb, ◌==◌,
  if◌then◌else◌, Run, ok, fault, uassert, undefined, out_of_fuel, ◌>>=◌, ◌>>◌, assert,
}

pub record Array {ℓ} (A : Type ℓ) : Type ℓ where
  pub size : ℕ
  pub at : ℕ → A

abbrev pub update {ℓ} : {A : Type ℓ} → (ℕ → A) → ℕ → A → ℕ → A
update f p a q = if p == q then a else f q

module _ {ℓ} {A : Type ℓ} where
  unfoldable pub get : ℕ → Array A → Run A
  get i v = if ltb i v.size then ok (v.at i) else fault undefined

  unfoldable pub put : ℕ → A → Array A → Run (Array A)
  put i x v = if ltb i v.size then ok (record v { at = update v.at i x }) else fault undefined

  -- `std::swap(v[i], v[j])`
  unfoldable pub swap : ℕ → ℕ → Array A → Run (Array A)
  unfolding get put
  swap i j v = do x ← get i v; y ← get j v; w ← put i y v; put j x w

-- A sum of two counts.
unfoldable pub add_int : ℕ → ℕ → Run ℕ
add_int a b = if ltb (a + b) (2 ^ 31) then ok (a + b) else fault undefined

-- `++counts[i]`
unfoldable pub incr_at : ℕ → Array ℕ → Run (Array ℕ)
unfolding get put add_int
incr_at i counts = do n ← get i counts; m ← add_int n 1; put i m counts

-- `--counts[i]`, of a count that is not 0.
unfoldable pub decr_at : ℕ → Array ℕ → Run (Array ℕ)
unfolding get put
decr_at i counts = do n ← get i counts; put i (n - 1) counts

-- `std::fill` of an array of `n` counts.
unfoldable pub zeros : ℕ → Array ℕ
zeros n = record { size = n; at = λ _. 0 }

-- `digit + 1`, with the assertion that it is from 0 to the radix.
unfoldable pub bucket : ℕ → ℤ → Run ℕ
bucket radix (pos n) = if ltb n radix then ok (suc n) else fault uassert
bucket radix (negsuc zero) = ok 0
bucket radix (negsuc (suc n)) = fault uassert

-- `std::partial_sum(counts.begin(), counts.end(), counts.begin())` from the place `b`, for `left` places.
unfoldable pub partial_sum : ℕ → ℕ → Array ℕ → Run (Array ℕ)
unfolding get put add_int
partial_sum zero b counts = ok counts
partial_sum (suc left) b counts = do
  n ← get b counts
  m ← get (suc b) counts
  sum ← add_int n m
  counts' ← put (suc b) sum counts
  partial_sum left (suc b) counts'

module _ {ℓ} {A : Type ℓ} (radix : ℕ) (digit_of : ℕ → A → ℤ) where
  -- `while (last != end && digit_of(prev, *last) == digit) ++last`, with `left` elements to `end`.
  unfoldable pub run_end : ℕ → ℕ → ℤ → ℕ → Array A → Run ℕ
  unfolding get
  run_end zero prev digit last v = ok last
  run_end (suc left) prev digit last v = do
    x ← get last v
    let rest = run_end left prev digit (suc last) v
    if digit_of prev x ==ℤ digit then rest else ok last

  -- The end of the range of keys that have the first key's digit before `index`.
  unfoldable pub find_last : ℕ → ℕ → ℕ → Array A → Run ℕ
  unfolding run_end bucket get
  find_last first end zero v = ok end
  find_last first end (suc prev) v = do
    x ← get first v
    b ← bucket radix (digit_of prev x)
    run_end (end - suc first) prev (digit_of prev x) (suc first) v

  -- The loop that counts the digits of `left` keys from `i`.
  unfoldable pub count_digits : ℕ → ℕ → ℕ → Array A → Array ℕ → Array ℕ → Run (Array ℕ × Array ℕ)
  unfolding get bucket incr_at
  count_digits zero index i v counts num_remaining = ok (counts, num_remaining)
  count_digits (suc left) index i v counts num_remaining = do
    x ← get i v
    digit ← bucket radix (digit_of index x)
    counts' ← incr_at (suc digit) counts
    num_remaining' ← incr_at digit num_remaining
    count_digits left index (suc i) v counts' num_remaining'

  -- The body of the `while` that fills the buckets; `i` is where `b` goes on.
  unfoldable pub place_one :
      ℕ → ℕ → ℕ → Array A → Array ℕ → Array ℕ → Run (Array A × Array ℕ × Array ℕ)
  unfolding get bucket swap incr_at decr_at
  place_one first index b v counts num_remaining = do
    i ← get b counts
    x ← get (first + i) v
    target ← bucket radix (digit_of index x)
    j ← get target counts
    v' ← swap (first + i) (first + j) v
    counts' ← incr_at target counts
    num_remaining' ← decr_at target num_remaining
    ok (v', counts', num_remaining')

  -- The `while` for the bucket `b`.
  unfoldable pub fill_bucket :
      ℕ → ℕ → ℕ → ℕ → Array A → Array ℕ → Array ℕ → Run (Array A × Array ℕ × Array ℕ)
  unfolding place_one get
  fill_bucket zero first index b v counts num_remaining = fault out_of_fuel
  fill_bucket (suc fuel) first index b v counts num_remaining = do
    n ← get b num_remaining
    let more : Run (Array A × Array ℕ × Array ℕ) = do
      (v', counts', num_remaining') ← place_one first index b v counts num_remaining
      fill_bucket fuel first index b v' counts' num_remaining'
    if ltb 0 n then more else ok (v, counts, num_remaining)

  -- The `for` over the buckets, with `left` buckets from `b`.
  unfoldable pub fill_buckets :
      ℕ → ℕ → ℕ → ℕ → ℕ → Array A → Array ℕ → Array ℕ → Run (Array A × Array ℕ × Array ℕ)
  unfolding fill_bucket
  fill_buckets zero fuel first index b v counts num_remaining = ok (v, counts, num_remaining)
  fill_buckets (suc left) fuel first index b v counts num_remaining = do
    (v', counts', num_remaining') ← fill_bucket fuel first index b v counts num_remaining
    fill_buckets left fuel first index (suc b) v' counts' num_remaining'

  -- All but the recursive calls: the range from `first` to `last` in the order of its digits at
  -- `index`, and where the keys that have not ended begin.
  unfoldable pub pass : ℕ → ℕ → ℕ → Array A → Run (ℕ × Array A)
  unfolding zeros count_digits partial_sum fill_buckets get
  pass first last index v = do
    (counts, num_remaining) ←
        count_digits (last - first) index first v (zeros (radix + 2)) (zeros (radix + 1))
    starts ← partial_sum (radix + 1) 0 counts
    (v', counts', num_remaining') ←
        fill_buckets radix (suc (last - first)) first index 0 v starts num_remaining
    ended ← get 0 counts'
    ok (first + ended, v')

  -- The `do … while (next != last)`, with the recursive call `sort`.
  unfoldable pub sort_runs :
      ℕ → (ℕ → Array A → Run (ℕ × Array A)) → ℕ → ℕ → Array A → Run (ℕ × Array A)
  sort_runs zero sort next last v = fault out_of_fuel
  sort_runs (suc fuel) sort next last v = do
    (next', v') ← sort next v
    let rest = sort_runs fuel sort next' last v'
    if next' == last then ok (next', v') else rest

  -- `depth` bounds the depth of the recursion.
  unfoldable pub msd_in_place_recursive : ℕ → ℕ → ℕ → ℕ → Array A → Run (ℕ × Array A)
  unfolding find_last pass sort_runs
  msd_in_place_recursive zero first end index v = fault out_of_fuel
  msd_in_place_recursive (suc depth) first end index v =
      let work : Run (ℕ × Array A) = do
        last ← find_last first end index v
        (next, v') ← pass first last index v
        sort_runs (suc (last - first)) (λ n w. msd_in_place_recursive depth n last (suc index) w)
            next last v'
      in if first == end then ok (end, v) else work

  unfoldable pub msd_in_place_radix : ℕ → Array A → Run (Array A)
  unfolding msd_in_place_recursive
  msd_in_place_radix depth v = do (last, v') ← msd_in_place_recursive depth 0 v.size 0 v; ok v'
