-- ===== src/Synchro/Latch.antt =====
-- src/synchro/countdown_latch.hpp and countdown_latch.cpp: `countdown_latch`. The mutex makes each
-- call one step; the condition variable has the threads that wait.
mod Tests
use cpp_util.Prelude.{
  ℤ, pos, negsuc, ℕ, zero, suc, ◌+◌, ◌-◌, ◌≤◌, ◌<◌, ◌≡◌, refl, ◌≢◌, ap, Bool, true, false, List, [],
  ◌∷◌, ◌++◌, ltb, leb, ◌==◌, if◌then◌else◌, Run, ok, ◌>>=◌, ◌>>◌, assert, Returns, returns,
  Returns-bind, Returns-map, eq→==, ne→==, lt→ltb, inl, inr, Bool-cases, ℕ_discrete, arith,
}

-- 0 < n
unfoldable pub is_positive : ℤ → Bool
is_positive (pos zero) = false
is_positive (pos (suc n)) = true
is_positive (negsuc n) = false

-- --n
unfoldable pub pred : ℤ → ℤ
pred (pos zero) = negsuc 0
pred (pos (suc n)) = pos n
pred (negsuc n) = negsuc (suc n)

unfoldable pub is_zero : ℤ → Bool
is_zero (pos zero) = true
is_zero (pos (suc n)) = false
is_zero (negsuc n) = false

pub record CountdownLatch : Type 0 where
  pub unready_count : ℤ
  pub waiting : List ℕ  -- the threads blocked in `wait()`

unfoldable pub countdown_latch : ℤ → Run CountdownLatch
unfolding is_positive
countdown_latch wait = do
  assert (is_positive wait)
  ok (record { unready_count = wait; waiting = [] })

-- `ready_.notify_all()`: each thread that waits tests the count again, and blocks again if it is not 0.
unfoldable pub notify_all : CountdownLatch → CountdownLatch
unfolding is_zero
notify_all l = if is_zero l.unready_count then record l { waiting = [] } else l

unfoldable pub down : CountdownLatch → Run CountdownLatch
unfolding is_positive is_zero pred notify_all
down l =
    let count : Run CountdownLatch = do
      assert (is_positive l.unready_count)
      let counted = record l { unready_count = pred l.unready_count }
      ok (if is_zero counted.unready_count then notify_all counted else counted)
    in if is_zero l.unready_count then ok l else count

-- `wait()` by a thread: it goes on at once, or blocks.
unfoldable pub wait : ℕ → CountdownLatch → CountdownLatch
unfolding is_zero
wait thread l = if is_zero l.unready_count then l else record l { waiting = thread ∷ l.waiting }

unfoldable pub reset : ℤ → CountdownLatch → Run CountdownLatch
unfolding is_positive
reset n l = do assert (is_positive n); ok (record l { unready_count = n })

-- The destructor.
unfoldable pub destroy : CountdownLatch → CountdownLatch
unfolding notify_all
destroy l = notify_all l

-- A call of `down()`, or of `wait()` by a thread.
pub data Call : Type 0 where
  down_call : Call
  wait_call : ℕ → Call

unfoldable pub run : List Call → CountdownLatch → Run CountdownLatch
unfolding down wait
run [] l = ok l
run (down_call ∷ calls) l = down l >>= run calls
run (wait_call thread ∷ calls) l = run calls (wait thread l)

-- How many of the calls are `down()`, and which threads call `wait()`, the last one first.
abbrev pub downs : List Call → ℕ
downs [] = 0
downs (down_call ∷ calls) = suc (downs calls)
downs (wait_call thread ∷ calls) = downs calls

abbrev pub waits : List Call → List ℕ → List ℕ
waits [] threads = threads
waits (down_call ∷ calls) threads = waits calls threads
waits (wait_call thread ∷ calls) threads = waits calls (thread ∷ threads)

-- At 0 every call goes through.
run_open :
    (calls : List Call)
    → run calls (record { unready_count = pos 0; waiting = [] })
      ≡ ok (record { unready_count = pos 0; waiting = [] })
unfolding run down wait is_zero
run_open [] = refl
run_open (down_call ∷ calls) = run_open calls
run_open (wait_call thread ∷ calls) = run_open calls

-- A latch at `n` that is not 0, and any calls: below `n` calls of `down()` every thread that calls
-- `wait()` is blocked and the count is what is left; from the `n`th on none is blocked, and the
-- count stays at 0.
pub run-downs :
    (calls : List Call) (n : ℕ) (threads : List ℕ)
    → run calls (record { unready_count = pos (suc n); waiting = threads })
      ≡ ok (
          if leb (suc n) (downs calls)
          then record { unready_count = pos 0; waiting = [] }
          else record { unready_count = pos (suc n - downs calls); waiting = waits calls threads })
unfolding run down wait is_zero is_positive pred notify_all
run-downs [] n threads =
    let none_down : leb (suc n) 0 ≡ false = ground arith in
    let all_left : suc n - 0 ≡ suc n = omega arith in rw (none_down, all_left) refl
run-downs (down_call ∷ calls) zero threads =
    let all_down : leb 1 (suc (downs calls)) ≡ true = ground arith in rw all_down (run_open calls)
run-downs (down_call ∷ calls) (suc n) threads =
    let one_down : leb (suc (suc n)) (suc (downs calls)) ≡ leb (suc n) (downs calls) =
      ground arith in
    let one_less : suc (suc n) - suc (downs calls) ≡ suc n - downs calls = omega arith in
    rw (one_down, one_less) (run-downs calls n threads)
run-downs (wait_call thread ∷ calls) n threads = run-downs calls n (thread ∷ threads)
