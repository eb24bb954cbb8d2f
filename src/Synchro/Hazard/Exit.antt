-- ===== src/Synchro/Hazard/Exit.antt =====
-- A thread's exit and the program's: what is left is passed on, and at last deleted.
use cpp_util.Prelude.{
  ℕ, ◌+◌, ◌≡◌, refl, inl, inr, subst, sym, Bool, true, List, [], ◌∷◌, length, ◌==◌, Bool-cases,
  ne→==, eq→==, arith,
}
use cpp_util.Synchro.Hazard.{Ptr, update, Hazards, add_rlist, leave, exit_thread, exit_program}
use cpp_util.Synchro.Hazard.Count.{count}
use cpp_util.Synchro.Hazard.Scan.{protects, scanned, scan_delete-scanned}
use cpp_util.Synchro.Hazard.Schedule.{
  account, account-scanned, count_all, count-concat_onto, calls, calls-scanned, SameRecords,
}

empty_list {ℓ} : {A : Type ℓ} (xs : List A) → (length xs == 0) ≡ true → xs ≡ []
empty_list [] e = refl
empty_list (x ∷ xs) e = ground (arith, e)

module _ {ℓ} {D : Type ℓ} where
  -- What the exit of the thread `t` makes of the state.
  pub record Exited (t : ℕ) (s s' : Hazards D) : Type ℓ where
    pub accounted : (test : Ptr × D → Bool) → account test t s' ≡ account test t s
    pub safe : (q : Ptr) → protects s.head s.protected_ptr q ≡ true → calls q s' ≡ calls q s
    pub none_left : s'.thread_retired t ≡ []
    pub same : SameRecords t s s'

  moved-account :
      (test : Ptr × D → Bool) (t : ℕ) (s : Hazards D)
      → account test t (record s {
        thread_retired = update s.thread_retired t [];
        global_retired = s.thread_retired t ∷ s.global_retired;
      })
        ≡ account test t s
  moved-account test t s = rw (eq→== t t refl) (omega arith)

  -- The end of the exit, behind the scan.
  leave-Exited : (t : ℕ) (s : Hazards D) → Exited t s (leave t (scanned t s))
  unfolding leave add_rlist
  leave-Exited t s = elim (Bool-cases (length ((scanned t s).thread_retired t) == 0)) [
    | inl none_kept ↦ rw none_kept record {
      accounted = λ test. account-scanned test t s;
      safe = λ q held. calls-scanned t s q held;
      none_left = empty_list ((scanned t s).thread_retired t) none_kept;
      same = record {
        head = refl;
        active = refl;
        protected_ptr = refl;
        len = refl;
        next = refl;
        others = λ v w. rw (ne→== t v w) refl;
      };
    }
    | inr some_kept ↦ rw some_kept record {
      accounted =
          λ test. omega (arith, account-scanned test t s, moved-account test t (scanned t s));
      safe = λ q held. calls-scanned t s q held;
      none_left = rw (eq→== t t refl) refl;
      same = record {
        head = refl;
        active = refl;
        protected_ptr = refl;
        len = refl;
        next = refl;
        others = λ v w. rw (ne→== t v w) refl;
      };
    }
  ]

  -- When a thread exits, each pointer it has retired is deleted once or left to the other threads,
  -- none is lost, and none that a record protects is deleted; the records and other threads'
  -- lists stay.
  pub exit_thread-Exited : (t : ℕ) (s : Hazards D) → Exited t s (exit_thread t s)
  unfolding exit_thread
  exit_thread-Exited t s =
      subst (λ x. Exited t s (leave t x)) (sym (scan_delete-scanned t s)) (leave-Exited t s)

  -- When the program exits, every pointer that exited threads have left is deleted once.
  pub exit_program-deleted :
      (test : Ptr × D → Bool) (s : Hazards D)
      → count test (exit_program s).deleted ≡ count test s.deleted + count_all test s.global_retired
  unfolding exit_program
  exit_program-deleted test s = count-concat_onto test s.deleted s.global_retired
