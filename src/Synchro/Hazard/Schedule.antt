-- ===== src/Synchro/Hazard/Schedule.antt =====
-- `schedule_deletion` and a thread's exit: no retired pointer is lost, doubled, or deleted while
-- it is protected.
use cpp_util.Prelude.{
  ℕ, ◌+◌, ◌<◌, ◌≡◌, refl, ◌≢◌, ◌⊎◌, inl, inr, ap, ◌∙◌, Bool, true, false, not, List, [], ◌∷◌, ◌++◌,
  length, leb, ◌==◌, if◌then◌else◌, Bool-cases, ne→==, eq→==, ==→eq, arith,
}
use cpp_util.Synchro.Hazard.{
  Ptr, null, update, Rlist, Hazards, concat_onto, steal, threshold, schedule_record,
  schedule_deletion,
}
use cpp_util.Synchro.Hazard.Count.{count, count-append}
use cpp_util.Synchro.Hazard.Scan.{protects, filter, scanned, scan_delete-scanned}

module _ {ℓ} {A : Type ℓ} where
  pub count-filter :
      (test g : A → Bool) (xs : List A)
      → count test (filter g xs) + count test (filter (λ x. not (g x)) xs) ≡ count test xs
  unfolding filter
  count-filter test g [] = refl
  count-filter test g (x ∷ xs) = ground (arith, count-filter test g xs)

  pub filter_again : (g : A → Bool) (xs : List A) → filter (λ x. not (g x)) (filter g xs) ≡ []
  unfolding filter
  filter_again g [] = refl
  filter_again g (x ∷ xs) = elim (Bool-cases (g x)) [
    | inl passes ↦ rw (passes, passes) (filter_again g xs)
    | inr fails ↦ rw fails (filter_again g xs)
  ]

  -- No entry that a filter drops is counted behind it.
  pub count-filter_none :
      (test g : A → Bool)
      → ((x : A) → test x ≡ true → g x ≡ false)
      → (xs : List A) → count test (filter g xs) ≡ 0
  unfolding filter
  count-filter_none test g h [] = refl
  count-filter_none test g h (x ∷ xs) = ground (arith, count-filter_none test g h xs, h x)

module _ {ℓ} {D : Type ℓ} where
  module _ (test : Ptr × D → Bool) where
    abbrev pub count_all : List (Rlist D) → ℕ
    count_all [] = 0
    count_all (rlist ∷ rest) = count test rlist + count_all rest

    pub count-concat_onto :
        (to_add : Rlist D) (lists : List (Rlist D))
        → count test (concat_onto to_add lists) ≡ count test to_add + count_all lists
    unfolding concat_onto
    count-concat_onto to_add [] = omega arith
    count-concat_onto to_add (rlist ∷ rest) =
        omega (arith, count-concat_onto (to_add ++ rlist) rest, count-append test to_add rlist)

    -- The entries that pass a test: retired by the thread `t` or by none, or deleted.
    abbrev pub account : ℕ → Hazards D → ℕ
    account t s =
        count test (s.thread_retired t) + count_all s.global_retired + count test s.deleted

    pub account-scanned : (t : ℕ) (s : Hazards D) → account t (scanned t s) ≡ account t s
    account-scanned t s =
        let g = λ (e : Ptr × D). protects s.head s.protected_ptr e.0 in
        rw (eq→== t t refl) (
          omega (
            arith,
            count-filter test g (s.thread_retired t),
            count-append test s.deleted (filter (λ e. not (g e)) (s.thread_retired t)),
          ))

  -- The deleter's calls with the pointer `q`.
  abbrev pub calls : Ptr → Hazards D → ℕ
  calls q s = count (λ (e : Ptr × D). e.0 == q) s.deleted

  pub calls-scanned :
      (t : ℕ) (s : Hazards D) (q : Ptr)
      → protects s.head s.protected_ptr q ≡ true
      → calls q (scanned t s) ≡ calls q s
  calls-scanned t s q held =
      let test = λ (e : Ptr × D). e.0 == q in
      let g = λ (e : Ptr × D). not (protects s.head s.protected_ptr e.0) in
      omega (
        arith,
        count-append test s.deleted (filter g (s.thread_retired t)),
        count-filter_none test g
            (λ e h. ap (λ x. not (protects s.head s.protected_ptr x)) (==→eq e.0 q h) ∙ ap not held)
            (s.thread_retired t),
      )

  -- The hazard records are the same, and so is what other threads have retired.
  pub record SameRecords (t : ℕ) (s s' : Hazards D) : Type ℓ where
    pub head : s'.head ≡ s.head
    pub active : s'.active ≡ s.active
    pub protected_ptr : s'.protected_ptr ≡ s.protected_ptr
    pub len : s'.len ≡ s.len
    pub next : s'.next ≡ s.next
    pub others : (u : ℕ) → t ≢ u → s'.thread_retired u ≡ s.thread_retired u

  -- What a thread `t` makes of the state when it retires `p`.
  pub record Scheduled (t : ℕ) (p : Ptr) (d : D) (s s' : Hazards D) : Type ℓ where
    pub accounted :
        (test : Ptr × D → Bool)
        → account test t s' ≡ account test t s + (if test (p, d) then 1 else 0)
    pub safe : (q : Ptr) → protects s.head s.protected_ptr q ≡ true → calls q s' ≡ calls q s
    pub bounded :
        (length (s'.thread_retired t) < threshold s.len)
        ⊎ (filter (λ e. not (protects s.head s.protected_ptr e.0)) (s'.thread_retired t) ≡ [])
    pub stolen : s'.global_retired ≡ []
    pub same : SameRecords t s s'

  module _ (t : ℕ) (p : Ptr) (d : D) (s : Hazards D) where
    -- The state before the test of the length.
    abbrev gathered : Hazards D
    gathered = steal t (record s {
      thread_retired = update s.thread_retired t (s.thread_retired t ++ (p, d) ∷ []);
    })

    gathered-account :
        (test : Ptr × D → Bool)
        → account test t gathered ≡ account test t s + (if test (p, d) then 1 else 0)
    unfolding steal
    gathered-account test = rw (eq→== t t refl) (
        omega (
          arith,
          count-concat_onto test (s.thread_retired t ++ (p, d) ∷ []) s.global_retired,
          count-append test (s.thread_retired t) ((p, d) ∷ []),
        ))

    -- A pointer that is not null, retired by the thread `t`: it is added once to what is retired or
    -- deleted, and nothing else is added or lost. No pointer that a record protects is deleted.
    -- The thread's list is below the threshold, or all of it is protected. What other threads
    -- left behind is taken over, and the records and other threads' lists stay.
    pub schedule_deletion-Scheduled : p ≢ null → Scheduled t p d s (schedule_deletion t p d s)
    unfolding schedule_deletion schedule_record steal
    schedule_deletion-Scheduled u =
        rw (ne→== p null u, scan_delete-scanned t gathered)
          (elim (Bool-cases (leb (threshold s.len) (length (gathered.thread_retired t)))) [
            | inl long ↦ rw long record {
              accounted = λ test. account-scanned test t gathered ∙ gathered-account test;
              safe = λ q held. calls-scanned t gathered q held;
              bounded = inr (
                  rw (eq→== t t refl) (
                    filter_again (λ (e : Ptr × D). protects s.head s.protected_ptr e.0)
                      (concat_onto (s.thread_retired t ++ (p, d) ∷ []) s.global_retired)));
              stolen = refl;
              same = record {
                head = refl;
                active = refl;
                protected_ptr = refl;
                len = refl;
                next = refl;
                others = λ v w. rw (ne→== t v w) refl;
              };
            }
            | inr short ↦ rw short record {
              accounted = gathered-account;
              safe = λ q held. refl;
              bounded = inl (ground (arith, short));
              stolen = refl;
              same = record {
                head = refl;
                active = refl;
                protected_ptr = refl;
                len = refl;
                next = refl;
                others = λ v w. rw (ne→== t v w) refl;
              };
            }
          ])
