-- ===== src/Synchro/Hazard/Records.antt =====
-- The hazard records: a record not in use protects nothing, and a record in use has one owner.
use cpp_util.Prelude.{
  ℕ, ◌+◌, ◌-◌, ◌%◌, ◌^◌, ◌<◌, ◌≡◌, refl, inl, inr, sym, ap, ◌∙◌, Bool, true, false, none, some,
  Option-cases, ℕ_discrete, List, [], ◌∷◌, ◌==◌, if◌then◌else◌, eq→==, arith,
}
use cpp_util.Synchro.Hazard.{
  Ptr, null, Hazards, hazard_list, publish, deactivate, capture_first, activated_record, find,
  schedule_deletion, exit_thread,
}
use cpp_util.Synchro.Hazard.Schedule.{SameRecords, schedule_deletion-Scheduled}
use cpp_util.Synchro.Hazard.Exit.{exit_thread-Exited}

-- The search finds a record that is not in use, if there is one.
capture_first-some :
    (head : List Ptr) (active : Ptr → Bool) (rec : Ptr)
    → capture_first head active ≡ some rec
    → (find rec head ≡ true) × (active rec ≡ false)
unfolding capture_first find
capture_first-some [] active rec e = ground (arith, e)
capture_first-some (x ∷ rest) active rec e = ground (arith, e, capture_first-some rest active rec)

capture_first-none :
    (head : List Ptr) (active : Ptr → Bool)
    → capture_first head active ≡ none
    → (q : Ptr) → find q head ≡ true
    → active q ≡ true
unfolding capture_first find
capture_first-none [] active e q h = ground (arith, h)
capture_first-none (x ∷ rest) active e q h =
    ground
      (arith, e, h, λ (f : capture_first rest active ≡ none). capture_first-none rest active f q)

module _ {ℓ} {D : Type ℓ} where
  -- What the comment in `deactivate` promises to the scan, and that `new` gives out fresh records.
  pub record IsValid (s : Hazards D) : Type ℓ where
    pub idle_null : (rec : Ptr) → s.active rec ≡ false → s.protected_ptr rec ≡ null
    pub listed : (rec : Ptr) → find rec s.head ≡ true → rec < s.next
    pub owned : (rec : Ptr) → s.active rec ≡ true → find rec s.head ≡ true
    pub address : 0 < s.next
    pub not_null : find null s.head ≡ false

  pub hazard_list-IsValid : IsValid hazard_list
  unfolding find
  hazard_list-IsValid = record {
    idle_null = λ rec h. refl;
    listed = λ rec h. ground (arith, h);
    owned = λ rec h. ground (arith, h);
    address = omega arith;
    not_null = refl;
  }

  -- What `activated_record()` gives: a record of the list that was not in use, and only it is now.
  pub record Activated (s : Hazards D) (rec : Ptr) (s' : Hazards D) : Type ℓ where
    pub valid : IsValid s'
    pub present : find rec s'.head ≡ true
    pub idle : s.active rec ≡ false
    pub captured : (q : Ptr) → s'.active q ≡ (if rec == q then true else s.active q)
    pub protection : (q : Ptr) → s'.protected_ptr q ≡ s.protected_ptr q
    pub grows : (q : Ptr) → find q s.head ≡ true → find q s'.head ≡ true
    pub reuses : (q : Ptr) → find q s.head ≡ true → s.active q ≡ false → s'.head ≡ s.head

  -- From a valid state, `activated_record` gives a record that was not in use, captures it and no
  -- other, protects and frees nothing, and makes a record only if all are in use.
  pub activated_record-Activated :
      (s : Hazards D) → IsValid s → Activated s (activated_record s).0 (activated_record s).1
  unfolding activated_record find
  activated_record-Activated s v = elim (Option-cases (capture_first s.head s.active)) [
    | inl full ↦
        let used = capture_first-none s.head s.active full in
        rw (activated_record, full)
          record {
            valid = record {
              idle_null = λ rec h. ground (arith, h, v.idle_null rec);
              listed = λ rec h. ground (arith, h, v.listed rec);
              owned = λ rec h. ground (arith, h, v.owned rec);
              address = omega arith;
              not_null = ground (arith, v.address, v.not_null);
            };
            present = ground arith;
            idle = ground (arith, v.owned s.next, v.listed s.next);
            captured = λ q. refl;
            protection = λ q. ground (arith, v.idle_null s.next, v.owned s.next, v.listed s.next);
            grows = λ q h. ground (arith, h);
            reuses = λ q h i. absurd (ground (arith, used q h, i));
          }
    | inr (rec, e) ↦
        let (here, idle) = capture_first-some s.head s.active rec e in
        rw (activated_record, e)
          record {
            valid = record {
              idle_null = λ q h. ground (arith, h, v.idle_null q);
              listed = v.listed;
              owned = λ q h. ground (arith, h, v.owned q, here);
              address = v.address;
              not_null = v.not_null;
            };
            present = here;
            idle = idle;
            captured = λ q. refl;
            protection = λ q. refl;
            grows = λ q h. h;
            reuses = λ q h i. refl;
          }
  ]

  -- A call of the module, by some thread. Only the owner of a record publishes or deactivates it,
  -- while it is in use.
  pub data Step (s : Hazards D) : Hazards D → Type ℓ where
    activated : Step s (activated_record s).1
    published : (rec p : Ptr) → s.active rec ≡ true → Step s (publish rec p s)
    deactivated : (rec : Ptr) → s.active rec ≡ true → Step s (deactivate rec s)
    scheduled : (t : ℕ) (p : Ptr) (d : D) → Step s (schedule_deletion t p d s)
    exited : (t : ℕ) → Step s (exit_thread t s)

  pub data Reaches : Hazards D → Hazards D → Type ℓ where
    start : {s : Hazards D} → Reaches s s
    step : {a b c : Hazards D} → Reaches a b → Step b c → Reaches a c

  SameRecords-IsValid : (t : ℕ) (s s' : Hazards D) → IsValid s → SameRecords t s s' → IsValid s'
  SameRecords-IsValid t s s' v same = record {
    idle_null = λ rec h.
        ap (λ g. g rec) same.protected_ptr
        ∙ v.idle_null rec (sym (ap (λ g. g rec) same.active) ∙ h);
    listed = λ rec h. ground (arith, v.listed rec (sym (ap (find rec) same.head) ∙ h), same.next);
    owned = λ rec h. ap (find rec) same.head ∙ v.owned rec (sym (ap (λ g. g rec) same.active) ∙ h);
    address = ground (arith, v.address, same.next);
    not_null = ap (find null) same.head ∙ v.not_null;
  }

  pub schedule_deletion-SameRecords :
      (t : ℕ) (p : Ptr) (d : D) (s : Hazards D) → SameRecords t s (schedule_deletion t p d s)
  unfolding schedule_deletion
  schedule_deletion-SameRecords t p d s = elim (ℕ_discrete p null) [
    | yes e ↦ rw (eq→== p null e) record {
      head = refl;
      active = refl;
      protected_ptr = refl;
      len = refl;
      next = refl;
      others = λ u w. refl;
    }
    | no u ↦ (schedule_deletion-Scheduled t p d s u).same
  ]

  pub Step-IsValid : (s s' : Hazards D) → IsValid s → Step s s' → IsValid s'
  unfolding deactivate
  Step-IsValid s _ v activated = (activated_record-Activated s v).valid
  Step-IsValid s _ v (published rec p used) = record {
    idle_null = λ q h. ground (arith, h, used, v.idle_null q);
    listed = v.listed;
    owned = v.owned;
    address = v.address;
    not_null = v.not_null;
  }
  Step-IsValid s _ v (deactivated rec used) = record {
    idle_null = λ q h. ground (arith, h, v.idle_null q);
    listed = v.listed;
    owned = λ q h. ground (arith, h, v.owned q);
    address = v.address;
    not_null = v.not_null;
  }
  Step-IsValid s _ v (scheduled t p d) =
      SameRecords-IsValid t s (schedule_deletion t p d s) v (schedule_deletion-SameRecords t p d s)
  Step-IsValid s _ v (exited t) =
      SameRecords-IsValid t s (exit_thread t s) v (exit_thread-Exited t s).same

  -- Whatever calls the threads make from the start of the program, a record not in use protects
  -- nothing, and a record in use is in the list, so that a scan sees what it protects.
  pub Reaches-IsValid : (s : Hazards D) → Reaches hazard_list s → IsValid s
  Reaches-IsValid s r = go s r hazard_list-IsValid
    where
      go : {a : Hazards D} (b : Hazards D) → Reaches a b → IsValid a → IsValid b
      go b start v = v
      go b (step {b = x} r call) v = Step-IsValid x b (go x r v) call

  -- All is as it was, but `len` is one lower.
  pub record OnlyLen (s s' : Hazards D) : Type ℓ where
    pub head : s'.head ≡ s.head
    pub active : (r : Ptr) → s'.active r ≡ s.active r
    pub protection : (r : Ptr) → s'.protected_ptr r ≡ s.protected_ptr r
    pub next : s'.next ≡ s.next
    pub thread_retired : s'.thread_retired ≡ s.thread_retired
    pub global_retired : s'.global_retired ≡ s.global_retired
    pub deleted : s'.deleted ≡ s.deleted
    pub len : s'.len ≡ (s.len + (2 ^ 64 - 1)) % 2 ^ 64

  -- In a valid state with an idle record in the list, a hazard_ptr that takes up a record and gives
  -- it back leaves the list, each record's `active` and its pointer, what is retired and what is
  -- deleted as they were, and `len` one lower than it was, modulo 2 ^ 64: `len` is not the number of
  -- records in use.
  pub reused-len :
      (s : Hazards D) (q : Ptr)
      → IsValid s
      → find q s.head ≡ true
      → s.active q ≡ false
      → let (rec, a) = activated_record s in OnlyLen s (deactivate rec a)
  unfolding deactivate activated_record
  reused-len s q v here idle = elim (Option-cases (capture_first s.head s.active)) [
    | inl full ↦ absurd (cc (capture_first-none s.head s.active full q here, idle))
    | inr (rec, e) ↦
        let (_, was_idle) = capture_first-some s.head s.active rec e in
        rw (activated_record, e)
          record {
            head = refl;
            active = λ r. ground (arith, was_idle);
            protection = λ r. ground (arith, v.idle_null rec was_idle);
            next = refl;
            thread_retired = refl;
            global_retired = refl;
            deleted = refl;
            len = refl;
          }
  ]
