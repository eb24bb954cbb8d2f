-- ===== src/Synchro/Hazard/Held.antt =====
-- A scan among the calls of other threads: what a record protects from the scan's start to its end
-- is not deleted.
use cpp_util.Prelude.{
  ℕ, ◌≡◌, refl, ◌≢◌, ◌⊎◌, inl, inr, ap, ◌∙◌, true, not, List, [], ◌∷◌, ◌==◌, Option-cases,
  ℕ_discrete, eq→==, ==→eq, arith,
}
use cpp_util.Synchro.Hazard.{
  Ptr, null, Hazards, publish, deactivate, capture_first, activated_record, find, see,
  delete_unseen, schedule_deletion, exit_thread,
}
use cpp_util.Synchro.Hazard.Count.{count-append}
use cpp_util.Synchro.Hazard.Scan.{protects, filter, sweep-filter}
use cpp_util.Synchro.Hazard.Schedule.{
  calls, count-filter_none, SameRecords, schedule_deletion-Scheduled,
}
use cpp_util.Synchro.Hazard.Exit.{exit_thread-Exited}
use cpp_util.Synchro.Hazard.Records.{
  IsValid, Step, Step-IsValid, activated_record-Activated, schedule_deletion-SameRecords,
}

-- A record of the list that holds `p` protects it.
protects-listed :
    (head : List Ptr) (protected : Ptr → Ptr) (r p : Ptr)
    → find r head ≡ true
    → protected r ≡ p
    → p ≢ null
    → protects head protected p ≡ true
unfolding find protects
protects-listed [] protected r p h e u = ground (arith, h)
protects-listed (rec ∷ rest) protected r p h e u = elim (ℕ_discrete rec r) [
  | yes same ↦ ground (arith, ap protected same ∙ e, u)
  | no differ ↦
      ground
        (arith, h, differ, λ (f : find r rest ≡ true). protects-listed rest protected r p f e u)
]

module _ {ℓ} {D : Type ℓ} where
  -- The record `r` is in use and protects `p`.
  pub record Held (r p : Ptr) (s : Hazards D) : Type ℓ where
    pub valid : IsValid s
    pub used : s.active r ≡ true
    pub holds : s.protected_ptr r ≡ p

  activated_record-calls : (s : Hazards D) (p : Ptr) → calls p (activated_record s).1 ≡ calls p s
  unfolding activated_record
  activated_record-calls s p = elim (Option-cases (capture_first s.head s.active)) [
    | inl full ↦ rw (activated_record, full) refl
    | inr (rec, e) ↦ rw (activated_record, e) refl
  ]

  schedule_deletion-safe :
      (t : ℕ) (q : Ptr) (d : D) (s : Hazards D) (p : Ptr)
      → protects s.head s.protected_ptr p ≡ true
      → calls p (schedule_deletion t q d s) ≡ calls p s
  unfolding schedule_deletion
  schedule_deletion-safe t q d s p held = elim (ℕ_discrete q null) [
    | yes e ↦ rw (eq→== q null e) refl
    | no u ↦ (schedule_deletion-Scheduled t q d s u).safe p held
  ]

  -- A call of another thread than the one that scans and the one that owns the record `r`.
  pub data OtherStep (t : ℕ) (r : Ptr) (s : Hazards D) : Hazards D → Type ℓ where
    activated : OtherStep t r s (activated_record s).1
    published : (rec p : Ptr) → rec ≢ r → s.active rec ≡ true → OtherStep t r s (publish rec p s)
    deactivated : (rec : Ptr) → rec ≢ r → s.active rec ≡ true → OtherStep t r s (deactivate rec s)
    scheduled : (u : ℕ) (p : Ptr) (d : D) → t ≢ u → OtherStep t r s (schedule_deletion u p d s)
    exited : (u : ℕ) → t ≢ u → OtherStep t r s (exit_thread u s)

  -- The first loop of a scan by the thread `t`, which has the records `todo` before it, with
  -- calls of other threads between its turns.
  pub data Scanning (t : ℕ) (r : Ptr)
      : List Ptr → List Ptr → Hazards D → List Ptr → Hazards D → Type ℓ where
    done : {snap : List Ptr} {s : Hazards D} → Scanning t r [] snap s snap s
    read :
        {rec : Ptr} {todo snap snap' : List Ptr} {s s' : Hazards D}
        → Scanning t r todo (see (s.protected_ptr rec) snap) s snap' s'
        → Scanning t r (rec ∷ todo) snap s snap' s'
    other :
        {todo snap snap' : List Ptr} {s a s' : Hazards D}
        → OtherStep t r s a
        → Scanning t r todo snap a snap' s'
        → Scanning t r todo snap s snap' s'

  module _ (t : ℕ) (r p : Ptr) (u : p ≢ null) where
    Held-protects : (s : Hazards D) → Held r p s → protects s.head s.protected_ptr p ≡ true
    Held-protects s h =
        protects-listed s.head s.protected_ptr r p (h.valid.owned r h.used) h.holds u

    SameRecords-Held :
        (v : ℕ) (s a : Hazards D) → IsValid a → Held r p s → SameRecords v s a → Held r p a
    SameRecords-Held v s a valid h same = record {
      valid = valid;
      used = ap (λ g. g r) same.active ∙ h.used;
      holds = ap (λ g. g r) same.protected_ptr ∙ h.holds;
    }

    -- Another thread's call leaves `p` protected, and does not delete it.
    OtherStep-Held :
        (s a : Hazards D) → Held r p s → OtherStep t r s a → Held r p a × (calls p a ≡ calls p s)
    unfolding deactivate
    OtherStep-Held s _ h activated =
        let a = activated_record-Activated s h.valid in
        (
          record {
            valid = a.valid;
            used = ground (arith, a.captured r, h.used);
            holds = a.protection r ∙ h.holds;
          },
          activated_record-calls s p,
        )
    OtherStep-Held s _ h (published rec q w used) = (
      record {
        valid = Step-IsValid s (publish rec q s) h.valid (Step.published rec q used);
        used = h.used;
        holds = ground (arith, w, h.holds);
      },
      refl,
    )
    OtherStep-Held s _ h (deactivated rec w used) = (
      record {
        valid = Step-IsValid s (deactivate rec s) h.valid (Step.deactivated rec used);
        used = ground (arith, w, h.used);
        holds = ground (arith, w, h.holds);
      },
      refl,
    )
    OtherStep-Held s _ h (scheduled v q d w) = (
      SameRecords-Held v s (schedule_deletion v q d s)
          (Step-IsValid s (schedule_deletion v q d s) h.valid (Step.scheduled v q d)) h
          (schedule_deletion-SameRecords v q d s),
      schedule_deletion-safe v q d s p (Held-protects s h),
    )
    OtherStep-Held s _ h (exited v w) = (
      SameRecords-Held v s (exit_thread v s)
          (Step-IsValid s (exit_thread v s) h.valid (Step.exited v)) h
          (exit_thread-Exited v s).same,
      (exit_thread-Exited v s).safe p (Held-protects s h),
    )

    seen-calls :
        (snap : List Ptr) (s : Hazards D)
        → find p snap ≡ true
        → calls p (delete_unseen t snap s) ≡ calls p s
    unfolding delete_unseen
    seen-calls snap s seen =
        let test = λ (e : Ptr × D). e.0 == p in
        let g = λ (e : Ptr × D). not (find e.0 snap) in
        rw (sweep-filter snap (s.thread_retired t) [] s.deleted) (
          omega (
            arith,
            count-append test s.deleted (filter g (s.thread_retired t)),
            count-filter_none test g
                (λ e h. ap (λ x. not (find x snap)) (==→eq e.0 p h) ∙ ap not seen)
                (s.thread_retired t),
          ))

    -- A turn of the loop at `r` sees `p`; at another record, `p` is still seen or `r` still ahead.
    keep :
        (rec : Ptr) (todo snap : List Ptr) (s : Hazards D)
        → Held r p s
        → (find r (rec ∷ todo) ≡ true) ⊎ (find p snap ≡ true)
        → (find r todo ≡ true) ⊎ (find p (see (s.protected_ptr rec) snap) ≡ true)
    unfolding find see
    keep rec todo snap s h (inr f) = inr (ground (arith, f))
    keep rec todo snap s h (inl f) = elim (ℕ_discrete rec r) [
      | yes same ↦ inr (ground (arith, ap s.protected_ptr same ∙ h.holds, u))
      | no differ ↦ inl (ground (arith, f, differ))
    ]

    Scanning-seen :
        {todo snap snap' : List Ptr} {s s' : Hazards D}
        → Scanning t r todo snap s snap' s'
        → Held r p s
        → (find r todo ≡ true) ⊎ (find p snap ≡ true)
        → (find p snap' ≡ true) × (calls p s' ≡ calls p s)
    unfolding find see
    Scanning-seen done h (inl f) = ground (arith, f)
    Scanning-seen done h (inr f) = (f, refl)
    Scanning-seen (read {rec = rec} {todo = todo} {snap = snap} {s = s} rest) h from =
        Scanning-seen rest h (keep rec todo snap s h from)
    Scanning-seen (other {s = s} {a = a} call rest) h from =
        let (h', same) = OtherStep-Held s a h call in
        let (f, same') = Scanning-seen rest h' from in (f, same' ∙ same)

    -- A record in use that holds `p`, and that nobody but its owner touches, during a scan by the
    -- thread `t` among the calls of other threads: from the start of the scan to its end, no
    -- deleter is called with `p`.
    pub Scanning-safe :
        (snap' : List Ptr) (s s' : Hazards D)
        → Held r p s
        → Scanning t r s.head [] s snap' s'
        → calls p (delete_unseen t snap' s') ≡ calls p s
    Scanning-safe snap' s s' h scan =
        let (f, same) = Scanning-seen scan h (inl (h.valid.owned r h.used)) in
        seen-calls snap' s' f ∙ same
