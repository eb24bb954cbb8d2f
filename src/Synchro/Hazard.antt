-- ===== src/Synchro/Hazard.antt =====
-- src/synchro/hazard.hpp, hazard.tpp and hazard.cpp: the list of hazard records, the retired
-- pointers of each thread and of no thread, and `hazard_ptr`. A call is one step, except that
-- Held takes the scan apart.
pub mod Count
pub mod Scan
pub mod Records
pub mod Schedule
pub mod Exit
pub mod Held
pub mod Pointer
mod Tests
use cpp_util.Prelude.{
  ℕ, zero, suc, ◌+◌, ◌*◌, ◌-◌, ◌/◌, ◌%◌, ◌^◌, Bool, true, false, not, ◌||◌, List, [], ◌∷◌, ◌++◌,
  length, leb, ◌==◌, if◌then◌else◌, Option, none, some, Run, ok, fault, undefined, out_of_fuel,
  ◌>>=◌,
}

-- `void*`, a `hazard_record*`, and a thread
abbrev pub Ptr : Type 0
Ptr = ℕ

abbrev pub null : Ptr
null = 0

abbrev pub update {ℓ} : {A : Type ℓ} → (ℕ → A) → ℕ → A → ℕ → A
update f p a q = if p == q then a else f q

-- `rlist_t`; a deleter `D` is code of the user's, of which the model only knows the calls.
abbrev pub Rlist {ℓ} : Type ℓ → Type ℓ
Rlist D = List (Ptr × D)

-- The loop of `activated_record`: the first record that is not in use, which is captured.
unfoldable pub capture_first : List Ptr → (Ptr → Bool) → Option Ptr
capture_first [] active = none
capture_first (rec ∷ rest) active =
    let later = capture_first rest active in if active rec then later else some rec

-- `snap.find(ptr) != snap.end()`
unfoldable pub find : Ptr → List Ptr → Bool
find p [] = false
find p (q ∷ snap) = (q == p) || find p snap

-- One turn of the first loop of `scan_delete`.
unfoldable pub see : Ptr → List Ptr → List Ptr
see p snap = if p == null then snap else p ∷ snap

-- The first loop.
unfoldable pub snapshot : List Ptr → (Ptr → Ptr) → List Ptr → List Ptr
snapshot [] protected snap = snap
snapshot (rec ∷ rest) protected snap = snapshot rest protected (see (protected rec) snap)

-- The length from which a thread scans.
abbrev pub threshold : ℕ → ℕ
threshold len = ((5 * len) % 2 ^ 64) / 4

pub record Hazards {ℓ} (D : Type ℓ) : Type ℓ where
  pub head : List Ptr  -- the records of `global_list_`, from `head_` along `next_`
  pub active : Ptr → Bool  -- `active_` of each record
  pub protected_ptr : Ptr → Ptr  -- `protected_ptr_` of each record
  pub len : ℕ  -- `len_`, a size_t
  pub next : Ptr  -- the address that `new hazard_record` gives out next
  pub thread_retired : ℕ → Rlist D  -- each thread's `rlist`
  pub global_retired : List (Rlist D)  -- the nodes of `global_retired`, from `head_`
  pub deleted : Rlist D  -- the calls of deleters, in order

module _ {ℓ} {D : Type ℓ} where
  -- The state when the program starts.
  abbrev pub hazard_list : Hazards D
  hazard_list = record {
    head = [];
    active = λ _. false;
    protected_ptr = λ _. null;
    len = 0;
    next = 1;
    thread_retired = λ _. [];
    global_retired = [];
    deleted = [];
  }

  abbrev pub incr_len : Hazards D → Hazards D
  incr_len s = record s { len = (s.len + 1) % 2 ^ 64 }

  abbrev pub sub_len : Hazards D → Hazards D
  sub_len s = record s { len = (s.len + (2 ^ 64 - 1)) % 2 ^ 64 }

  abbrev pub publish : Ptr → Ptr → Hazards D → Hazards D
  publish rec p s = record s { protected_ptr = update s.protected_ptr rec p }

  unfoldable pub deactivate : Ptr → Hazards D → Hazards D
  deactivate rec s =
      let nulled = publish rec null s in
      sub_len (record nulled { active = update nulled.active rec false })

  -- `activated_record()`: the record, and the state with it in use.
  unfoldable pub activated_record : Hazards D → Ptr × Hazards D
  activated_record s = elim (capture_first s.head s.active) [
    | some rec ↦ (rec, record s { active = update s.active rec true })
    | none ↦
        let counted = incr_len s in
        let rec = counted.next in
        (
          rec,
          record counted {
            head = rec ∷ counted.head;
            active = update counted.active rec true;
            protected_ptr = update counted.protected_ptr rec null;
            next = suc rec;
          },
        )
  ]

  -- The second loop: what is left of `rlist` behind `filtered`, and the deleters' calls.
  unfoldable pub sweep : List Ptr → Rlist D → Rlist D → Rlist D → Rlist D × Rlist D
  sweep snap [] filtered deleted = (filtered, deleted)
  sweep snap ((p, del) ∷ rest) filtered deleted =
      if find p snap
      then sweep snap rest (filtered ++ (p, del) ∷ []) deleted
      else sweep snap rest filtered (deleted ++ (p, del) ∷ [])

  -- The second loop and the swap, for the thread `t`.
  unfoldable pub delete_unseen : ℕ → List Ptr → Hazards D → Hazards D
  unfolding sweep
  delete_unseen t snap s =
      let out = sweep snap (s.thread_retired t) [] s.deleted in
      record s { thread_retired = update s.thread_retired t out.0; deleted = out.1 }

  unfoldable pub scan_delete : ℕ → Hazards D → Hazards D
  unfolding snapshot delete_unseen
  scan_delete t s = delete_unseen t (snapshot s.head s.protected_ptr []) s

  unfoldable pub add_rlist : Rlist D → Hazards D → Hazards D
  add_rlist rlist s = record s { global_retired = rlist ∷ s.global_retired }

  -- `delete_slist` with the body of `steal`
  unfoldable pub concat_onto : Rlist D → List (Rlist D) → Rlist D
  concat_onto to_add [] = to_add
  concat_onto to_add (rlist ∷ rest) = concat_onto (to_add ++ rlist) rest

  -- `steal(thread_retired.rlist)`
  unfoldable pub steal : ℕ → Hazards D → Hazards D
  unfolding concat_onto
  steal t s = record s {
    global_retired = [];
    thread_retired = update s.thread_retired t (concat_onto (s.thread_retired t) s.global_retired);
  }

  -- hazard_record::schedule_deletion
  unfoldable pub schedule_record : ℕ → Ptr → D → Hazards D → Hazards D
  unfolding steal scan_delete
  schedule_record t p deleter s =
      let pushed = record s {
        thread_retired = update s.thread_retired t (s.thread_retired t ++ (p, deleter) ∷ []);
      } in
      let stolen = steal t pushed in
      if leb (threshold stolen.len) (length (stolen.thread_retired t))
      then scan_delete t stolen
      else stolen

  -- hazard_ptr::schedule_deletion
  unfoldable pub schedule_deletion : ℕ → Ptr → D → Hazards D → Hazards D
  unfolding schedule_record
  schedule_deletion t p ptr_deleter s = if p == null then s else schedule_record t p ptr_deleter s

  -- What a thread leaves behind its last scan.
  unfoldable pub leave : ℕ → Hazards D → Hazards D
  unfolding add_rlist
  leave t s =
      let moved = record (add_rlist (s.thread_retired t) s) {
        thread_retired = update s.thread_retired t [];
      } in
      if length (s.thread_retired t) == 0 then s else moved

  -- The destructor of `thread_retired`, when the thread `t` exits.
  unfoldable pub exit_thread : ℕ → Hazards D → Hazards D
  unfolding scan_delete leave
  exit_thread t s = leave t (scan_delete t s)

  -- The destructor of `global_retired`, when the program exits.
  unfoldable pub exit_program : Hazards D → Hazards D
  unfolding concat_onto
  exit_program s = record s {
    global_retired = [];
    deleted = concat_onto s.deleted s.global_retired;
  }
