-- ===== src/Synchro/Hazard/Tests.antt =====
-- Runs of the hazard pointers, and the theorems at concrete states.
use cpp_util.Prelude.{ℕ, ◌-◌, ◌^◌, ◌≡◌, refl, false, [], ◌∷◌, ◌==◌, if◌then◌else◌, Returns, arith}
use cpp_util.Synchro.Hazard.{
  Ptr, null, Hazards, hazard_list, activated_record, deactivate, capture_first, find, see, snapshot,
  sweep, delete_unseen, scan_delete, steal, concat_onto, schedule_record, schedule_deletion,
  exit_thread,
}
use cpp_util.Synchro.Hazard.Records.{IsValid, Step, Reaches, Reaches-IsValid, OnlyLen, reused-len}
use cpp_util.Synchro.Hazard.Schedule.{Scheduled, schedule_deletion-Scheduled, calls}
use cpp_util.Synchro.Hazard.Scan.{scanned, scan_delete-scanned}
use cpp_util.Synchro.Hazard.Exit.{Exited, exit_thread-Exited}
use cpp_util.Synchro.Hazard.Held.{OtherStep, Scanning, Scanning-safe}
use cpp_util.Synchro.Hazard.Pointer.{
  hazard_ptr, destroy, acquire_atomic, Acquired, acquire_atomic-Acquired, destroy-hazard_ptr,
}

-- A deleter is only named here.
abbrev State : Type 0
State = Hazards ℕ

-- One record, the address 1, in use and with the pointer 70.
abbrev one_held : State
one_held = record hazard_list {
  head = 1 ∷ [];
  active = λ q. 1 == q;
  protected_ptr = λ q. if 1 == q then 70 else null;
  len = 1;
  next = 2;
}

-- The same record, given back.
abbrev one_idle : State
one_idle = record hazard_list { head = 1 ∷ []; next = 2 }

one_held-IsValid : IsValid one_held
unfolding find
one_held-IsValid = record {
  idle_null = λ q h. ground (arith, h);
  listed = λ q h. ground (arith, h);
  owned = λ q h. ground (arith, h);
  address = omega arith;
  not_null = refl;
}

one_idle-IsValid : IsValid one_idle
unfolding find
one_idle-IsValid = record {
  idle_null = λ q h. refl;
  listed = λ q h. ground (arith, h);
  owned = λ q h. ground (arith, h);
  address = omega arith;
  not_null = refl;
}

-- The pointer 70 stays retired and 80 is deleted.
keeps_held :
    let s = schedule_deletion 0 80 5 (schedule_deletion 0 70 4 one_held) in
    (s.thread_retired 0 ≡ (70, 4) ∷ []) × (s.deleted ≡ (80, 5) ∷ [])
unfolding schedule_deletion schedule_record steal concat_onto scan_delete snapshot see delete_unseen
    sweep find
keeps_held = (refl, refl)

-- Two hazard_ptrs, one after the other: `len` is the largest size_t.
wraps : (let (rec, a) = activated_record one_idle in (deactivate rec a).len) ≡ 2 ^ 64 - 1
unfolding activated_record deactivate capture_first
wraps = refl

-- From there on, a retired pointer that nothing protects is not deleted.
never_scans :
    let (rec, a) = activated_record one_idle in
    let s = schedule_deletion 0 80 5 (deactivate rec a) in
    (s.thread_retired 0 ≡ (80, 5) ∷ []) × (s.deleted ≡ [])
unfolding activated_record deactivate capture_first schedule_deletion schedule_record steal
    concat_onto scan_delete snapshot see delete_unseen sweep find
never_scans = (refl, refl)

scan_delete-scanned_example : scan_delete 0 one_held ≡ scanned 0 one_held
scan_delete-scanned_example = scan_delete-scanned 0 one_held

schedule_deletion-Scheduled_example : Scheduled 0 70 4 one_held (schedule_deletion 0 70 4 one_held)
schedule_deletion-Scheduled_example =
    schedule_deletion-Scheduled 0 70 4 one_held λ e. omega (arith, e)

exit_thread-Exited_example : Exited 0 one_held (exit_thread 0 one_held)
exit_thread-Exited_example = exit_thread-Exited 0 one_held

Reaches-IsValid_example : IsValid (activated_record (hazard_list {D = ℕ})).1
Reaches-IsValid_example =
    Reaches-IsValid (activated_record hazard_list).1 (Reaches.step Reaches.start Step.activated)

reused-len_example : let (rec, a) = activated_record one_idle in OnlyLen one_idle (deactivate rec a)
unfolding find
reused-len_example = reused-len one_idle 1 one_idle-IsValid refl refl

-- Another thread makes a hazard_ptr and retires the pointer while the scan is on.
busy :
    Scanning 0 1
      (1 ∷ [])
      []
      one_held
      (see 70 [])
      (schedule_deletion 1 70 4 (activated_record one_held).1)
unfolding activated_record capture_first
busy = Scanning.other OtherStep.activated (
    Scanning.read (Scanning.other (OtherStep.scheduled 1 70 4 λ e. omega (arith, e)) Scanning.done))

Scanning-safe_example :
    calls 70 (delete_unseen 0 (see 70 []) (schedule_deletion 1 70 4 (activated_record one_held).1))
    ≡ calls 70 one_held
Scanning-safe_example =
    Scanning-safe 0 1 70 (λ e. omega (arith, e)) (see 70 []) one_held
      (schedule_deletion 1 70 4 (activated_record one_held).1)
      (record { valid = one_held-IsValid; used = refl; holds = refl }) busy

-- Another thread stores 9 over 7 when 7 is published.
others : ℕ → Hazards ℕ → Ptr
others n s = if n == 0 then 7 else 9

acquire_atomic-Acquired_example :
    Returns
      (λ (h', s'). Acquired others (record { ptr = 70; rec = 1 }) one_held h' s')
      (acquire_atomic others 3 (record { ptr = 70; rec = 1 }) one_held)
unfolding others
acquire_atomic-Acquired_example =
    acquire_atomic-Acquired others 9 1 (λ n s late. ground arith) 3 (record { ptr = 70; rec = 1 })
      one_held (λ e. omega (arith, e)) (omega arith)

destroy-hazard_ptr_example :
    let (h, a) = hazard_ptr one_held in
    (one_held.active h.rec ≡ false)
    × IsValid (destroy h a)
    × ((q : Ptr) → (destroy h a).active q ≡ one_held.active q)
    × ((q : Ptr) → (destroy h a).protected_ptr q ≡ one_held.protected_ptr q)
destroy-hazard_ptr_example = destroy-hazard_ptr one_held one_held-IsValid

-- Two lists that threads have left.
abbrev scraps : State
scraps = record hazard_list { global_retired = ((70, 4) ∷ []) ∷ ((80, 5) ∷ []) ∷ [] }
