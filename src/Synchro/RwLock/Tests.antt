-- ===== src/Synchro/RwLock/Tests.antt =====
-- The constructor of `rw` with a pthread that can run out of memory.
use cpp_util.Prelude.{ℕ, suc, refl, Bool, true, false, ◌≡◌, if◌then◌else◌, arith}
use cpp_util.Synchro.RwLock.{Pthread, rw_make, threw}
use cpp_util.Synchro.RwLock.Constructor.{IsLawful, Ends, rw_make-Ends}

-- A lock is the number of its holders, if there is a lock; an attribute is there or not. EINVAL is
-- 22 and ENOMEM 12. A failed pthread_rwlock_init leaves another number.
os : Bool → Pthread (Bool × ℕ) Bool
os memory = record {
  rwlock_initializer = (true, 0);
  rwlockattr_init = λ a. (0, true);
  rwlockattr_setpshared = λ a. if a then (0, a) else (22, a);
  rwlockattr_destroy = λ a. if a then (0, false) else (22, a);
  rwlock_init = λ a l. if memory then (0, (true, 0)) else (12, (false, 99));
  rwlock_destroy = λ l. if l.0 then (0, (false, 0)) else (22, l);
  rwlock_rdlock = λ l. (0, (l.0, suc l.1));
  rwlock_tryrdlock = λ l. (0, (l.0, suc l.1));
  rwlock_wrlock = λ l. (0, (l.0, suc l.1));
  rwlock_trywrlock = λ l. (0, (l.0, suc l.1));
  rwlock_unlock = λ l. (0, (l.0, 0));
}

os-IsLawful : IsLawful (os false) (λ l. l.0)
unfolding os
os-IsLawful = record {
  initializer = refl;
  init_done = λ a l none h. absurd (omega (arith, h));
  init_failed = λ a l none h. refl;
  destroy_done = λ l h. ground arith;
  destroy_failed = λ l h. ground arith;
}

no_memory : rw_make (os false) true false ≡ threw 12 (false, 99)
unfolding rw_make os
no_memory = refl

rw_make-Ends_example : Ends (os false) (λ l. l.0) (λ l. l.0 ≡ true) (rw_make (os false) true false)
rw_make-Ends_example = rw_make-Ends (os false) (λ l. l.0) os-IsLawful true false
