-- ===== src/Synchro/RwLock.antt =====
-- src/synchro/rwlock.cpp and rwlock.hpp: `locks::rw`. The calls of pthread are parameters; each
-- gives an error number and what it made of its object. A call that blocks is one that has returned.
mod Constructor
mod Tests
use cpp_util.Prelude.{ℕ, zero, suc, Bool, true, false, ◌==◌, if◌then◌else◌}

-- The calls of pthread, on a `pthread_rwlock_t` and a `pthread_rwlockattr_t`.
pub record Pthread (Lock Attr : Type 0) : Type 0 where
  pub rwlock_initializer : Lock  -- PTHREAD_RWLOCK_INITIALIZER
  pub rwlockattr_init : Attr → ℕ × Attr
  pub rwlockattr_setpshared : Attr → ℕ × Attr  -- with PTHREAD_PROCESS_SHARED
  pub rwlockattr_destroy : Attr → ℕ × Attr
  pub rwlock_init : Attr → Lock → ℕ × Lock
  pub rwlock_destroy : Lock → ℕ × Lock
  pub rwlock_rdlock : Lock → ℕ × Lock
  pub rwlock_tryrdlock : Lock → ℕ × Lock
  pub rwlock_wrlock : Lock → ℕ × Lock
  pub rwlock_trywrlock : Lock → ℕ × Lock
  pub rwlock_unlock : Lock → ℕ × Lock

-- How a method ends, with its lock: a std::system_error carries the error number.
pub data Ended {ℓ} (Lock A : Type ℓ) : Type ℓ where
  returned : A → Lock → Ended Lock A
  threw : ℕ → Lock → Ended Lock A

infixl 5 ◌after◌
abbrev pub ◌after◌ {ℓ} : {Lock A B : Type ℓ} → Ended Lock A → (Lock → Ended Lock B) → Ended Lock B
returned a l after next = next l
threw e l after next = threw e l

module _ {Lock Attr : Type 0} (os : Pthread Lock Attr) where
  -- `ThrowOnError(err)`
  unfoldable pub throw_on_error : ℕ → Lock → Ended Lock (Unit {0})
  throw_on_error err l = if err == 0 then returned tt l else threw err l

  -- `DieOnError(rw, err)`
  unfoldable pub die_on_error : ℕ → Lock → Ended Lock (Unit {0})
  unfolding throw_on_error
  die_on_error err l =
      let (destroy_err, l') = os.rwlock_destroy l in
      if err == 0 then returned tt l else (throw_on_error destroy_err l' after λ w. threw err w)

  -- `rw::rw(pshared)`; `attr` is the variable before it is initialized.
  unfoldable pub rw_make : Bool → Attr → Ended Lock (Unit {0})
  unfolding die_on_error throw_on_error
  rw_make false attr = returned tt os.rwlock_initializer
  rw_make true attr =
      let (err_init, attr_init) = os.rwlockattr_init attr in
      let (err_set, attr_set) = os.rwlockattr_setpshared attr_init in
      let (err_end, attr_end) = os.rwlockattr_destroy attr_set in
      die_on_error err_init os.rwlock_initializer
      after (λ l. die_on_error err_set l)
      after (λ l. let (err, l') = os.rwlock_destroy l in die_on_error err l')
      after (λ l. let (err, l') = os.rwlock_init attr_set l in throw_on_error err l')
      after (λ l. die_on_error err_end l)

  -- `rw::~rw()`
  unfoldable pub rw_destroy : Lock → Lock
  rw_destroy l = (os.rwlock_destroy l).1

  unfoldable pub lock_shared : Lock → Ended Lock (Unit {0})
  unfolding throw_on_error
  lock_shared l = let (err, l') = os.rwlock_rdlock l in throw_on_error err l'

  unfoldable pub try_lock_shared : Lock → Bool × Lock
  try_lock_shared l = let (err, l') = os.rwlock_tryrdlock l in (err == 0, l')

  unfoldable pub unlock_shared : Lock → Ended Lock (Unit {0})
  unfolding throw_on_error
  unlock_shared l = let (err, l') = os.rwlock_unlock l in throw_on_error err l'

  unfoldable pub lock : Lock → Ended Lock (Unit {0})
  unfolding throw_on_error
  lock l = let (err, l') = os.rwlock_wrlock l in throw_on_error err l'

  unfoldable pub try_lock : Lock → Bool × Lock
  try_lock l = let (err, l') = os.rwlock_trywrlock l in (err == 0, l')

  unfoldable pub unlock : Lock → Ended Lock (Unit {0})
  unfolding throw_on_error
  unlock l = let (err, l') = os.rwlock_unlock l in throw_on_error err l'

  -- `rw::sharable`, which `read_only()` gives: a reference to the lock.
  unfoldable pub sharable_lock : Lock → Ended Lock (Unit {0})
  unfolding lock_shared
  sharable_lock lkref = lock_shared lkref

  unfoldable pub sharable_unlock : Lock → Ended Lock (Unit {0})
  unfolding unlock_shared
  sharable_unlock lkref = unlock_shared lkref
