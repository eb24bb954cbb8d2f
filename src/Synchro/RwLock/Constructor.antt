-- ===== src/Synchro/RwLock/Constructor.antt =====
-- What the constructor of `rw` leaves behind, by what is documented of pthread.
use cpp_util.Prelude.{
  ℕ, ◌≡◌, refl, ◌≢◌, ap, ◌∙◌, sym, subst, ◌⊎◌, inl, inr, Bool, true, false, ℕ_discrete, eq→==,
  ne→==,
}
use cpp_util.Synchro.RwLock.{
  Pthread, Ended, returned, threw, ◌after◌, throw_on_error, die_on_error, rw_make,
}

-- POSIX: a call that gives 0 did its work; when pthread_rwlock_init gives an error the lock is not
-- initialized, and its contents are undefined; pthread_rwlock_destroy finds an error before it changes
-- the lock.
pub record IsLawful {Lock Attr : Type 0} (os : Pthread Lock Attr) (initialized : Lock → Bool)
    : Type 0 where
  pub initializer : initialized os.rwlock_initializer ≡ true
  pub init_done :
      (a : Attr) (l : Lock)
      → initialized l ≡ false
      → (os.rwlock_init a l).0 ≡ 0
      → initialized (os.rwlock_init a l).1 ≡ true
  pub init_failed :
      (a : Attr) (l : Lock)
      → initialized l ≡ false
      → (os.rwlock_init a l).0 ≢ 0
      → initialized (os.rwlock_init a l).1 ≡ false
  pub destroy_done :
      (l : Lock) → (os.rwlock_destroy l).0 ≡ 0 → initialized (os.rwlock_destroy l).1 ≡ false
  pub destroy_failed : (l : Lock) → (os.rwlock_destroy l).0 ≢ 0 → (os.rwlock_destroy l).1 ≡ l

module _ {Lock Attr : Type 0} (os : Pthread Lock Attr) (initialized : Lock → Bool) where
  -- No lock is left, but where pthread refuses to destroy it.
  abbrev pub Released : Lock → Type 0
  Released l = (initialized l ≡ false) ⊎ ((os.rwlock_destroy l).0 ≢ 0)

  -- The call returns with a lock as `Post` says, or throws an error and has released the lock.
  pub data Ends (Post : Lock → Type 0) : Ended Lock (Unit {0}) → Type 0 where
    returns : {a : Unit {0}} {l : Lock} → Post l → Ends Post (returned a l)
    throws : {err : ℕ} {l : Lock} → err ≢ 0 → Released l → Ends Post (threw err l)

  Ends-after :
      {P Q : Lock → Type 0} {call : Ended Lock (Unit {0})} {next : Lock → Ended Lock (Unit {0})}
      (first : Ends P call)
      → ((l : Lock) → P l → Ends Q (next l))
      → Ends Q (call after next)
  Ends-after (returns {l = l} holds) rest = rest l holds
  Ends-after (throws ne released) rest = throws ne released

  Ends-map :
      {P Q : Lock → Type 0} {call : Ended Lock (Unit {0})} (first : Ends P call)
      → ((l : Lock) → P l → Q l)
      → Ends Q call
  Ends-map (returns {l = l} holds) weaken = returns (weaken l holds)
  Ends-map (throws ne released) weaken = throws ne released

  throw_on_error-Ends :
      (err : ℕ) (l : Lock)
      → (err ≢ 0 → Released l)
      → Ends (λ l'. (l' ≡ l) × (err ≡ 0)) (throw_on_error os err l)
  unfolding throw_on_error
  throw_on_error-Ends err l released = elim (ℕ_discrete err 0) [
    | yes e ↦ rw (eq→== err 0 e) (returns (refl, e))
    | no ne ↦ rw (ne→== err 0 ne) (throws ne (released ne))
  ]

  module _ (laws : IsLawful os initialized) where
    destroyed : (l : Lock) → Released (os.rwlock_destroy l).1
    destroyed l = elim (ℕ_discrete (os.rwlock_destroy l).0 0) [
      | yes e ↦ inl (laws.destroy_done l e)
      | no ne ↦ inr (rw (laws.destroy_failed l ne) ne)
    ]

    die_on_error-Ends :
        (err : ℕ) (l : Lock) → Ends (λ l'. (l' ≡ l) × (err ≡ 0)) (die_on_error os err l)
    unfolding die_on_error
    die_on_error-Ends err l = elim (ℕ_discrete err 0) [
      | yes e ↦ rw (eq→== err 0 e) (returns (refl, e))
      | no ne ↦ rw (ne→== err 0 ne) (
          Ends-after (throw_on_error-Ends _ _ λ h. destroyed l)
            λ w p. throws ne (subst Released (sym p.0) (destroyed l)))
    ]

    -- `DieOnError(&lock_, pthread_rwlock_destroy(&lock_))`
    destroy-Ends :
        (l : Lock)
        → Ends
            (λ l'. initialized l' ≡ false)
            (die_on_error os (os.rwlock_destroy l).0 (os.rwlock_destroy l).1)
    destroy-Ends l =
        Ends-map (die_on_error-Ends (os.rwlock_destroy l).0 (os.rwlock_destroy l).1)
          λ l' p. ap initialized p.0 ∙ laws.destroy_done l p.1

    -- `ThrowOnError(pthread_rwlock_init(&lock_, &attr))`
    init-Ends :
        (a : Attr) (l : Lock)
        → initialized l ≡ false
        → Ends
            (λ l'. initialized l' ≡ true)
            (throw_on_error os (os.rwlock_init a l).0 (os.rwlock_init a l).1)
    init-Ends a l none =
        Ends-map
          (throw_on_error-Ends (os.rwlock_init a l).0 (os.rwlock_init a l).1
            λ failed. inl (laws.init_failed a l none failed))
          λ l' p. ap initialized p.0 ∙ laws.init_done a l none p.1

    -- By what POSIX says of the calls of pthread, whichever of them fail: a constructor of `rw` that
    -- returns has made a lock, and one that throws carries an error number other than 0 and leaves no
    -- initialized lock, unless pthread_rwlock_destroy refuses the lock that is there.
    pub rw_make-Ends :
        (pshared : Bool) (attr : Attr) → Ends (λ l. initialized l ≡ true) (rw_make os pshared attr)
    unfolding rw_make
    rw_make-Ends false attr = returns laws.initializer
    rw_make-Ends true attr =
        let attr_init = (os.rwlockattr_init attr).1 in
        let attr_set = (os.rwlockattr_setpshared attr_init).1 in
        Ends-after
          (Ends-after
            (Ends-after
              (Ends-after (die_on_error-Ends (os.rwlockattr_init attr).0 os.rwlock_initializer)
                λ l p.
                  Ends-map {Q = λ w. Unit {0}}
                    (die_on_error-Ends (os.rwlockattr_setpshared attr_init).0 l) λ w q. tt)
              λ l p. destroy-Ends l)
            λ l p. init-Ends attr_set l p)
          λ l p.
            Ends-map (die_on_error-Ends (os.rwlockattr_destroy attr_set).0 l)
              λ l' same. ap initialized same.0 ∙ p
