-- ===== src/Synchro/AtomicShared.antt =====
-- src/synchro/atomic_shared.tpp: the atomic operations on a `locked_shared_ptr`, which has its own
-- mutex, with the locking written out. Counting the references is std::shared_ptr's.
mod Tests
use cpp_util.Prelude.{
  ℕ, ◌≡◌, refl, Bool, true, false, List, [], ◌∷◌, ◌==◌, if◌then◌else◌, inl, inr, Bool-cases, Run,
  ok, fault, undefined, ◌>>=◌,
}

-- A `T*`
abbrev pub Ptr : Type 0
Ptr = ℕ

pub record LockedSharedPtr : Type 0 where
  pub ptr : Ptr
  pub held : Bool  -- whether the mutex is locked

-- `lock()` of a mutex that an earlier call has left locked does not come back.
unfoldable pub lock : LockedSharedPtr → Run LockedSharedPtr
lock p = if p.held then fault undefined else ok (record p { held = true })

-- `unlock()` of a mutex that is not locked is undefined.
unfoldable pub unlock : LockedSharedPtr → Run LockedSharedPtr
unlock p = if p.held then ok (record p { held = false }) else fault undefined

-- A read of the pointer; without the mutex it is a data race.
unfoldable pub read : LockedSharedPtr → Run Ptr
read p = if p.held then ok p.ptr else fault undefined

-- `std::shared_ptr::swap` with a shared_ptr that has no mutex: what that one has then, and the
-- pointer behind the call. Without the mutex it is a data race.
unfoldable pub swap : Ptr → LockedSharedPtr → Run (Ptr × LockedSharedPtr)
swap r p = if p.held then ok (p.ptr, record p { ptr = r }) else fault undefined

unfoldable pub atomic_load : LockedSharedPtr → Run (Ptr × LockedSharedPtr)
unfolding lock unlock read
atomic_load p = do a ← lock p; r ← read a; b ← unlock a; ok (r, b)

unfoldable pub atomic_store : Ptr → LockedSharedPtr → Run LockedSharedPtr
unfolding lock unlock swap
atomic_store r p = do a ← lock p; (old, b) ← swap r a; unlock b

unfoldable pub atomic_exchange : Ptr → LockedSharedPtr → Run (Ptr × LockedSharedPtr)
unfolding lock unlock swap
atomic_exchange r p = do a ← lock p; (old, b) ← swap r a; c ← unlock b; ok (old, c)

-- atomic_compare_exchange_strong: the result, `expected` and the pointer behind the call. The weak
-- form calls it.
unfoldable pub compare_exchange : Ptr → Ptr → LockedSharedPtr → Run (Bool × Ptr × LockedSharedPtr)
unfolding lock unlock read swap
compare_exchange expected desired p = do
  a ← lock p
  seen ← read a
  let exchange : Run (Bool × Ptr × LockedSharedPtr) = do
    (old, b) ← swap desired a
    c ← unlock b
    ok (true, expected, c)
  let refuse : Run (Bool × Ptr × LockedSharedPtr) = do
    now ← read a
    b ← unlock a
    ok (false, now, b)
  if seen == expected then exchange else refuse

-- The calls, and what each gives.
pub data Call : Type 0 where
  load : Call
  store : Ptr → Call
  exchange : Ptr → Call
  cas : Ptr → Ptr → Call

pub data Answer : Type 0 where
  loaded : Ptr → Answer
  stored : Answer
  exchanged : Ptr → Answer
  compared : Bool → Ptr → Answer

unfoldable pub apply : Call → LockedSharedPtr → Run (Answer × LockedSharedPtr)
unfolding atomic_load atomic_store atomic_exchange compare_exchange
apply load p = do (r, a) ← atomic_load p; ok (loaded r, a)
apply (store r) p = do a ← atomic_store r p; ok (stored, a)
apply (exchange r) p = do (old, a) ← atomic_exchange r p; ok (exchanged old, a)
apply (cas expected desired) p = do
  (done, seen, a) ← compare_exchange expected desired p
  ok (compared done seen, a)

unfoldable pub apply_all : List Call → LockedSharedPtr → Run (List Answer × LockedSharedPtr)
unfolding apply
apply_all [] p = ok ([], p)
apply_all (c ∷ calls) p = do (x, a) ← apply c p; (xs, b) ← apply_all calls a; ok (x ∷ xs, b)

-- A register, with no mutex: the value behind a call, and the answer.
abbrev pub value_behind : Call → Ptr → Ptr
value_behind load v = v
value_behind (store r) v = r
value_behind (exchange r) v = r
value_behind (cas expected desired) v = if v == expected then desired else v

abbrev pub answer : Call → Ptr → Answer
answer load v = loaded v
answer (store r) v = stored
answer (exchange r) v = exchanged v
answer (cas expected desired) v = compared (v == expected) (if v == expected then expected else v)

abbrev pub values_behind : List Call → Ptr → Ptr
values_behind [] v = v
values_behind (c ∷ calls) v = values_behind calls (value_behind c v)

abbrev pub answers : List Call → Ptr → List Answer
answers [] v = []
answers (c ∷ calls) v = answer c v ∷ answers calls (value_behind c v)

abbrev free_at : Ptr → LockedSharedPtr
free_at v = record { ptr = v; held = false }

apply-register :
    (c : Call) (v : Ptr) → apply c (free_at v) ≡ ok (answer c v, free_at (value_behind c v))
unfolding apply atomic_load atomic_store atomic_exchange compare_exchange lock unlock read swap
apply-register load v = refl
apply-register (store r) v = refl
apply-register (exchange r) v = refl
apply-register (cas expected desired) v = elim (Bool-cases (v == expected)) [
  | inl same ↦ rw same refl
  | inr other ↦ rw other refl
]

-- Any calls, one after another, on a pointer whose mutex is free: each gets the mutex, touches the
-- pointer with it only, and gives it back; the answers and the last value are those of a register.
pub apply_all-register :
    (calls : List Call) (v : Ptr)
    → apply_all calls (record { ptr = v; held = false })
      ≡ ok (answers calls v, record { ptr = values_behind calls v; held = false })
unfolding apply_all
apply_all-register [] v = refl
apply_all-register (c ∷ calls) v =
    rw (apply-register c v, apply_all-register calls (value_behind c v)) refl
