-- ===== src/Util/Optional.antt =====
-- src/util/optional.hpp and optional.tpp: `optional`. The bytes of `store` hold an object or none.
use cpp_util.Prelude.{
  ◌≡◌, refl, Bool, true, false, not, Option, none, some, if◌then◌else◌, Run, ok, undefined, ◌>>=◌,
  ◌>>◌, assert, or_else, Returns, returns,
}

pub record Optional {ℓ} (T : Type ℓ) : Type ℓ where
  pub store : Option T  -- the object that lives in the bytes
  pub initialized : Bool

module _ {ℓ} {T : Type ℓ} where
  -- The default constructor.
  abbrev pub optional : Optional T
  optional = record { store = none; initialized = false }

  unfoldable pub valid : Optional T → Bool
  valid o = o.initialized

  -- `access()`, for an object that is there.
  unfoldable pub access : Optional T → Run T
  access o = or_else o.store undefined

  unfoldable pub construct : T → Optional T → Run (Optional T)
  construct t o = do assert (not o.initialized); ok (record { store = some t; initialized = true })

  unfoldable pub destruct : Optional T → Run (Optional T)
  destruct o = do
    assert o.initialized
    old ← access o
    ok (record { store = none; initialized = false })

  -- The constructor from a T&&.
  unfoldable pub optional_from : T → Run (Optional T)
  unfolding construct
  optional_from rval = construct rval optional

  -- The copy assignment; `=` of T makes the object a copy.
  unfoldable pub copy_assign : Optional T → Optional T → Run (Optional T)
  unfolding access construct destruct
  copy_assign other o =
      let copy : Run (Optional T) = do
        t ← access other
        let assigned : Run (Optional T) = do old ← access o; ok (record o { store = some t })
        if o.initialized then assigned else construct t o
      in if other.initialized then copy else if o.initialized then destruct o else ok o

  -- The move assignment: the optional, and `other`, whose object stays, as `moved` leaves it.
  unfoldable pub move_assign : (T → T) → Optional T → Optional T → Run (Optional T × Optional T)
  unfolding access construct destruct
  move_assign moved other o =
      let move : Run (Optional T × Optional T) = do
        t ← access other
        let left = record other { store = some (moved t) }
        let assigned : Run (Optional T × Optional T) = do
          old ← access o
          ok (record o { store = some t }, left)
        let constructed : Run (Optional T × Optional T) = do o' ← construct t o; ok (o', left)
        if o.initialized then assigned else constructed
      in let gone : Run (Optional T × Optional T) = do o' ← destruct o; ok (o', other)
        in if other.initialized then move else if o.initialized then gone else ok (o, other)

  -- The move constructor.
  unfoldable pub optional_moved : (T → T) → Optional T → Run (Optional T × Optional T)
  unfolding move_assign
  optional_moved moved other = move_assign moved other optional

  -- The destructor: what lives in the bytes behind it.
  unfoldable pub destroy : Optional T → Run (Option T)
  unfolding access
  destroy o =
      let gone : Run (Option T) = do old ← access o; ok none
      in if o.initialized then gone else ok o.store

  -- `initialized` says whether there is an object.
  pub data IsValid : Optional T → Type ℓ where
    vacant : IsValid optional
    holding : (t : T) → IsValid (record { store = some t; initialized = true })

  -- Between optionals whose flags are right, the copy assignment makes the one like the other, in
  -- each of the four cases.
  pub copy_assign_same :
      (other o : Optional T) → IsValid other → IsValid o → copy_assign other o ≡ ok other
  unfolding copy_assign access construct destruct
  copy_assign_same _ _ vacant vacant = refl
  copy_assign_same _ _ vacant (holding t) = refl
  copy_assign_same _ _ (holding t) vacant = refl
  copy_assign_same _ _ (holding t) (holding u) = refl

  -- Between optionals whose flags are right, the move assignment makes the one what the other was,
  -- and the other keeps an object if it had one: no object is destroyed twice or left behind.
  pub move_assign-Moved :
      (moved : T → T) (other o : Optional T)
      → IsValid other
      → IsValid o
      → Returns
          (λ (o', left).
            (o' ≡ other)
            × IsValid left
            × (left.initialized ≡ other.initialized)
            × (destroy o' ≡ ok none)
            × (destroy left ≡ ok none))
          (move_assign moved other o)
  unfolding move_assign access construct destruct destroy
  move_assign-Moved moved _ _ vacant vacant = returns (refl, vacant, refl, refl, refl)
  move_assign-Moved moved _ _ vacant (holding t) = returns (refl, vacant, refl, refl, refl)
  move_assign-Moved moved _ _ (holding t) vacant =
      returns (refl, holding (moved t), refl, refl, refl)
  move_assign-Moved moved _ _ (holding t) (holding u) =
      returns (refl, holding (moved t), refl, refl, refl)
