-- ===== src/Prelude/Outcome.antt =====
-- How a call of the program ends, and the rules for calls that end well. UASSERT is on, as it is
-- by default in a debug build (src/util/uassert.hpp): a failed assertion ends the program.
use mathlib.Core.Path.{◌≡◌, refl}
use mathlib.Core.Bool.{Bool, true, false}
use mathlib.Core.Option.{Option, none, some}
use cpp_util.Prelude.Tests.{if◌then◌else◌}

pub data Fault : Type 0 where
  uassert : Fault  -- a failed UASSERT: exit(EXIT_FAILURE)
  out_of_range : Fault  -- std::out_of_range, thrown by `at`
  undefined : Fault  -- undefined behaviour: an access out of bounds or through a bad pointer
  out_of_fuel : Fault  -- the model's own: a loop had too little fuel

pub data Run {ℓ} (A : Type ℓ) : Type ℓ where
  ok : A → Run A
  fault : Fault → Run A

infixl 5 ◌>>=◌ ◌>>◌
abbrev pub ◌>>=◌ {ℓ κ} : {A : Type ℓ} {B : Type κ} → Run A → (A → Run B) → Run B
ok a >>= f = f a
fault e >>= f = fault e

abbrev pub ◌>>◌ {ℓ} : {B : Type ℓ} → Run (Unit {0}) → Run B → Run B
m >> k = m >>= λ _. k

-- UASSERT(b)
abbrev pub assert : Bool → Run (Unit {0})
assert true = ok tt
assert false = fault uassert

abbrev pub or_else {ℓ} : {A : Type ℓ} → Option A → Fault → Run A
or_else (some a) e = ok a
or_else none e = fault e

-- The call returns normally, with a value as `Post` says.
pub data Returns {ℓ κ} {A : Type ℓ} (Post : A → Type κ) : Run A → Type (ℓ ⊔ κ) where
  returns : {value : A} → Post value → Returns Post (ok value)

module _ {ℓ κ} {A : Type ℓ} {Post : A → Type κ} where
  pub Returns-ok : {value : A} → Returns Post (ok value) → Post value
  Returns-ok (returns holds) = holds

  pub Returns-if :
      {yes_case no_case : Run A} (test : Bool)
      → (test ≡ true → Returns Post yes_case)
      → (test ≡ false → Returns Post no_case)
      → Returns Post (if test then yes_case else no_case)
  Returns-if true when_true when_false = when_true refl
  Returns-if false when_true when_false = when_false refl

  pub Returns-map {μ} :
      {Weaker : A → Type μ} {call : Run A} (first : Returns Post call)
      → ((value : A) → Post value → Weaker value)
      → Returns Weaker call
  Returns-map (returns {value = value} holds) weaken = returns (weaken value holds)

  pub Returns-bind {ν μ} :
      {B : Type ν} {Goal : B → Type μ} {call : Run A} {rest : A → Run B} (first : Returns Post call)
      → ((value : A) → Post value → Returns Goal (rest value))
      → Returns Goal (call >>= rest)
  Returns-bind (returns {value = value} holds) next = next value holds
