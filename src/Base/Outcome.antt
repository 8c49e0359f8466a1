-- ===== src/Base/Outcome.antt =====
-- The outcome of code that can fail, and the ways in which this program can.
use mathlib.Core.Path.{◌≡◌, refl}
use mathlib.Core.Bool.{Bool, true, false}
use mathlib.Core.Logic.{◌⊎◌, inl, inr}

pub data Fault : Type 0 where
  -- a failed `assert`
  assertion : Fault
  -- an exception that leaves the function
  uncaught : Fault
  -- `dynamic_cast` to the reference of another class
  bad_cast : Fault
  -- a call through a null `unique_ptr`
  null_dereference : Fault
  -- `erase(end())`, or a read through `end()`
  past_the_end : Fault
  -- a read or a write outside an array
  out_of_bounds : Fault
  -- a use of an object that was freed
  use_after_free : Fault
  -- no fault of the program: a loop of the model was given too few rounds
  out_of_fuel : Fault

pub data Outcome {ℓ} (A : Type ℓ) : Type ℓ where
  ok : A → Outcome A
  err : Fault → Outcome A

infixl 5 ◌>>=◌ ◌>>◌
abbrev pub ◌>>=◌ {ℓ κ} : {A : Type ℓ} {B : Type κ} → Outcome A → (A → Outcome B) → Outcome B
ok x >>= k = k x
err fault >>= k = err fault

abbrev pub ◌>>◌ {ℓ} : {B : Type ℓ} → Outcome (Unit {0}) → Outcome B → Outcome B
m >> k = m >>= λ _. k

-- `assert(test)` and the like: the fault if the test fails.
abbrev pub require : Bool → Fault → Outcome (Unit {0})
require true e = ok tt
require false e = err e

pub require-eq-ok : (test : Bool) (e : Fault) {t : Unit {0}} → require test e ≡ ok t → test ≡ true
require-eq-ok true e h = refl
require-eq-ok false e h = cc

module _ {ℓ} {A : Type ℓ} where
  pub Outcome-cases : (o : Outcome A) → ((a : A) × (o ≡ ok a)) ⊎ ((e : Fault) × (o ≡ err e))
  Outcome-cases (ok a) = inl (a, refl)
  Outcome-cases (err e) = inr (e, refl)

module _ {ℓ κ} {A : Type ℓ} {B : Type κ} where
  -- Inversion of a successful bind.
  pub >>=-eq-ok :
      (first : Outcome A) (next : A → Outcome B) {y : B}
      → (first >>= next) ≡ ok y
      → (x : A) × (first ≡ ok x) × (next x ≡ ok y)
  >>=-eq-ok (ok x) next e = (x, refl, e)
  >>=-eq-ok (err fault) next e = cc
