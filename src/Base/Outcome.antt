-- ===== src/Base/Outcome.antt =====
-- How a call ends: with a value, with a C++ exception, or in a fault after which the language
-- promises nothing.
use onvifxx.Base.Chars.{Text}
use onvifxx.Base.{◌≡◌, refl, Bool, true, false, Option, none, some}

pub data Fault : Type 0 where
  -- `BOOST_ASSERT`
  assertion : Fault
  -- a null pointer is read through
  null_pointer : Fault
  -- an exception leaves a function that has no handler for it
  uncaught : Fault
  -- an object is read after its lifetime
  dangling : Fault
  -- a function that returns an object ends without a `return`
  missing_return : Fault
  -- an object is used as one of a class that it does not have
  wrong_cast : Fault

pub data Outcome {ℓ} (A : Type ℓ) : Type ℓ where
  ok : A → Outcome A
  fault : Fault → Outcome A

-- How a call that returns to its caller ends: with a value, or with a `std::exception` whose `what()`
-- is the text.
pub data Ended {ℓ} (A : Type ℓ) : Type ℓ where
  returned : A → Ended A
  thrown : Text → Ended A

infixl 5 ◌>>=◌ ◌>>◌
abbrev pub ◌>>=◌ {ℓ κ} : {A : Type ℓ} {B : Type κ} → Outcome A → (A → Outcome B) → Outcome B
ok a >>= f = f a
fault e >>= f = fault e

abbrev pub ◌>>◌ {ℓ} : {B : Type ℓ} → Outcome (Unit {0}) → Outcome B → Outcome B
m >> k = m >>= λ _. k

abbrev pub assert : Bool → Outcome (Unit {0})
assert true = ok tt
assert false = fault assertion

-- `*p`
abbrev pub deref {ℓ} : {A : Type ℓ} → Option A → Outcome A
deref none = fault null_pointer
deref (some a) = ok a

pub ok-injective {ℓ} : {A : Type ℓ} {a b : A} → ok a ≡ ok b → a ≡ b
ok-injective h = cc

-- Two calls in a row succeed only where both do.
module _ {ℓ κ} {First : Type ℓ} {Second : Type κ} where
  pub >>=-eq-ok :
      (o : Outcome First) (then_do : First → Outcome Second) {end : Second}
      → (o >>= then_do) ≡ ok end
      → (start : First) × (o ≡ ok start) × (then_do start ≡ ok end)
  >>=-eq-ok (fault reason) then_do h = cc
  >>=-eq-ok (ok start) then_do h = (start, refl, h)

pub >>=-assoc {ℓ κ μ} :
    {First : Type ℓ} {Second : Type κ} {Third : Type μ} (o : Outcome First)
    (then_do : First → Outcome Second) (last_do : Second → Outcome Third)
    → ((o >>= then_do) >>= last_do) ≡ (o >>= λ a. then_do a >>= last_do)
>>=-assoc (ok a) then_do last_do = refl
>>=-assoc (fault reason) then_do last_do = refl
