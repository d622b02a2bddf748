-- ===== src/Outcome.antt =====
-- What a call may do besides returning: throw a `std::exception`, or leave what C++ defines.
pub mod Rounds
pub mod Ensures
use mozilla_telemetry.Prelude.{◌≡◌, refl, Bool, true, false, Bytes}

-- `failed_assertion` is a violated precondition of a rapidjson accessor (`RAPIDJSON_ASSERT`);
-- `out_of_bounds` is an access outside an object, which is undefined behaviour; `out_of_fuel` is
-- the end of the rounds that a loop of the model has, which the theorems exclude.
pub data Fault : Type 0 where
  failed_assertion out_of_bounds out_of_fuel : Fault

-- `throw` carries the exception's `what()`.
pub data Outcome {ℓ} (A : Type ℓ) : Type ℓ where
  ok : A → Outcome A
  throw : Bytes → Outcome A
  fault : Fault → Outcome A

infixl 5 ◌>>=◌ ◌>>◌
abbrev pub ◌>>=◌ {ℓ κ} : {A : Type ℓ} {B : Type κ} → Outcome A → (A → Outcome B) → Outcome B
throw what >>= next = throw what
fault kind >>= next = fault kind
ok got >>= next = next got

abbrev pub ◌>>◌ {ℓ} : {B : Type ℓ} → Outcome (Unit {0}) → Outcome B → Outcome B
m >> k = m >>= λ _. k

-- `if (!c) throw runtime_error(what);`
abbrev pub require : Bool → Bytes → Outcome (Unit {0})
require true what = ok tt
require false what = throw what

-- `try { m } catch (exception& e) { throw runtime_error(f(e.what())); }`
abbrev pub rethrow {ℓ} : {A : Type ℓ} → (Bytes → Bytes) → Outcome A → Outcome A
rethrow f (ok a) = ok a
rethrow f (throw e) = throw (f e)
rethrow f (fault e) = fault e

-- What a chain that returns has run.
module _ {ℓ κ} {A : Type ℓ} {B : Type κ} (next : A → Outcome B) {result : B} where
  pub >>=-eq-ok :
      (first : Outcome A)
      → (first >>= next) ≡ ok result
      → (got : A) × (first ≡ ok got) × (next got ≡ ok result)
  >>=-eq-ok (ok got) returns = (got, refl, returns)
  >>=-eq-ok (throw what) returns = cc
  >>=-eq-ok (fault kind) returns = cc

pub rethrow-eq-ok {ℓ} :
    {A : Type ℓ} (f : Bytes → Bytes) (m : Outcome A) {a : A} → rethrow f m ≡ ok a → m ≡ ok a
rethrow-eq-ok f (ok a) h = h
rethrow-eq-ok f (throw e) h = cc
rethrow-eq-ok f (fault e) h = cc

-- The call returns, and its value satisfies `P`.
abbrev pub Returns {ℓ κ} : {A : Type ℓ} → Outcome A → (A → Type κ) → Type (ℓ ⊔ κ)
Returns {A} m P = (a : A) × (m ≡ ok a) × P a
