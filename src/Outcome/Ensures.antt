-- ===== src/Outcome/Ensures.antt =====
-- What a call ensures: of the value that it returns, and of the fault that it ends by.
use mozilla_telemetry.Prelude.{◌≡◌, ◌≢◌, refl, subst, Bool, true, false, Bytes, if◌then◌else◌}
use mozilla_telemetry.Outcome.Rounds.{Ends, ok-Ends, throw-Ends}
use mozilla_telemetry.Outcome.{
  Outcome, ok, throw, fault, Fault, out_of_fuel, ◌>>=◌, require, rethrow,
}

-- The value satisfies `Q`, or there is none; a fault is one that `F` allows.
abbrev pub Ensures : {A : Type 0} → (Fault → Type 0) → (A → Type 0) → Outcome A → Type 0
Ensures F Q (ok a) = Q a
Ensures F Q (throw what) = Unit
Ensures F Q (fault kind) = F kind

abbrev pub Any : {A : Type 0} → A → Type 0
Any a = Unit

-- No fault
abbrev pub Never : Fault → Type 0
Never kind = ⊥

pub Ensures-weaken :
    {A : Type 0} (F G : Fault → Type 0) (Q R : A → Type 0) (m : Outcome A)
    → ((kind : Fault) → F kind → G kind)
    → ((a : A) → Q a → R a)
    → Ensures F Q m
    → Ensures G R m
Ensures-weaken F G Q R (ok a) f q h = q a h
Ensures-weaken F G Q R (throw what) f q h = tt
Ensures-weaken F G Q R (fault kind) f q h = f kind h

module _ (F : Fault → Type 0) where
  pub >>=-Ensures :
      {A C : Type 0} (Q : A → Type 0) (R : C → Type 0) (m : Outcome A) (f : A → Outcome C)
      → Ensures F Q m
      → ((a : A) → Q a → Ensures F R (f a))
      → Ensures F R (m >>= f)
  >>=-Ensures Q R (ok a) f h k = k a h
  >>=-Ensures Q R (throw what) f h k = tt
  >>=-Ensures Q R (fault kind) f h k = h

  pub if-Ensures :
      {A : Type 0} (Q : A → Type 0) (b : Bool) (x y : Outcome A)
      → (b ≡ true → Ensures F Q x)
      → (b ≡ false → Ensures F Q y)
      → Ensures F Q (if b then x else y)
  if-Ensures Q true x y h k = h refl
  if-Ensures Q false x y h k = k refl

  pub require-Ensures : (b : Bool) (what : Bytes) → Ensures F (λ u. b ≡ true) (require b what)
  require-Ensures true what = refl
  require-Ensures false what = tt

  pub rethrow-Ensures :
      {A : Type 0} (Q : A → Type 0) (f : Bytes → Bytes) (m : Outcome A)
      → Ensures F Q m
      → Ensures F Q (rethrow f m)
  rethrow-Ensures Q f (ok a) h = h
  rethrow-Ensures Q f (throw what) h = tt
  rethrow-Ensures Q f (fault kind) h = h

  pub Ensures-Any : {A : Type 0} (Q : A → Type 0) (m : Outcome A) → Ensures F Q m → Ensures F Any m
  Ensures-Any Q (ok a) h = tt
  Ensures-Any Q (throw what) h = tt
  Ensures-Any Q (fault kind) h = h

  pub Ensures-fault :
      {A : Type 0} (Q : A → Type 0) (m : Outcome A) (kind : Fault)
      → Ensures F Q m
      → m ≡ fault kind
      → F kind
  Ensures-fault {A} Q m kind h e = subst (λ (o : Outcome A). Ensures F Q o) e h

  value_cases :
      {A : Type 0} (m o : Outcome A)
      → m ≡ o
      → ((kind : Fault) → m ≡ fault kind → F kind)
      → Ensures F (λ a. m ≡ ok a) o
  value_cases m (ok a) e h = e
  value_cases m (throw what) e h = tt
  value_cases m (fault kind) e h = h kind e

  -- A call ensures of its value that it returns it.
  pub Ensures-value :
      {A : Type 0} (m : Outcome A)
      → ((kind : Fault) → m ≡ fault kind → F kind)
      → Ensures F (λ a. m ≡ ok a) m
  Ensures-value m h = value_cases m m refl h

-- A call that has no other fault than those that are not about rounds ends.
pub Ensures-Ends :
    {A : Type 0} (m : Outcome A) → Ensures (λ kind. kind ≢ out_of_fuel) Any m → Ends m
Ensures-Ends (ok a) h = ok-Ends
Ensures-Ends (throw what) h = throw-Ends
Ensures-Ends (fault kind) h = λ e. h (cc e)

pub Ends-Ensures :
    {A : Type 0} (m : Outcome A) → Ends m → Ensures (λ kind. kind ≢ out_of_fuel) Any m
Ends-Ensures (ok a) h = tt
Ends-Ensures (throw what) h = tt
Ends-Ensures (fault kind) h = λ e. h (cc e)
