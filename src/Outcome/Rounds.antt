-- ===== src/Outcome/Rounds.antt =====
-- Calls that end within the rounds that the model gives them.
use mozilla_telemetry.Prelude.{◌≢◌, Bool, true, false, Bytes, if◌then◌else◌}
use mozilla_telemetry.Outcome.{Outcome, ok, throw, fault, out_of_fuel, ◌>>=◌, require, rethrow}

-- The call ends: it returns, throws, or does something that C++ leaves open, but it has rounds left.
abbrev pub Ends : {A : Type 0} → Outcome A → Type 0
Ends o = o ≢ fault out_of_fuel

pub ok-Ends : {A : Type 0} {a : A} → Ends (ok a)
ok-Ends e = cc e

pub throw-Ends : {A : Type 0} {what : Bytes} → Ends {A = A} (throw what)
throw-Ends e = cc e

pub >>=-Ends :
    {A B : Type 0} (m : Outcome A) (f : A → Outcome B)
    → Ends m
    → ((a : A) → Ends (f a))
    → Ends (m >>= f)
>>=-Ends (ok a) f h k = k a
>>=-Ends (throw what) f h k = throw-Ends
>>=-Ends (fault kind) f h k = λ e. h (cc e)

pub if-Ends :
    {A : Type 0} (b : Bool) {x y : Outcome A} → Ends x → Ends y → Ends (if b then x else y)
if-Ends true h k = h
if-Ends false h k = k

pub require-Ends : (b : Bool) (what : Bytes) → Ends (require b what)
require-Ends true what = ok-Ends
require-Ends false what = throw-Ends

pub rethrow-Ends : {A : Type 0} (f : Bytes → Bytes) (m : Outcome A) → Ends m → Ends (rethrow f m)
rethrow-Ends f (ok a) h = ok-Ends
rethrow-Ends f (throw what) h = throw-Ends
rethrow-Ends f (fault kind) h = λ e. h (cc e)
