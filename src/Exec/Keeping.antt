-- ===== src/Exec/Keeping.antt =====
-- Methods that keep an invariant of the object, and have no other faults than `F` allows in the object
-- that they leave.
use mozilla_telemetry.Prelude.{◌≡◌, refl, Bool, true, false, if◌then◌else◌}
use mozilla_telemetry.Outcome.{Outcome, ok, throw, fault, Fault}
use mozilla_telemetry.Outcome.Ensures.{Ensures, Any}
use mozilla_telemetry.Exec.{Exec, ◌>>=◌, ◌>>◌}

module _ {S : Type 0} (F : S → Fault → Type 0) (I : S → Type 0) where
  abbrev pub Keeping : {A : Type 0} → Exec S A → Type 0
  Keeping m = (s : S) → I s → Ensures (F (m s).1) Any (m s).0 × I (m s).1

  bind_cases :
      {A C : Type 0} (m : Exec S A) (f : A → Exec S C) (s : S) (o : Outcome A)
      → (m s).0 ≡ o
      → Ensures (F (m s).1) Any o
      → I (m s).1
      → ((a : A) → Keeping (f a))
      → Ensures (F ((m >>= f) s).1) Any ((m >>= f) s).0 × I ((m >>= f) s).1
  bind_cases m f s (ok a) e h i k = rw (e, ◌>>=◌) (k a (m s).1 i)
  bind_cases m f s (throw what) e h i k = rw (e, ◌>>=◌) (tt, i)
  bind_cases m f s (fault kind) e h i k = rw (e, ◌>>=◌) (h, i)

  pub bind-Keeping :
      {A C : Type 0} (m : Exec S A) (f : A → Exec S C)
      → Keeping m
      → ((a : A) → Keeping (f a))
      → Keeping (m >>= f)
  bind-Keeping m f h k s i = let done = h s i in bind_cases m f s (m s).0 refl done.0 done.1 k

  pub then-Keeping :
      {A C : Type 0} (m : Exec S A) (f : Exec S C) → Keeping m → Keeping f → Keeping (m >> f)
  then-Keeping m f h k = bind-Keeping m (λ _. f) h (λ _. k)

  pub if-Keeping :
      {A : Type 0} (b : Bool) (m k : Exec S A)
      → Keeping m
      → Keeping k
      → Keeping (if b then m else k)
  if-Keeping true m k h j = h
  if-Keeping false m k h j = j
