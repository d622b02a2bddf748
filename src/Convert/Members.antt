-- ===== src/Convert/Members.antt =====
-- convert.cpp: what the reading of one member of the configuration gives.
use mozilla_telemetry.Prelude.{
  ◌≡◌, refl, inl, inr, Bool-cases, Bool, true, arith, Bytes, c_str, if◌then◌else◌, subst,
}
use mozilla_telemetry.Prelude.Int.{ℤ, is_uint32, is_uint64, is_int32}
use mozilla_telemetry.Outcome.{Outcome, ok, throw, fault}
use mozilla_telemetry.Exec.{Exec, pure, ◌>>=◌}
use mozilla_telemetry.Json.{Value, int, string, object, Members, Rapidjson, lookup}
use mozilla_telemetry.Specification.{require_int}
use mozilla_telemetry.Convert.{
  Directories, text, directory, not_specified, number_by, require_uint, require_uint64,
}

-- What a chain that returns has run.
module _ {S A B : Type 0} (m : Exec S A) (f : A → Exec S B) (s s'' : S) (b : B) where
  split_cases :
      (o : Outcome A) (s' : S)
      → m s ≡ (o, s')
      → (m >>= f) s ≡ (ok b, s'')
      → (a : A) × (t : S) × (m s ≡ (ok a, t)) × (f a t ≡ (ok b, s''))
  split_cases (ok a) s' e h = (a, s', e, (rw e at h))
  split_cases (throw what) s' e h = cc ((rw e at h))
  split_cases (fault kind) s' e h = cc ((rw e at h))

  pub split :
      (m >>= f) s ≡ (ok b, s'') → (a : A) × (t : S) × (m s ≡ (ok a, t)) × (f a t ≡ (ok b, s''))
  split h = split_cases (m s).0 (m s).1 refl h

module _ (J : Rapidjson) {W : Type 0} (F : Directories W) where
  open J use {Double, parse}
  open F use {is_there, create_directories, create_directories-is_there, create_directories_keeps}

  -- The member is a string, and this is what a C string shows of it.
  abbrev pub HasText : Members Double → Bytes → Bytes → Type 0
  HasText ms key s = (raw : Bytes) × (lookup J ms key ≡ string raw) × (s ≡ c_str raw)

  -- What was there before is there after.
  abbrev pub Keeps : W → W → Type 0
  Keeps w w' = (p : Bytes) → is_there w p ≡ true → is_there w' p ≡ true

  text_cases :
      (ms : Members Double) (key s : Bytes) (w w' : W) (v : Value Double)
      → lookup J ms key ≡ v
      → text J F (object ms) key w ≡ (ok s, w')
      → (w ≡ w') × HasText ms key s
  unfolding text
  text_cases ms key s w w' (string raw) e h = (cc ((rw e at h)), (raw, e, cc ((rw e at h))))
  text_cases ms key s w w' v e h = cc ((rw e at h))

  pub text_read :
      (ms : Members Double) (key s : Bytes) (w w' : W)
      → text J F (object ms) key w ≡ (ok s, w')
      → (w ≡ w') × HasText ms key s
  text_read ms key s w w' h = text_cases ms key s w w' (lookup J ms key) refl h

  abbrev made_at : Bytes → Exec W (Unit {0})
  made_at p w = if is_there w p then (ok tt, w) else create_directories p w

  made : (p : Bytes) (w w' : W) → made_at p w ≡ (ok tt, w') → (is_there w' p ≡ true) × Keeps w w'
  made p w w' h = elim (Bool-cases (is_there w p)) [
    | inl there ↦
        let same : w ≡ w' = cc ((rw there at h)) in
        (
          subst (λ t. is_there t p ≡ true) same there,
          λ q k. subst (λ t. is_there t q ≡ true) same k,
        )
    | inr absent ↦
        let run = rw absent at h in
        (create_directories-is_there w w' p run, λ q k. create_directories_keeps w w' p q run k)
  ]

  pub directory_read :
      (ms : Members Double) (key s : Bytes) (w w' : W)
      → directory J F (object ms) key w ≡ (ok s, w')
      → HasText ms key s × (is_there w' s ≡ true) × Keeps w w'
  unfolding directory
  directory_read ms key s w w' h =
      let (p, t, read, rest) = split (text J F (object ms) key) _ w w' s h in
      let (u, t', run, last) = split (made_at p) (λ _. pure p) t w' s rest in
      let (same, member) = text_read ms key p w t read in
      let (there, kept) = made p t t' run in
      let p_s : p ≡ s = cc last in
      let t_w : t' ≡ w' = cc last in
      (
        subst (HasText ms key) p_s member,
        subst (λ q. is_there w' q ≡ true) p_s (subst (λ v. is_there v p ≡ true) t_w there),
        λ q k.
            subst (λ v. is_there v q ≡ true) t_w (kept q (subst (λ v. is_there v q ≡ true) same k)),
      )

  -- The member is a number in the range that the test allows.
  abbrev pub HasNumber : (ℤ → Bool) → Members Double → Bytes → ℤ → Type 0
  HasNumber range ms key z = (lookup J ms key ≡ int z) × (range z ≡ true)

  pub number_cases :
      (range : ℤ → Bool) (require : Value Double → Bytes → Outcome ℤ)
      (only : (v : Value Double) (what : Bytes) (z : ℤ)
        → require v what ≡ ok z
        → (v ≡ int z) × (range z ≡ true))
      (ms : Members Double) (key : Bytes) (z : ℤ) (w w' : W)
      → number_by J F require (object ms) key w ≡ (ok z, w')
      → (w ≡ w') × HasNumber range ms key z
  number_cases range require only ms key z w w' h =
      (cc h, only (lookup J ms key) (not_specified J F key) z (cc h))

  pub only_uint64 :
      (v : Value Double) (what : Bytes) (z : ℤ)
      → require_uint64 v what ≡ ok z
      → (v ≡ int z) × (is_uint64 z ≡ true)
  only_uint64 v what z h = ground arith

  pub only_uint :
      (v : Value Double) (what : Bytes) (z : ℤ)
      → require_uint v what ≡ ok z
      → (v ≡ int z) × (is_uint32 z ≡ true)
  only_uint v what z h = ground arith

  pub only_int :
      (v : Value Double) (what : Bytes) (z : ℤ)
      → require_int v what ≡ ok z
      → (v ≡ int z) × (is_int32 z ≡ true)
  only_int v what z h = ground arith
