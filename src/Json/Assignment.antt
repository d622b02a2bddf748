-- ===== src/Json/Assignment.antt =====
-- Laws of the members of an object: reading back what an assignment wrote.
use mozilla_telemetry.Prelude.{
  ◌∷◌, ◌⊎◌, inl, inr, false, Bytes, ℕ, zero, suc, ◌≡◌, refl, ◌≢◌, ap, some,
}
use mozilla_telemetry.Json.{
  Value, object, string, is_object, is_string, Members, end, member, names, value_at, set_value,
}

module _ {D : Type 0} where
  -- An assignment to a value leaves the names, and so what `find` sees.
  pub names-set_value : (ms : Members D) (i : ℕ) (w : Value D) → names (set_value ms i w) ≡ names ms
  names-set_value end i w = refl
  names-set_value (member k v ms) zero w = refl
  names-set_value (member k v ms) (suc i) w = ap (◌∷◌ k) (names-set_value ms i w)

  pub value_at-set_value_self :
      (ms : Members D) (i : ℕ) (w v : Value D)
      → value_at ms i ≡ some v
      → value_at (set_value ms i w) i ≡ some w
  value_at-set_value_self end i w v h = cc
  value_at-set_value_self (member k u ms) zero w v h = refl
  value_at-set_value_self (member k u ms) (suc i) w v h = value_at-set_value_self ms i w v h

  pub value_at-set_value_ne :
      (ms : Members D) (i j : ℕ) (w : Value D)
      → i ≢ j
      → value_at (set_value ms i w) j ≡ value_at ms j
  value_at-set_value_ne end i j w h = refl
  value_at-set_value_ne (member k v ms) zero zero w h = absurd (h refl)
  value_at-set_value_ne (member k v ms) zero (suc j) w h = refl
  value_at-set_value_ne (member k v ms) (suc i) zero w h = refl
  value_at-set_value_ne (member k v ms) (suc i) (suc j) w h =
      value_at-set_value_ne ms i j w (λ e. h (ap suc e))

  -- A value is an object, or `IsObject` says no; and so for the other types.
  pub object_cases : (v : Value D) → ((ms : Members D) × (v ≡ object ms)) ⊎ (is_object v ≡ false)
  object_cases (object ms) = inl (ms, refl)
  object_cases v = inr refl

  pub string_cases : (v : Value D) → ((s : Bytes) × (v ≡ string s)) ⊎ (is_string v ≡ false)
  string_cases (string s) = inl (s, refl)
  string_cases v = inr refl
