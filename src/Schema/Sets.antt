-- ===== src/Schema/Sets.antt =====
-- common/TelemetrySchema.cpp: the allowed values of a dimension that lists them.
use mozilla_telemetry.Prelude.{
  ℕ, zero, suc, ◌≡◌, ◌↔◌, ◌⊎◌, refl, inl, inr, ap, ◌∙◌, true, Option, some, List, [], ◌∷◌, arith,
  get_elem?, Bytes, codes, c_str, bytes_eq_iff,
}
use mozilla_telemetry.Outcome.{ok}
use mozilla_telemetry.Json.{
  Value, null, bool, int, double, string, array, object, Items, Members, items, Rapidjson, lookup,
}
use mozilla_telemetry.Schema.{
  k_set, TelemetryDimension, set_contains, set_insert, load_set, load_values, new_dimension,
}

-- The string is an element, as far as a C string shows it.
abbrev pub IsAllowed : {D : Type 0} → Bytes → List (Value D) → Type 0
IsAllowed s vs = (i : ℕ) × (x : Bytes) × (get_elem? vs i ≡ some (string x)) × (c_str x ≡ s)

set_contains-insert :
    (s k : Bytes) (set : List Bytes)
    → (set_contains s (set_insert k set) ≡ true) ↔ ((k ≡ s) ⊎ (set_contains s set ≡ true))
unfolding set_contains set_insert
set_contains-insert s k set = ground (arith, bytes_eq_iff k s)

string_inj :
    {D : Type 0} {x y : Bytes}
    → ◌≡◌ {A = Option (Value D)} (some (string x)) (some (string y))
    → x ≡ y
string_inj h = cc

module _ {D : Type 0} (s x : Bytes) (vs : List (Value D)) (set : List Bytes) where
  shift :
      (set_contains s (set_insert (c_str x) set) ≡ true
        → (c_str x ≡ s) ⊎ (set_contains s set ≡ true))
      → (set_contains s (set_insert (c_str x) set) ≡ true) ⊎ IsAllowed s vs
      → (set_contains s set ≡ true) ⊎ IsAllowed s (string x ∷ vs)
  shift step (inl c) = elim (step c) [ inl e ↦ inr (zero, x, refl, e) | inr old ↦ inl old ]
  shift step (inr (i, y, h, e)) = inr (suc i, y, h, e)

  unshift :
      ((c_str x ≡ s) ⊎ (set_contains s set ≡ true)
        → set_contains s (set_insert (c_str x) set) ≡ true)
      → (set_contains s set ≡ true) ⊎ IsAllowed s (string x ∷ vs)
      → (set_contains s (set_insert (c_str x) set) ≡ true) ⊎ IsAllowed s vs
  unshift step (inl old) = inl (step (inr old))
  unshift step (inr (zero, y, h, e)) = inl (step (inl (ap c_str (string_inj h) ∙ e)))
  unshift step (inr (suc i, y, h, e)) = inr (i, y, h, e)

module _ (J : Rapidjson) where
  open J use {Double}

  load_set_lem :
      (vs : List (Value Double)) (set set' : List Bytes)
      → load_set J vs set ≡ ok set'
      → (s : Bytes) → (set_contains s set' ≡ true) ↔ ((set_contains s set ≡ true) ⊎ IsAllowed s vs)
  unfolding load_set
  load_set_lem [] set set' h s = ground arith
  load_set_lem (string x ∷ vs) set set' h s =
      let ih = load_set_lem vs (set_insert (c_str x) set) set' h s in
      let step = set_contains-insert s (c_str x) set in
      (λ c. shift s x vs set (step.0) (ih.0 c), λ c. ih.1 (unshift s x vs set step.1 c))
  load_set_lem (null ∷ vs) set set' h s = cc
  load_set_lem (bool b ∷ vs) set set' h s = cc
  load_set_lem (int z ∷ vs) set set' h s = cc
  load_set_lem (double x ∷ vs) set set' h s = cc
  load_set_lem (array a ∷ vs) set set' h s = cc
  load_set_lem (object o ∷ vs) set set' h s = cc

  list_read :
      (ms : Members Double) (n : Bytes) (vs : Items Double) (d : TelemetryDimension Double)
      → lookup J ms (codes "field_name") ≡ string n
      → lookup J ms (codes "allowed_values") ≡ array vs
      → new_dimension J (object ms) ≡ ok d
      → (set : List Bytes) × (load_set J (items vs) [] ≡ ok set)
        × (d.type ≡ k_set)
        × (d.name ≡ c_str n)
        × (d.set ≡ set)
  unfolding new_dimension load_values
  list_read ms n vs d named allowed made = ground arith

  from_empty : (s : Bytes) {P Q : Type 0} → (P → (set_contains s [] ≡ true) ⊎ Q) → P → Q
  unfolding set_contains
  from_empty s f p = elim (f p) [ inl bad ↦ cc | inr q ↦ q ]

  -- A dimension whose allowed values are an array is one that lists them: the constructor returns
  -- it only if every element is a string, and it then allows exactly the elements, each up to a NUL.
  pub new_dimension-allows :
      (ms : Members Double) (n : Bytes) (vs : Items Double) (d : TelemetryDimension Double)
      → lookup J ms (codes "field_name") ≡ string n
      → lookup J ms (codes "allowed_values") ≡ array vs
      → new_dimension J (object ms) ≡ ok d
      → (d.type ≡ k_set)
        × (d.name ≡ c_str n)
        × ((s : Bytes) → (set_contains s d.set ≡ true) ↔ IsAllowed s (items vs))
  new_dimension-allows ms n vs d named allowed made =
      let (set, loaded, type, name, same) = list_read ms n vs d named allowed made in
      let lem = load_set_lem (items vs) [] set loaded in
      (
        type,
        name,
        λ s. (λ c. from_empty s (lem s).0 (rw same at c), λ c. rw same ((lem s).1 (inr c))),
      )
