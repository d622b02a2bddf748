-- ===== src/Schema/Faults.antt =====
-- common/TelemetrySchema.cpp: the faults of the constructors. `F` is what may be said of a fault.
use mozilla_telemetry.Prelude.{
  ◌≡◌, refl, true, false, Option, none, some, List, [], ◌∷◌, Bytes, c_str, codes,
}
use mozilla_telemetry.Outcome.{Fault, failed_assertion, require, rethrow}
use mozilla_telemetry.Outcome.Ensures.{Ensures, Any, >>=-Ensures, require-Ensures, rethrow-Ensures}
use mozilla_telemetry.Json.{
  Value, int, double, string, array, object, is_object, Rapidjson, Parsed, parse_error, document,
  at, lookup, items,
}
use mozilla_telemetry.Specification.{require_string, require_int, require_array}
use mozilla_telemetry.Specification.Faults.{
  require_string-Ensures, require_int-Ensures, require_array-Ensures, at-Ensures, document-Ensures,
}
use mozilla_telemetry.Schema.{
  require_number, load_set, load_values, new_dimension, in_schema, load_loop, load_dimensions,
  parse_schema, read_chars, new_schema,
}

module _ (F : Fault → Type 0) (J : Rapidjson) where
  open J use {Double, parse}

  load_set-Ensures :
      (vs : List (Value Double)) (set : List Bytes) → Ensures F Any (load_set J vs set)
  unfolding load_set
  load_set-Ensures [] set = tt
  load_set-Ensures (v ∷ vs) set =
      >>=-Ensures F Any Any (require_string v _) _ (require_string-Ensures F v _)
        (λ s u. load_set-Ensures vs _)

  require_number-Ensures :
      (v : Value Double) (what : Bytes) → Ensures F Any (require_number J v what)
  require_number-Ensures (int z) what = tt
  require_number-Ensures (double d) what = tt
  require_number-Ensures v what = tt

  load_values-Ensures : (name : Bytes) (v : Value Double) → Ensures F Any (load_values J name v)
  unfolding load_values
  load_values-Ensures name (string s) = tt
  load_values-Ensures name (array vs) =
      >>=-Ensures F Any Any (load_set J (items vs) []) _ (load_set-Ensures (items vs) [])
        (λ set u. tt)
  load_values-Ensures name (object ms) =
      >>=-Ensures F Any Any (require_number J (lookup J ms (codes "min")) _) _
        (require_number-Ensures (lookup J ms (codes "min")) _)
        λ first u.
          >>=-Ensures F Any Any (require_number J (lookup J ms (codes "max")) _) _
            (require_number-Ensures (lookup J ms (codes "max")) _) (λ second u. tt)
  load_values-Ensures name v = tt

  new_dimension-Ensures :
      (v : Value Double) → is_object v ≡ true → Ensures F Any (new_dimension J v)
  unfolding new_dimension
  new_dimension-Ensures v o = >>=-Ensures F Any Any (at J v _) _ (at-Ensures F J v _ o) λ fn _.
      >>=-Ensures F Any Any (require_string fn _) _ (require_string-Ensures F fn _) λ name _.
        >>=-Ensures F Any Any (at J v _) _ (at-Ensures F J v _ o) (λ av _. load_values-Ensures _ av)

  load_loop-Ensures : (vs : List (Value Double)) → Ensures F Any (load_loop J vs)
  unfolding load_loop
  load_loop-Ensures [] = tt
  load_loop-Ensures (v ∷ vs) =
      >>=-Ensures F (λ u. is_object v ≡ true) Any (require (is_object v) _) _
        (require-Ensures F (is_object v) _)
        λ u o.
          >>=-Ensures F Any Any (rethrow (in_schema J) (new_dimension J v)) _
            (rethrow-Ensures F Any (in_schema J) (new_dimension J v) (new_dimension-Ensures v o))
            λ dim _. >>=-Ensures F Any Any (load_loop J vs) _ (load_loop-Ensures vs) (λ dims _. tt)

  parsed-Ensures :
      (json : Bytes) (p : Parsed Double)
      → parse (c_str json) ≡ p
      → ((doc : Value Double) → p ≡ document doc → is_object doc ≡ false → F failed_assertion)
      → Ensures F Any (parse_schema J json)
  unfolding parse_schema load_dimensions
  parsed-Ensures json (parse_error e) h blame = rw (h, parse_schema) tt
  parsed-Ensures json (document doc) h blame =
      rw (h, parse_schema)
        (>>=-Ensures F (λ v. is_object doc ≡ true) Any (at J doc _) _
          (document-Ensures F J doc _ (blame doc refl))
          λ v o. >>=-Ensures F Any Any (require_int v _) _ (require_int-Ensures F v _) λ version _.
            >>=-Ensures F Any Any (load_dimensions J doc) _
              (>>=-Ensures F Any Any (at J doc _) _ (at-Ensures F J doc _ o) λ ds _.
                >>=-Ensures F Any Any (require_array ds _) _ (require_array-Ensures F ds _)
                  (λ vs _. load_loop-Ensures vs))
              (λ dims _. tt))

  -- A schema is loaded without a fault, unless its text is a document that is no object.
  pub new_schema-Ensures :
      (file_name : Bytes) (content : Option Bytes)
      → ((text : Bytes) (doc : Value Double)
          → content ≡ some text
          → parse (c_str (read_chars text)) ≡ document doc
          → is_object doc ≡ false
          → F failed_assertion)
      → Ensures F Any (new_schema J file_name content)
  unfolding new_schema
  new_schema-Ensures file_name none blame = tt
  new_schema-Ensures file_name (some text) blame =
      parsed-Ensures (read_chars text) (parse (c_str (read_chars text))) refl
        (λ doc. blame text doc refl)
