-- ===== src/Specification/Names.antt =====
-- What `LoadDefinitions` makes of the object `histograms`, and which definition a name has.
use mozilla_telemetry.Prelude.{
  ◌≡◌, refl, Option, none, some, [], arith, Bytes, codes, c_str, bytes_eq, bytes_eq_iff, Bool-cases,
  inl, inr, if◌then◌else◌, sym, ◌∙◌,
}
use mozilla_telemetry.Prelude.Int.{ℤ}
use mozilla_telemetry.Outcome.{Outcome, ok, ◌>>=◌, >>=-eq-ok, rethrow-eq-ok}
use mozilla_telemetry.Json.{Value, object, Members, end, member, Rapidjson, lookup}
use mozilla_telemetry.Specification.{
  HistogramDefinition, HistogramSpecification, find_definition, insert_definition, get_definition,
  new_definition, load_members, load_definitions, require_object,
}
use mozilla_telemetry.Specification.Buckets.{or_else, IsWellFormed, IsTableOf-IsWellFormed}
use mozilla_telemetry.Specification.Acceptance.{new_definition-Describes}

pub find_definition-insert_definition :
    (k j : Bytes) (d : HistogramDefinition) (ds : HistogramSpecification)
    → find_definition k (insert_definition j d ds)
      ≡ or_else (find_definition k ds) (if bytes_eq j k then some d else none)
unfolding find_definition insert_definition
find_definition-insert_definition k j d ds = ground (arith, bytes_eq_iff j k)

abbrev result {ℓ} : {A : Type ℓ} → Outcome A → Option A
result (ok a) = some a
result _ = none

module _ (J : Rapidjson) (lexical_cast : Bytes → Option ℤ) where
  open J use {Double}

  -- The reference: the first member whose name, as a C string, is `k`.
  unfoldable pub first_definition : Bytes → Members Double → Option HistogramDefinition
  first_definition k end = none
  first_definition k (member n v ms) =
      if bytes_eq (c_str n) k
      then result (new_definition J lexical_cast v)
      else first_definition k ms

  -- Every member is an object that the constructor accepts.
  abbrev pub AllAccepted : Members Double → Type 0
  AllAccepted end = Unit
  AllAccepted (member n v ms) =
      ((os : Members Double) × (d : HistogramDefinition) × (v ≡ object os)
        × (new_definition J lexical_cast v ≡ ok d))
      × AllAccepted ms

  pub load_members-first_definition :
      (ms : Members Double) (ds ds' : HistogramSpecification)
      → load_members J lexical_cast ms ds ≡ ok ds'
      → AllAccepted ms
        × ((k : Bytes)
            → find_definition k ds' ≡ or_else (find_definition k ds) (first_definition k ms))
  unfolding load_members first_definition
  load_members-first_definition end ds ds' h = (tt, λ k. ground arith)
  load_members-first_definition (member n (object os) ms) ds ds' h =
      let (d, e, later) =
        >>=-eq-ok (λ hd. load_members J lexical_cast ms (insert_definition (c_str n) hd ds)) _ h in
      let built = rethrow-eq-ok _ (new_definition J lexical_cast (object os)) e in
      let (all, ih) =
        load_members-first_definition ms (insert_definition (c_str n) d ds) ds' later in
      (
        ((os, d, refl, built), all),
        λ k. ground (arith, ih k, built, find_definition-insert_definition k (c_str n) d ds),
      )
  load_members-first_definition (member n v ms) ds ds' h = ground arith

  first_definition-IsWellFormed :
      (k : Bytes) (ms : Members Double) (d : HistogramDefinition)
      → AllAccepted ms
      → first_definition k ms ≡ some d
      → IsWellFormed d
  unfolding first_definition
  first_definition-IsWellFormed k end d all h = cc
  first_definition-IsWellFormed k (member n v ms) d ((os, e, shape, built), all) h =
      elim (Bool-cases (bytes_eq (c_str n) k)) [
        | inl same ↦
            let made : new_definition J lexical_cast (object os) ≡ ok d =
              ground (arith, built, shape) in
            let described = new_definition-Describes J lexical_cast os d made in
            IsTableOf-IsWellFormed d _ described.built
        | inr other ↦ first_definition-IsWellFormed k ms d all (ground arith)
      ]

  -- What `LoadDefinitions` has read when it returns.
  pub load_definitions-first_definition :
      (doc : Value Double) (spec : HistogramSpecification)
      → load_definitions J lexical_cast doc ≡ ok spec
      → (top : Members Double) × (ms : Members Double) × (doc ≡ object top)
        × (lookup J top (codes "histograms") ≡ object ms)
        × AllAccepted ms
        × ((name : Bytes) → get_definition spec name ≡ first_definition (c_str name) ms)
  unfolding load_definitions get_definition
  load_definitions-first_definition (object top) spec h =
      let (ms, shape, loaded) = histograms_read (lookup J top (codes "histograms")) h in
      let (all, same) = load_members-first_definition ms [] spec loaded in
      (top, ms, refl, shape, all, λ name. same (c_str name))
    where
      histograms_read :
          (v : Value Double)
          → (require_object v (codes "histograms element must be an object") >>= λ ms.
              load_members J lexical_cast ms [])
            ≡ ok spec
          → (ms : Members Double) × (v ≡ object ms) × (load_members J lexical_cast ms [] ≡ ok spec)
      histograms_read (object ms) e = (ms, refl, e)
      histograms_read v e = cc
  load_definitions-first_definition v spec h = cc

  -- Every definition that a loaded specification gives is well formed.
  pub get_definition-IsWellFormed :
      (doc : Value Double) (spec : HistogramSpecification) (name : Bytes) (d : HistogramDefinition)
      → load_definitions J lexical_cast doc ≡ ok spec
      → get_definition spec name ≡ some d
      → IsWellFormed d
  get_definition-IsWellFormed doc spec name d h g =
      let (top, ms, shape, read, all, same) = load_definitions-first_definition doc spec h in
      first_definition-IsWellFormed (c_str name) ms d all (sym (same name) ∙ g)
