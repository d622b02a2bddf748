-- ===== src/Converter/Faults.antt =====
-- common/HistogramConverter.cpp: the faults of the rewriting. `F` is what may be said of a fault.
use mozilla_telemetry.Prelude.{
  ◌<◌, ◌≡◌, refl, subst, inl, inr, Option-cases, none, some, List, arith, length, Bytes, c_str,
  codes,
}
use mozilla_telemetry.Outcome.{ok, fault, Fault, out_of_bounds}
use mozilla_telemetry.Outcome.Ensures.{Ensures, Any, >>=-Ensures, if-Ensures, Ensures-value}
use mozilla_telemetry.Json.{Value, object, Members, end, member, Rapidjson, lookup}
use mozilla_telemetry.Specification.{HistogramDefinition, HistogramSpecification, get_definition}
use mozilla_telemetry.Converter.{
  Entry, resolve, rewrite_object, rewrite_entry, rewrite_members, rewrite_histogram,
}
use mozilla_telemetry.Converter.Histograms.{AllWellFormed, rewrite_object_lem, resolve-IsWellFormed}

-- A histogram whose name, up to a NUL, is shorter than "STARTUP_".
pub data HasShortName {D : Type 0} : Members D → Type 0 where
  short_here :
      {n : Bytes} {os ms : Members D}
      → length (c_str n) < 8
      → HasShortName (member n (object os) ms)
  short_later :
      {n : Bytes} {v : Value D} {ms : Members D} → HasShortName ms → HasShortName (member n v ms)

fault_kind :
    (spec : HistogramSpecification) (n : Bytes) (kind : Fault)
    → resolve spec n ≡ fault kind
    → (out_of_bounds ≡ kind) × (length (c_str n) < 8)
unfolding resolve
fault_kind spec n kind e = elim (Option-cases (get_definition spec (c_str n))) [
  | inr (hd, there) ↦ ground (arith, e, there)
  | inl missing ↦ ground (arith, e, missing)
]

module _ (F : Fault → Type 0) where
  resolve-Ensures :
      (spec : HistogramSpecification) (n : Bytes)
      → (length (c_str n) < 8 → F out_of_bounds)
      → Ensures F (λ found. resolve spec n ≡ ok found) (resolve spec n)
  resolve-Ensures spec n blame =
      Ensures-value F (resolve spec n)
        (λ kind e. subst F (fault_kind spec n kind e).0 (blame (fault_kind spec n kind e).1))

  module _ (J : Rapidjson) where
    open J use {Double}

    -- The summary of the members that follow has five values.
    abbrev Five : Entry Double → Type 0
    Five e = length e.summary ≡ 5

    object-Ensures :
        (spec : HistogramSpecification) (n n' : Bytes) (hd : HistogramDefinition)
        (os : Members Double) (s : List Double)
        → AllWellFormed spec
        → resolve spec n ≡ ok (some (n', hd))
        → length s ≡ 5
        → Ensures F Five (rewrite_object J n' hd os s)
    object-Ensures spec n n' hd os s all e five =
        elim (rewrite_object_lem J n' hd (resolve-IsWellFormed J spec n n' hd all e) os s five
          (lookup J os (codes "values")) refl) [
            | inl (vs, counts, shape, good, step) ↦ rw step refl
            | inr (bad, step) ↦ rw step five
          ]

    entry-Ensures :
        (spec : HistogramSpecification) (n : Bytes) (v : Value Double) (ms : Members Double)
        (s : List Double)
        → AllWellFormed spec
        → length s ≡ 5
        → (HasShortName (member n v ms) → F out_of_bounds)
        → Ensures F Five (rewrite_entry J spec n v s)
    unfolding rewrite_entry
    entry-Ensures spec n (object os) ms s all five blame =
        >>=-Ensures F (λ found. resolve spec n ≡ ok found) Five (resolve spec n) _
          (resolve-Ensures spec n (λ h. blame (short_here h)))
          (elim [
            | none ↦ λ e. five
            | some (n', hd) ↦ λ e. object-Ensures spec n n' hd os s all e five
          ])
    entry-Ensures spec n v ms s all five blame = five

    members-Ensures :
        (spec : HistogramSpecification) (ms : Members Double) (s : List Double)
        → AllWellFormed spec
        → length s ≡ 5
        → (HasShortName ms → F out_of_bounds)
        → Ensures F Any (rewrite_members J spec ms s)
    unfolding rewrite_members
    members-Ensures spec end s all five blame = tt
    members-Ensures spec (member n v ms) s all five blame =
        >>=-Ensures F Five Any (rewrite_entry J spec n v s) _
          (entry-Ensures spec n v ms s all five blame)
          λ e five'.
            if-Ensures F Any e.result _ _
              (λ h.
                >>=-Ensures F Any Any (rewrite_members J spec ms e.summary) _
                  (members-Ensures spec ms e.summary all five' (λ h. blame (short_later h)))
                  (λ r u. tt))
              (λ h. tt)

    -- With well-formed definitions, `RewriteHistogram` has no fault but at a histogram of a short name.
    pub rewrite_histogram-Ensures :
        (spec : HistogramSpecification) (ms : Members Double)
        → AllWellFormed spec
        → (HasShortName ms → F out_of_bounds)
        → Ensures F Any (rewrite_histogram J spec ms)
    unfolding rewrite_histogram
    rewrite_histogram-Ensures spec ms all blame = members-Ensures spec ms _ all refl blame
