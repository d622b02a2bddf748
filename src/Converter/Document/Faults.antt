-- ===== src/Converter/Document/Faults.antt =====
-- common/HistogramConverter.cpp: the faults of `ConvertHistogramData`. `F` is what may be said of a fault.
use mozilla_telemetry.Prelude.{
  ◌≡◌, refl, sym, subst, Bool, true, false, Option, none, some, Bytes, c_str, codes, if◌then◌else◌,
}
use mozilla_telemetry.Prelude.Int.{ℤ, pos, eqb_ℤ, is_int32}
use mozilla_telemetry.Outcome.{Outcome, ok, ◌>>=◌, Fault, failed_assertion, out_of_bounds}
use mozilla_telemetry.Outcome.Ensures.{Ensures, Any, >>=-Ensures}
use mozilla_telemetry.Json.{Value, int, string, object, Members, is_object, Rapidjson, lookup}
use mozilla_telemetry.Specification.{HistogramSpecification}
use mozilla_telemetry.Converter.{rewrite_histogram}
use mozilla_telemetry.Converter.Faults.{HasShortName, rewrite_histogram-Ensures}
use mozilla_telemetry.Converter.Document.{
  FindHistogram, Converted, unless_object, unless_string, unless_int, update_document,
  convert_version_1, switch_version, convert_histogram_data,
}
use mozilla_telemetry.Cache.Tables.{IsGood}

module _ (J : Rapidjson) where
  open J use {Double}

  -- A document on which the code is not defined: it is no object, or a histogram of it has a name that
  -- is shorter than "STARTUP_".
  pub data IsBad : Value Double → Type 0 where
    no_object : {doc : Value Double} → is_object doc ≡ false → IsBad doc
    short_name :
        {top ms : Members Double}
        → lookup J top (codes "histograms") ≡ object ms
        → HasShortName ms
        → IsBad (object top)

  -- The revision of a document, as a C string
  pub data Revision : Value Double → Bytes → Type 0 where
    revision_of :
        {top info : Members Double} {revision : Bytes}
        → lookup J top (codes "info") ≡ object info
        → lookup J info (codes "revision") ≡ string revision
        → Revision (object top) (c_str revision)

module _ {A : Type 0} (P : A → Type 0) where
  test_cases : (b : Bool) (x y : A) → P x → P y → P (if b then x else y)
  test_cases true x y h k = h
  test_cases false x y h k = k

module _ {D A : Type 0} (P : A → Type 0) where
  object_cases :
      (v w : Value D) (a : A) (rest : Members D → A)
      → v ≡ w
      → P a
      → ((ms : Members D) → v ≡ object ms → P (rest ms))
      → P (unless_object w a rest)
  object_cases v (object ms) a rest e h k = k ms e
  object_cases v w a rest e h k = h

  string_cases :
      (v w : Value D) (a : A) (rest : Bytes → A)
      → v ≡ w
      → P a
      → ((s : Bytes) → v ≡ string s → P (rest s))
      → P (unless_string w a rest)
  string_cases v (string s) a rest e h k = k s e
  string_cases v w a rest e h k = h

  int_cases :
      (v : Value D) (a : A) (rest : ℤ → A) → P a → ((z : ℤ) → P (rest z)) → P (unless_int v a rest)
  int_cases (int z) a rest h k = test_cases P (is_int32 z) (rest z) a (k z) h
  int_cases v a rest h k = h

-- The call of `FindHistogram` is on the cache of the call, for the revision of the document.
module _ (F : Fault → Type 0) (J : Rapidjson) {C : Type 0} (find_histogram : FindHistogram C)
    (Sound : C → Type 0) (cache : C) (doc : Value J.Double)
    (finds : (key : Bytes)
      → Revision J doc key
      → Ensures F (λ f. Sound f.0 × IsGood f.1) (find_histogram cache key)) where
  open J use {Double}

  -- A sound cache, and a document that is an object
  abbrev pub IsSoundDocument : Converted C Double → Type 0
  IsSoundDocument c = Sound c.cache × (is_object c.doc ≡ true)

  found-Ensures :
      (top ms : Members Double) (later : C) (found : Option HistogramSpecification)
      → Sound later
      → IsGood found
      → (HasShortName ms → F out_of_bounds)
      → Ensures F IsSoundDocument (elim found [
        | none ↦ ok (record { cache = later; doc = object top; result = false })
        | some spec ↦ rewrite_histogram J spec ms >>= λ r.
            ok
              (record { cache = later; doc = object (update_document J top r.0 r.1); result = r.1 })
      ])
  found-Ensures top ms later none sound good blame = (sound, refl)
  found-Ensures top ms later (some spec) sound good blame =
      >>=-Ensures F Any IsSoundDocument (rewrite_histogram J spec ms) _
        (rewrite_histogram-Ensures F J spec ms good blame) (λ r u. (sound, refl))

  version_1-Ensures :
      (top : Members Double) (revision : Bytes) (ms : Members Double)
      → Revision J doc (c_str revision)
      → (HasShortName ms → F out_of_bounds)
      → Ensures F IsSoundDocument (convert_version_1 J find_histogram cache top revision ms)
  unfolding convert_version_1
  version_1-Ensures top revision ms its blame =
      >>=-Ensures F (λ f. Sound f.0 × IsGood f.1) IsSoundDocument
        (find_histogram cache (c_str revision)) _ (finds (c_str revision) its)
        (λ found good. found-Ensures top ms found.0 found.1 good.0 good.1 blame)

  document_cases :
      (v : Value Double)
      → doc ≡ v
      → Sound cache
      → ((kind : Fault) → IsBad J v → F kind)
      → Ensures F IsSoundDocument (convert_histogram_data J find_histogram cache v)
  unfolding convert_histogram_data switch_version
  document_cases (object top) it sound blame =
      let P : Outcome (Converted C Double) → Type 0 = Ensures F IsSoundDocument in
      object_cases P (lookup J top (codes "info")) _ _ _ refl (sound, refl)
        λ info there.
          string_cases P (lookup J info (codes "revision")) _ _ _ refl (sound, refl)
            λ revision its.
              object_cases P (lookup J top (codes "histograms")) _ _ _ refl (sound, refl)
                λ ms found.
                  int_cases P (lookup J top (codes "ver")) _ _ (sound, refl)
                    λ ver.
                      test_cases P (eqb_ℤ ver (pos 1)) _ _
                        (test_cases P (eqb_ℤ ver (pos 1)) _ _
                          (version_1-Ensures top revision ms
                            (subst (λ (d : Value Double). Revision J d (c_str revision)) (sym it)
                              (revision_of there its))
                            (λ h. blame out_of_bounds (short_name found h)))
                          (test_cases P (eqb_ℤ ver (pos 2)) _ _ (sound, refl) (sound, refl)))
                        (sound, refl)
  document_cases doc it sound blame = blame failed_assertion (no_object refl)

  -- On a sound cache, `ConvertHistogramData` has no fault but on a document that is bad, and what it
  -- leaves is a sound cache and an object.
  pub convert_histogram_data-Ensures :
      Sound cache
      → ((kind : Fault) → IsBad J doc → F kind)
      → Ensures F IsSoundDocument (convert_histogram_data J find_histogram cache doc)
  convert_histogram_data-Ensures sound blame = document_cases doc refl sound blame
