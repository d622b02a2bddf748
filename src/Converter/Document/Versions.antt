-- ===== src/Converter/Document/Versions.antt =====
-- The versions of a document around `ConvertHistogramData`.
use mozilla_telemetry.Prelude.{
  ℕ, ◌≡◌, ◌≢◌, sym, ◌∙◌, inl, inr, Bool, false, none, some, arith, Bytes, codes, c_str,
  Option-cases,
}
use mozilla_telemetry.Prelude.Int.{pos}
use mozilla_telemetry.Outcome.{ok}
use mozilla_telemetry.Json.{Value, null, int, object, Members, names, value_at, Rapidjson, lookup}
use mozilla_telemetry.Json.Assignment.{
  names-set_value, value_at-set_value_self, value_at-set_value_ne,
}
use mozilla_telemetry.Specification.{HistogramSpecification}
use mozilla_telemetry.Converter.Histograms.{
  AllWellFormed, AllResolve, Rewrites, rewrite_histogram-Rewrites,
}
use mozilla_telemetry.Converter.Document.{
  FindHistogram, assign, update_document, new_version, convert_version_1, convert_histogram_data,
}
use mozilla_telemetry.Converter.Document.Steps.{IsReady, convert_ready, convert_cases}

module _ (J : Rapidjson) where
  open J use {Double, find, find-some}

  -- Two names do not refer to one member.
  find-ne :
      (ms : Members Double) (k j : Bytes) (a b : ℕ)
      → k ≢ j
      → find k (names ms) ≡ some a
      → find j (names ms) ≡ some b
      → a ≢ b
  find-ne ms k j a b h p q e = h (cc (find-some k (names ms) p, find-some j (names ms) q, e))

  lookup-assign_self :
      (ms : Members Double) (k : Bytes) (w : Value Double)
      → lookup J ms k ≢ null
      → lookup J (assign J ms k w) k ≡ w
  lookup-assign_self ms k w h = elim (Option-cases (find k (names ms))) [
    | inl e ↦ absurd (h (ground (arith, e)))
    | inr (i, e) ↦ elim (Option-cases (value_at ms i)) [
      | inl gone ↦ absurd (h (ground (arith, e, gone)))
      | inr (v, there) ↦
          ground (arith, e, names-set_value ms i w, value_at-set_value_self ms i w v there)
    ]
  ]

  lookup-assign_ne :
      (ms : Members Double) (k j : Bytes) (w : Value Double)
      → k ≢ j
      → lookup J (assign J ms k w) j ≡ lookup J ms j
  lookup-assign_ne ms k j w h = elim (Option-cases (find k (names ms))) [
    | inl e ↦ ground (arith, e)
    | inr (i, e) ↦ elim (Option-cases (find j (names ms))) [
      | inl f ↦ ground (arith, e, f, names-set_value ms i w)
      | inr (b, f) ↦ ground (
        arith,
        e,
        f,
        names-set_value ms i w,
        value_at-set_value_ne ms i b w (find-ne ms k j i b h e f),
      )
    ]
  ]

  -- How the document differs from the one that was read.
  pub record IsUpdate (top top' ms' : Members Double) (r : Bool) : Type 0 where
    pub histograms : lookup J top' (codes "histograms") ≡ object ms'
    pub version : lookup J top' (codes "ver") ≡ int (new_version J r)
    pub others :
        (k : Bytes) → k ≢ codes "histograms" → k ≢ codes "ver" → lookup J top' k ≡ lookup J top k

  update_document-IsUpdate :
      (top ms ms' : Members Double) (revision : Bytes) (r : Bool)
      → IsReady J top revision ms
      → IsUpdate top (update_document J top ms' r) ms' r
  update_document-IsUpdate top ms ms' revision r ready =
      let middle = assign J top (codes "histograms") (object ms') in
      let distinct : codes "histograms" ≢ codes "ver" = λ e. cc e in
      let ver_there : lookup J middle (codes "ver") ≡ int (pos 1) =
        lookup-assign_ne top (codes "histograms") (codes "ver") (object ms') distinct
        ∙ ready.version_read in
      record {
        histograms =
            lookup-assign_ne middle (codes "ver") (codes "histograms") (int (new_version J r))
              (λ e. cc e)
            ∙ lookup-assign_self top (codes "histograms") (object ms')
                (λ e. cc (e, ready.histograms_read));
        version =
            lookup-assign_self middle (codes "ver") (int (new_version J r))
              (λ e. cc (e, ver_there));
        others = λ k h v.
            lookup-assign_ne middle (codes "ver") k (int (new_version J r)) (λ e. v (sym e))
            ∙ lookup-assign_ne top (codes "histograms") k (object ms') (λ e. h (sym e));
      }

  module _ {C : Type 0} (find_histogram : FindHistogram C) (cache : C) (top : Members Double) where
    -- A document whose version is not 1 is left alone and the call returns false, so also one
    -- that was converted before.
    pub convert_other_version :
        (lookup J top (codes "ver") ≢ int (pos 1))
        → convert_histogram_data J find_histogram cache (object top)
          ≡ ok (record { cache = cache; doc = object top; result = false })
    convert_other_version other = elim (convert_cases J find_histogram cache top) [
      | inl (revision, ms, ready) ↦ absurd (other ready.version_read)
      | inr e ↦ e
    ]

    -- A ready document, with the specification of its revision at hand.
    pub convert-IsUpdate :
        (revision : Bytes) (ms : Members Double) (cache' : C) (spec : HistogramSpecification)
        → IsReady J top revision ms
        → find_histogram cache (c_str revision) ≡ ok (cache', some spec)
        → AllWellFormed spec
        → AllResolve J spec ms
        → (top' : Members Double) × (ms' : Members Double) × (r : Bool) × (convert_histogram_data J
              find_histogram cache
              (object top)
            ≡ ok (record { cache = cache'; doc = object top'; result = r }))
          × Rewrites J spec ms ms' r
          × IsUpdate top top' ms' r
    unfolding convert_version_1
    convert-IsUpdate revision ms cache' spec ready found all safe =
        let (ms', r, run, rel) = rewrite_histogram-Rewrites J spec ms all safe in
        (
          update_document J top ms' r,
          ms',
          r,
          convert_ready J find_histogram cache top revision ms ready ∙ ground (arith, found, run),
          rel,
          update_document-IsUpdate top ms ms' revision r ready,
        )

    -- A ready document whose revision has no specification is left alone.
    pub convert_not_found :
        (revision : Bytes) (ms : Members Double) (cache' : C)
        → IsReady J top revision ms
        → find_histogram cache (c_str revision) ≡ ok (cache', none)
        → convert_histogram_data J find_histogram cache (object top)
          ≡ ok (record { cache = cache'; doc = object top; result = false })
    unfolding convert_version_1
    convert_not_found revision ms cache' ready found =
        convert_ready J find_histogram cache top revision ms ready ∙ ground (arith, found)
