-- ===== src/Converter/Document.antt =====
-- common/HistogramConverter.cpp: `ConvertHistogramData`. What it needs of the cache, the call
-- `FindHistogram`, is a parameter here; the cache passes its own in.
pub mod Steps
pub mod Versions
pub mod Rounds
pub mod Faults
use mozilla_telemetry.Prelude.{
  Bool, true, false, Option, none, some, Bytes, codes, c_str, if◌then◌else◌,
}
use mozilla_telemetry.Prelude.Int.{ℤ, pos, negsuc, is_int32, eqb_ℤ}
use mozilla_telemetry.Outcome.{Outcome, ok, fault, failed_assertion, ◌>>=◌}
use mozilla_telemetry.Json.{
  Value, int, string, object, Members, names, set_value, Rapidjson, lookup,
}
use mozilla_telemetry.Specification.{HistogramSpecification}
use mozilla_telemetry.Converter.{rewrite_histogram}

-- What `FindHistogram` does to the cache, and the specification it returns.
abbrev pub FindHistogram : Type 0 → Type 0
FindHistogram C = C → Bytes → Outcome (C × Option HistogramSpecification)

-- What a call leaves: the cache, the document and the result.
pub record Converted (C D : Type 0) : Type 0 where
  pub cache : C
  pub doc : Value D
  pub result : Bool

module _ {D : Type 0} {A : Type 0} where
  -- `if (!v.IsObject()) { return a; }`, and then the rest, and so for the other types.
  abbrev pub unless_object : Value D → A → (Members D → A) → A
  unless_object (object ms) a rest = rest ms
  unless_object _ a rest = a

  abbrev pub unless_string : Value D → A → (Bytes → A) → A
  unless_string (string s) a rest = rest s
  unless_string _ a rest = a

  abbrev pub unless_int : Value D → A → (ℤ → A) → A
  unless_int (int z) a rest = if is_int32 z then rest z else a
  unless_int _ a rest = a

module _ (J : Rapidjson) where
  open J use {Double, find}

  -- An assignment through the reference `v[k]`.
  abbrev pub assign : Members Double → Bytes → Value Double → Members Double
  assign ms k w = elim (find k (names ms)) [ none ↦ ms | some i ↦ set_value ms i w ]

  abbrev pub new_version : Bool → ℤ
  new_version true = pos 2
  new_version false = negsuc 0

  -- The document after `RewriteHistogram` and `ver.SetInt`
  abbrev pub update_document : Members Double → Members Double → Bool → Members Double
  update_document top ms result =
      assign (assign top (codes "histograms") (object ms)) (codes "ver") (int (new_version result))

  module _ {C : Type 0} (find_histogram : FindHistogram C) where
    -- `case 1` of the switch
    unfoldable pub convert_version_1 :
        C → Members Double → Bytes → Members Double → Outcome (Converted C Double)
    convert_version_1 cache top revision ms = do
      found ← find_histogram cache (c_str revision)
      elim found.1 [
        | none ↦ ok (record { cache = found.0; doc = object top; result = false })
        | some spec ↦ (do
          r ← rewrite_histogram J spec ms
          ok (record { cache = found.0; doc = object (update_document top r.0 r.1); result = r.1 }))
      ]

    -- The switch on `ver`
    unfoldable pub switch_version :
        ℤ → C → Members Double → Bytes → Members Double → Outcome (Converted C Double)
    unfolding convert_version_1
    switch_version ver cache top revision ms =
        if eqb_ℤ ver (pos 1)
        then convert_version_1 cache top revision ms
        else if eqb_ℤ ver (pos 2)
        then ok (record { cache = cache; doc = object top; result = true })
        else ok (record { cache = cache; doc = object top; result = false })

    -- `ConvertHistogramData`
    unfoldable pub convert_histogram_data : C → Value Double → Outcome (Converted C Double)
    unfolding switch_version
    convert_histogram_data cache (object top) =
        let reject = ok (record { cache = cache; doc = object top; result = false }) in
        unless_object (lookup J top (codes "info")) reject λ info.
          unless_string (lookup J info (codes "revision")) reject λ revision.
            unless_object (lookup J top (codes "histograms")) reject λ ms.
              unless_int (lookup J top (codes "ver")) reject λ ver.
                if eqb_ℤ ver (pos 1) then switch_version ver cache top revision ms else reject
    convert_histogram_data cache _ = fault failed_assertion
