-- ===== src/Converter/Document/Steps.antt =====
-- What `ConvertHistogramData` does with each kind of document.
use mozilla_telemetry.Prelude.{
  ◌≡◌, ◌⊎◌, inl, inr, ◌&&◌, refl, Bool, Bool-cases, ap, false, arith, Bytes, codes,
}
use mozilla_telemetry.Prelude.Int.{pos, is_int32, eqb_ℤ, eqb_ℤ_iff}
use mozilla_telemetry.Outcome.{Outcome, ok}
use mozilla_telemetry.Json.{Value, int, string, object, Members, Rapidjson, lookup}
use mozilla_telemetry.Json.Assignment.{object_cases, string_cases}
use mozilla_telemetry.Converter.Document.{
  FindHistogram, Converted, convert_version_1, convert_histogram_data,
}

abbrev is_one : {D : Type 0} → Value D → Bool
is_one (int z) = is_int32 z && eqb_ℤ z (pos 1)
is_one _ = false

int_one_cases : {D : Type 0} (v : Value D) → (v ≡ int (pos 1)) ⊎ (is_one v ≡ false)
int_one_cases {D} (int z) = elim (Bool-cases (eqb_ℤ z (pos 1))) [
  | inl e ↦ inl (ap {B = Value D} int ((eqb_ℤ_iff z (pos 1)).0 e))
  | inr e ↦ inr (ground (arith, e))
]
int_one_cases v = inr refl

module _ (J : Rapidjson) where
  open J use {Double}

  -- A document of version 1 with a revision and histograms.
  pub record IsReady (top : Members Double) (revision : Bytes) (ms : Members Double) : Type 0 where
    pub info : Members Double
    pub info_read : lookup J top (codes "info") ≡ object info
    pub revision_read : lookup J info (codes "revision") ≡ string revision
    pub histograms_read : lookup J top (codes "histograms") ≡ object ms
    pub version_read : lookup J top (codes "ver") ≡ int (pos 1)

  module _ {C : Type 0} (find_histogram : FindHistogram C) (cache : C) (top : Members Double) where
    pub convert_ready :
        (revision : Bytes) (ms : Members Double)
        → IsReady top revision ms
        → convert_histogram_data J find_histogram cache (object top)
          ≡ convert_version_1 J find_histogram cache top revision ms
    unfolding convert_histogram_data
    convert_ready revision ms r =
        ground (arith, r.info_read, r.revision_read, r.histograms_read, r.version_read)

    -- What `ConvertHistogramData` returns before it looks at the cache.
    abbrev pub rejected : Outcome (Converted C Double)
    rejected = ok (record { cache = cache; doc = object top; result = false })

    version_cases :
        (revision : Bytes) (info ms : Members Double)
        → lookup J top (codes "info") ≡ object info
        → lookup J info (codes "revision") ≡ string revision
        → lookup J top (codes "histograms") ≡ object ms
        → IsReady top revision ms
          ⊎ (convert_histogram_data J find_histogram cache (object top) ≡ rejected)
    unfolding convert_histogram_data
    version_cases revision info ms i r h = elim (int_one_cases (lookup J top (codes "ver"))) [
      | inl v ↦ inl (record {
        info = info;
        info_read = i;
        revision_read = r;
        histograms_read = h;
        version_read = v;
      })
      | inr other ↦ inr (ground (arith, i, r, h, other))
    ]

    -- A document is ready, or the call returns false and changes neither it nor the cache.
    pub convert_cases :
        ((revision : Bytes) × (ms : Members Double) × IsReady top revision ms)
        ⊎ (convert_histogram_data J find_histogram cache (object top) ≡ rejected)
    unfolding convert_histogram_data
    convert_cases = elim (object_cases (lookup J top (codes "info"))) [
      | inr n ↦ inr (ground (arith, n))
      | inl (info, i) ↦ elim (string_cases (lookup J info (codes "revision"))) [
        | inr n ↦ inr (ground (arith, i, n))
        | inl (revision, r) ↦ elim (object_cases (lookup J top (codes "histograms"))) [
          | inr n ↦ inr (ground (arith, i, r, n))
          | inl (ms, h) ↦ elim (version_cases revision info ms i r h) [
            | inl ready ↦ inl (revision, ms, ready)
            | inr out ↦ inr out
          ]
        ]
      ]
    ]
