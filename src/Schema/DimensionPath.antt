-- ===== src/Schema/DimensionPath.antt =====
-- common/TelemetrySchema.cpp: `GetDimensionPath` and `GetMetrics`.
use mozilla_telemetry.Prelude.{
  ◌&&◌, ◌||◌, List, [], ◌∷◌, refl, Bytes, codes, c_str, bytes_eq, if◌then◌else◌,
}
use mozilla_telemetry.Outcome.{ok, throw, fault}
use mozilla_telemetry.Exec.{Exec}
use mozilla_telemetry.Metric.{
  Counter, bump, reset, Message, clear_fields, construct_field, exact, Reports,
}
use mozilla_telemetry.Json.{Value, int, double, string, object, Members, Rapidjson, lookup, at}
use mozilla_telemetry.Schema.{
  Metrics, k_value, k_set, k_range, TelemetryDimension, TelemetrySchema, Boost, set_contains,
  safe_path, other,
}

abbrev pub bump_string : Metrics → Metrics
bump_string m = record m { invalid_string_dimension = bump m.invalid_string_dimension }

abbrev pub bump_numeric : Metrics → Metrics
bump_numeric m = record m { invalid_numeric_dimension = bump m.invalid_numeric_dimension }

module _ (J : Rapidjson) (B : Boost J.Double) where
  open J use {Double, of_int}
  open B use {FsPath, empty, append, lexical_cast, le}

  -- The case of a string
  unfoldable pub string_step :
      TelemetryDimension Double → Bytes → FsPath × Metrics → FsPath × Metrics
  unfolding set_contains safe_path
  string_step d dim (p, m) = elim d.type [
    | k_value ↦
        if bytes_eq d.value (codes "*") || bytes_eq d.value dim
        then (append p (safe_path dim), m)
        else (append p other, m)
    | k_set ↦ if set_contains dim d.set then (append p (safe_path dim), m) else (append p other, m)
    | k_range ↦ (p, bump_string m)
  ]

  -- The case of a number
  unfoldable pub number_step :
      TelemetryDimension Double → Double → FsPath × Metrics → FsPath × Metrics
  number_step d dim (p, m) = elim d.type [
    | k_range ↦
        if le d.range.0 dim && le dim d.range.1
        then (append p (lexical_cast dim), m)
        else (append p other, m)
    | _ ↦ (p, bump_numeric m)
  ]

  -- The body of the loop
  unfoldable pub dimension_step :
      TelemetryDimension Double → Value Double → FsPath × Metrics → FsPath × Metrics
  unfolding string_step number_step
  dimension_step d (string s) pm = string_step d (c_str s) pm
  dimension_step d (int z) pm = number_step d (of_int z) pm
  dimension_step d (double x) pm = number_step d x pm
  dimension_step d _ pm = pm

  unfoldable pub dimension_loop :
      List (TelemetryDimension Double) → Members Double → FsPath × Metrics → FsPath × Metrics
  unfolding dimension_step
  dimension_loop [] info pm = pm
  dimension_loop (d ∷ ds) info pm =
      dimension_loop ds info (dimension_step d (lookup J info (c_str d.name)) pm)

  -- `GetDimensionPath`
  unfoldable pub get_dimension_path : Value Double → Exec (TelemetrySchema Double) FsPath
  unfolding dimension_loop
  get_dimension_path doc schema = elim (at J doc (codes "info")) [
    | ok (object info) ↦
        (let pm = dimension_loop schema.dimensions info (empty, schema.metrics) in
          (ok pm.0, record schema { metrics = pm.1 }))
    | ok _ ↦ (throw (codes "info element must be an object"), schema)
    | throw what ↦ (throw what, schema)
    | fault kind ↦ (fault kind, schema)
  ]

-- `GetMetrics`
unfoldable pub get_metrics :
    {D : Type 0} → TelemetrySchema D → Message → TelemetrySchema D × Message
unfolding construct_field
get_metrics schema m =
    let m' = construct_field (clear_fields m) (exact schema.metrics.invalid_string_dimension) in
    let m'' = construct_field m' (exact schema.metrics.invalid_numeric_dimension) in
    (
      record schema {
        metrics = record schema.metrics {
          invalid_string_dimension = reset schema.metrics.invalid_string_dimension;
          invalid_numeric_dimension = reset schema.metrics.invalid_numeric_dimension;
        };
      },
      m'',
    )

abbrev pub counters : Metrics → List Counter
counters m = m.invalid_string_dimension ∷ m.invalid_numeric_dimension ∷ []

-- `GetMetrics` of a schema reports its two counters, whatever the message held, and clears them.
pub get_metrics-Reports :
    {D : Type 0} (schema : TelemetrySchema D) (m : Message)
    → Reports
        (counters schema.metrics)
        (counters (get_metrics schema m).0.metrics)
        (get_metrics schema m).1
unfolding get_metrics construct_field
get_metrics-Reports schema m = record { reported = refl; cleared = refl }
