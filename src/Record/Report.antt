-- ===== src/Record/Report.antt =====
-- common/TelemetryRecord.cpp: `GetMetrics`.
use mozilla_telemetry.Prelude.{refl, List, [], ◌∷◌}
use mozilla_telemetry.Metric.{
  Counter, reset, Message, clear_fields, construct_field, exact, Reports,
}
use mozilla_telemetry.Record.{Metrics, TelemetryRecord}

abbrev pub counters : Metrics → List Counter
counters m =
    m.invalid_path_length ∷ m.invalid_data_length ∷ m.inflate_failures ∷ m.parse_failures
    ∷ m.corrupt_data ∷ []

module _ {D : Type 0} where
  -- `GetMetrics`
  unfoldable pub get_metrics : TelemetryRecord D → Message → TelemetryRecord D × Message
  unfolding construct_field
  get_metrics r m =
      let m₁ = construct_field (clear_fields m) (exact r.metrics.invalid_path_length) in
      let m₂ = construct_field m₁ (exact r.metrics.invalid_data_length) in
      let m₃ = construct_field m₂ (exact r.metrics.inflate_failures) in
      let m₄ = construct_field m₃ (exact r.metrics.parse_failures) in
      let m₅ = construct_field m₄ (exact r.metrics.corrupt_data) in
      (
        record r {
          metrics = record {
            invalid_path_length = reset r.metrics.invalid_path_length;
            invalid_data_length = reset r.metrics.invalid_data_length;
            inflate_failures = reset r.metrics.inflate_failures;
            parse_failures = reset r.metrics.parse_failures;
            corrupt_data = reset r.metrics.corrupt_data;
          };
        },
        m₅,
      )

  -- `GetMetrics` of a reader reports its five counters, whatever the message held, and clears them.
  pub get_metrics-Reports_record :
      (r : TelemetryRecord D) (m : Message)
      → Reports (counters r.metrics) (counters (get_metrics r m).0.metrics) (get_metrics r m).1
  unfolding get_metrics construct_field
  get_metrics-Reports_record r m = record { reported = refl; cleared = refl }
