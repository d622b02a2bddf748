-- ===== src/Convert/Process.antt =====
-- convert.cpp: `ProcessFile` and the metrics of the program. The record reader, the cache, the schema
-- and the writer come in one state; the cache is used by `FindHistogram` alone, the writer by `Write`.
-- The text of a document (`rapidjson::Writer`) is the parameter `write_json`.
pub mod Lines
pub mod Balance
pub mod Log
pub mod Rounds
pub mod Keeping
pub mod Faults
pub mod Blame
use mozilla_telemetry.Prelude.{
  ℕ, zero, suc, ◌+◌, Bool, true, false, ◌||◌, Option, none, some, List, [], ◌∷◌, ◌++◌, length,
  Bytes, codes, ◌==◌, if◌then◌else◌,
}
use mozilla_telemetry.Prelude.Int.{ℤ, pos, negsuc}
use mozilla_telemetry.Outcome.{Outcome, ok, throw, fault, out_of_fuel}
use mozilla_telemetry.Exec.{Exec}
use mozilla_telemetry.Metric.{
  Metric, Number, whole, seconds, throughput, Counter, new_metric, count, exact, bump, reset,
  Message, clear_fields, construct_field,
}
use mozilla_telemetry.Json.{Rapidjson, Value}
use mozilla_telemetry.Stream.{Stream, at}
use mozilla_telemetry.Record.{TelemetryRecord}
use mozilla_telemetry.Record.Inflate.{Zlib}
use mozilla_telemetry.Record.Read.{get_path, get_document, read_record}
use mozilla_telemetry.Converter.Document.{FindHistogram, Converted, convert_histogram_data}
use mozilla_telemetry.Schema.{TelemetrySchema, Boost}
use mozilla_telemetry.Schema.DimensionPath.{get_dimension_path}
use mozilla_telemetry.Writer.{Sink}

-- `Metrics` of the program
pub record Metrics : Type 0 where
  pub records_processed : Counter
  pub records_failed : Counter
  pub data_in : Counter
  pub data_out : Counter
  pub processing_time : Metric Number
  pub processing_throughput : Metric Number

abbrev new_measure : Bytes → Bytes → Metric Number
new_measure name representation = exact (new_metric name representation)

abbrev pub new_metrics : Metrics
new_metrics = record {
  records_processed = new_metric (codes "Records Processed") count;
  records_failed = new_metric (codes "Records Discarded") count;
  data_in = new_metric (codes "Data In") (codes "B");
  data_out = new_metric (codes "Data Out") (codes "B");
  processing_time = new_measure (codes "Processing Time") (codes "s");
  processing_throughput = new_measure (codes "Throughput") (codes "MiB/s");
}

abbrev clear : Metric Number → Metric Number
clear m = record m { value = whole 0 }

-- `GetMetrics` of the program's metrics
unfoldable pub get_metrics : Metrics → Message → Metrics × Message
unfolding construct_field
get_metrics g m =
    let m₁ = construct_field (clear_fields m) (exact g.records_processed) in
    let m₂ = construct_field m₁ (exact g.records_failed) in
    let m₃ = construct_field m₂ (exact g.data_in) in
    let m₄ = construct_field m₃ (exact g.data_out) in
    let m₅ = construct_field m₄ g.processing_time in
    let m₆ = construct_field m₅ g.processing_throughput in
    (
      record {
        records_processed = reset g.records_processed;
        records_failed = reset g.records_failed;
        data_in = reset g.data_in;
        data_out = reset g.data_out;
        processing_time = clear g.processing_time;
        processing_throughput = clear g.processing_throughput;
      },
      m₆,
    )

-- The loop that extracts the uuid: the path up to a slash or a NUL
unfoldable pub take_uuid : Bytes → Bytes
take_uuid [] = []
take_uuid (c ∷ cs) = let rest = take_uuid cs in if c == 0 || c == b'/' then [] else c ∷ rest

abbrev pub is_positive : ℤ → Bool
is_positive (pos zero) = false
is_positive (pos (suc n)) = true
is_positive (negsuc n) = false

-- What a file is to `ProcessFile`: its bytes, if it opens, the answer of `file_size`, and the ticks
-- of the clock from its start to its end.
pub record File : Type 0 where
  pub content : Option Bytes
  pub size : Outcome ℕ
  pub elapsed : ℤ

-- `ifstream file(name)`
abbrev pub open_stream : Option Bytes → Stream
open_stream none = record { rest = []; eof = false; fail = true }
open_stream (some bs) = at bs

-- The objects that `ProcessFile` works on, over the numbers of a document, the cache and the writer
pub record Run (D C S : Type 0) : Type 0 where
  pub reader : TelemetryRecord D
  pub cache : C
  pub schema : TelemetrySchema D
  pub writer : S
  pub metrics : Metrics

module _ {D C S : Type 0} where
  abbrev pub add_out : ℕ → Run D C S → Run D C S
  add_out n r = record r {
    metrics = record r.metrics {
      data_out = record r.metrics.data_out { value = r.metrics.data_out.value + n };
    };
  }

  abbrev pub count_failed : Run D C S → Run D C S
  count_failed r = record r {
    metrics = record r.metrics { records_failed = bump r.metrics.records_failed };
  }

  abbrev pub count_processed : Run D C S → Run D C S
  count_processed r = record r {
    metrics = record r.metrics { records_processed = bump r.metrics.records_processed };
  }

  -- The metrics behind the loop; `file_size` may throw.
  unfoldable pub finish : File → Exec (Run D C S) (Unit {0})
  finish f r =
      let timed = record r {
        metrics = record r.metrics {
          processing_time = record r.metrics.processing_time { value = seconds f.elapsed };
        };
      } in
      elim f.size [
        | throw what ↦ (throw what, timed)
        | fault kind ↦ (fault kind, timed)
        | ok n ↦ (
          ok tt,
          record timed {
            metrics = record timed.metrics {
              data_in = record timed.metrics.data_in { value = n };
              processing_throughput =
                  if is_positive f.elapsed
                  then record timed.metrics.processing_throughput { value = throughput n f.elapsed }
                  else timed.metrics.processing_throughput;
            };
          },
        )
      ]

module _ (J : Rapidjson) (Z : Zlib) (memory junk : ℕ) (B : Boost J.Double) {C : Type 0}
    (find_histogram : FindHistogram C) (write_json : Value J.Double → Bytes)
    (K : Sink B.FsPath) where
  open J use {Double}

  abbrev pub Running : Type 0
  Running = Run Double C K.State

  -- The string buffer: the uuid of the path, a tab, the document and a newline
  unfoldable pub line : TelemetryRecord Double → Bytes
  unfolding take_uuid get_path get_document
  line r = take_uuid (get_path r) ++ (9 ∷ (write_json (get_document r) ++ (10 ∷ [])))

  -- The record was converted: it goes to the writer under its path.
  unfoldable pub deliver : Exec Running (Unit {0})
  unfolding line get_document
  deliver r =
      let text = line r.reader in
      let p = get_dimension_path J B (get_document r.reader) r.schema in
      elim p.0 [
        | throw what ↦ (throw what, record r { schema = p.1 })
        | fault kind ↦ (fault kind, record r { schema = p.1 })
        | ok path ↦ (
          ok tt,
          count_processed (
              add_out (length text)
                (record r { schema = p.1; writer = K.put r.writer path text (length text) })),
        )
      ]

  -- What `ConvertHistogramData` has changed
  abbrev pub with_converted : Converted C Double → Running → Running
  with_converted c r = record r { cache = c.cache; reader = record r.reader { document = c.doc } }

  -- The body of the loop
  unfoldable pub process_one : Exec Running (Unit {0})
  unfolding deliver get_document
  process_one r = elim (convert_histogram_data J find_histogram r.cache (get_document r.reader)) [
    | throw what ↦ (throw what, r)
    | fault kind ↦ (fault kind, r)
    | ok c ↦
        if c.result
        then deliver (with_converted c r)
        else (ok tt, count_processed (count_failed (with_converted c r)))
  ]

  -- `aRecord.Read(file)`, with two rounds more than bytes left
  abbrev pub read_next : Exec (Running × Stream) Bool
  read_next (r, s) =
      let got = read_record J Z memory junk (length s.rest + 2) (r.reader, s) in
      (got.0, (record r { reader = got.1.0 }, got.1.1))

  -- The loop, with the rounds that it may take
  unfoldable pub process_loop : ℕ → Exec (Running × Stream) (Unit {0})
  unfolding process_one
  process_loop zero rs = (fault out_of_fuel, rs)
  process_loop (suc fuel) rs =
      let got = read_next rs in
      elim got.0 [
        | throw what ↦ (throw what, got.1)
        | fault kind ↦ (fault kind, got.1)
        | ok false ↦ (ok tt, got.1)
        | ok true ↦
            (let one = process_one got.1.0 in
              elim one.0 [
                | throw what ↦ (throw what, (one.1, got.1.1))
                | fault kind ↦ (fault kind, (one.1, got.1.1))
                | ok _ ↦ process_loop fuel (one.1, got.1.1)
              ])
      ]

  -- The body of the `try` block; the loop has one round more than bytes in the file.
  unfoldable pub process_stream : File → Exec Running (Unit {0})
  unfolding process_loop finish
  process_stream f r =
      let s = open_stream f.content in
      let looped = process_loop (length s.rest + 1) (r, s) in
      elim looped.0 [
        | throw what ↦ (throw what, looped.1.0)
        | fault kind ↦ (fault kind, looped.1.0)
        | ok _ ↦ finish f looped.1.0
      ]

  abbrev pub caught : Outcome (Unit {0}) × Running → Outcome Bool × Running
  caught (ok _, r) = (ok true, r)
  caught (throw what, r) = (ok false, r)
  caught (fault kind, r) = (fault kind, r)

  -- `ProcessFile`
  unfoldable pub process_file : File → Exec Running Bool
  unfolding process_stream
  process_file f r = caught (process_stream f r)
