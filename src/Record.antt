-- ===== src/Record.antt =====
-- common/TelemetryRecord.h and .cpp: reading the records of a log. The buffers are their bytes,
-- and a write outside one is a fault. `junk` is what memory holds that was never written.
pub mod Header
pub mod Bounds
pub mod Frame
pub mod Inflate
pub mod Read
pub mod Report
use mozilla_telemetry.Prelude.{
  ℕ, zero, suc, ◌+◌, ◌-◌, ◌*◌, ◌%◌, ◌^◌, Bool, true, false, not, ◌&&◌, ◌||◌, Option, none, some,
  List, [], ◌∷◌, ◌++◌, length, take, drop, replicate, Bytes, codes, c_str, ltb, leb, ◌==◌,
  if◌then◌else◌,
}
use mozilla_telemetry.Constants.{
  max_telemetry_path, max_telemetry_data, record_separator, unit_separator,
}
use mozilla_telemetry.Outcome.{Outcome, ok, throw, fault, out_of_bounds, out_of_fuel}
use mozilla_telemetry.Metric.{Counter, new_metric, count, bump}
use mozilla_telemetry.Stream.{Stream, at, at_end, good, read_value}
use mozilla_telemetry.Json.{Value, null}

-- `TelemetryRecord::Metrics`
pub record Metrics : Type 0 where
  pub invalid_path_length : Counter
  pub invalid_data_length : Counter
  pub inflate_failures : Counter
  pub parse_failures : Counter
  pub corrupt_data : Counter

abbrev pub new_metrics : Metrics
new_metrics = record {
  invalid_path_length = new_metric (codes "Invalid Path Length") count;
  invalid_data_length = new_metric (codes "Invalid Data Length") count;
  inflate_failures = new_metric (codes "Inflate Failures") count;
  parse_failures = new_metric (codes "Parse Failures") count;
  corrupt_data = new_metric (codes "Corrupt Data") (codes "B");
}

-- `TelemetryRecord`, over the type of the numbers of a document.
pub record TelemetryRecord (D : Type 0) : Type 0 where
  pub document : Value D
  pub path_length : ℕ
  pub path_size : ℕ
  pub path : Bytes
  pub data_length : ℕ
  pub data_size : ℕ
  pub buffer : Bytes
  pub timestamp : ℕ
  pub inflate_length : ℕ
  pub inflate_size : ℕ
  pub inflated : Bytes
  pub metrics : Metrics

-- What a step on the stream leaves: the object, the stream and the result.
abbrev pub Step : Type 0 → Type 0
Step D = TelemetryRecord D × Stream × Bool

module _ {D : Type 0} where
  -- The constructor
  unfoldable pub new_record : ℕ → TelemetryRecord D
  new_record junk = record {
    document = null;
    path_length = 0;
    path_size = max_telemetry_path;
    path = replicate (max_telemetry_path + 1) junk;
    data_length = 0;
    data_size = max_telemetry_data;
    buffer = replicate (max_telemetry_data + 1) junk;
    timestamp = 0;
    inflate_length = 0;
    inflate_size = max_telemetry_data;
    inflated = replicate max_telemetry_data junk;
    metrics = new_metrics;
  }

  abbrev pub count_invalid_path : TelemetryRecord D → TelemetryRecord D
  count_invalid_path r = record r {
    metrics = record r.metrics { invalid_path_length = bump r.metrics.invalid_path_length };
  }

  abbrev pub count_invalid_data : TelemetryRecord D → TelemetryRecord D
  count_invalid_data r = record r {
    metrics = record r.metrics { invalid_data_length = bump r.metrics.invalid_data_length };
  }

  abbrev pub count_inflate_failure : TelemetryRecord D → TelemetryRecord D
  count_inflate_failure r = record r {
    metrics = record r.metrics { inflate_failures = bump r.metrics.inflate_failures };
  }

  abbrev pub count_parse_failure : TelemetryRecord D → TelemetryRecord D
  count_parse_failure r = record r {
    metrics = record r.metrics { parse_failures = bump r.metrics.parse_failures };
  }

  abbrev pub count_corrupt : TelemetryRecord D → TelemetryRecord D
  count_corrupt r = record r {
    metrics = record r.metrics { corrupt_data = bump r.metrics.corrupt_data };
  }

  -- `ReadHeader`, from its last field to its first
  abbrev read_timestamp : TelemetryRecord D → Stream → Step D
  read_timestamp r s =
      let v = read_value 8 r.timestamp s in (record r { timestamp = v.0 }, v.1, good v.1)

  abbrev read_data_length : TelemetryRecord D → Stream → Step D
  read_data_length r s =
      let v = read_value 4 r.data_length s in
      let r' = record r { data_length = v.0 } in
      if not (good v.1)
      then (r', v.1, false)
      else if ltb max_telemetry_data v.0
      then (count_invalid_data r', v.1, false)
      else read_timestamp r' v.1

  unfoldable pub read_header : TelemetryRecord D → Stream → Step D
  read_header r s =
      let v = read_value 2 r.path_length s in
      let r' = record r { path_length = v.0 } in
      if not (good v.1)
      then (r', v.1, false)
      else if ltb max_telemetry_path v.0
      then (count_invalid_path r', v.1, false)
      else read_data_length r' v.1

  -- The loop of `FindRecord` on a good stream with these bytes left. A header that is refused is
  -- read again from the byte behind its separator, so each round takes one byte. At the end `get`
  -- leaves `ch` as it was, never written.
  unfoldable pub find_loop : ℕ → TelemetryRecord D → Bytes → Step D
  find_loop junk r [] =
      if junk == record_separator then read_header r at_end else (count_corrupt r, at_end, false)
  find_loop junk r (c ∷ cs) =
      let h = read_header r (at cs) in
      let refused = find_loop junk h.0 cs in
      let skipped = find_loop junk (count_corrupt r) cs in
      if c == record_separator
      then (if h.2 then h else if h.1.fail then h else refused)
      else skipped

  -- `FindRecord`
  unfoldable pub find_record : ℕ → TelemetryRecord D → Stream → Step D
  unfolding find_loop
  find_record junk r s = if good s then find_loop junk r s.rest else (r, s, false)
