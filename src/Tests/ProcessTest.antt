-- ===== src/Tests/ProcessTest.antt =====
-- Runs of `ProcessFile` of convert.cpp on a log of one record.
use mozilla_telemetry.Prelude.{
  ◌+◌, ◌^◌, ◌<◌, ◌≡◌, ◌≢◌, refl, true, none, some, List, [], ◌∷◌, ◌++◌, arith, Bytes, codes, c_str,
}
use mozilla_telemetry.Prelude.Int.{ℤ, pos}
use mozilla_telemetry.Outcome.{Outcome, ok, throw}
use mozilla_telemetry.Json.{Value, int, string, object, Members, end, member, document, Rapidjson}
use mozilla_telemetry.Record.{new_record}
use mozilla_telemetry.Record.Bounds.{IsSound}
use mozilla_telemetry.Schema.{set_contains, safe_path, read_chars, new_schema}
use mozilla_telemetry.Schema.DimensionPath.{get_dimension_path}
use mozilla_telemetry.Specification.{get_definition, get_bucket_index, get_bucket_count}
use mozilla_telemetry.Converter.{
  strtol, resolve, rewrite_value, rewrite_entry, rewrite_object, rewrite_histogram,
}
use mozilla_telemetry.Converter.Document.{convert_histogram_data}
use mozilla_telemetry.Writer.{collector}
use mozilla_telemetry.Outcome.Rounds.{Ends, ok-Ends, throw-Ends}
use mozilla_telemetry.Convert.Process.{Run, File, new_metrics, take_uuid, process_file}
use mozilla_telemetry.Convert.Process.Balance.{Balances, process_file-Balances}
use mozilla_telemetry.Convert.Process.Log.{Entry, IsEntry, log_of, Handled, handle_all}
use mozilla_telemetry.Convert.Process.Log.Refines.{process_file_log}
use mozilla_telemetry.Convert.Process.Rounds.{process_file-Ends}
use mozilla_telemetry.Tests.Instances.{sample_json, stored_zlib}
use mozilla_telemetry.Tests.ConverterTest.{knows, revision, histograms}
use mozilla_telemetry.Tests.RecordTest.{
  memory, path, content, fits, noise, clean, fresh, fresh-IsSound,
}
use mozilla_telemetry.Tests.SchemaTest.{parts_boost, schema}

abbrev info : Members ℤ
info =
    member (codes "revision") (string revision)
      (member (codes "reason") (string (codes "idle-daily")) end)

abbrev pub payload : Members ℤ
payload =
    member (codes "ver") (int (pos 1))
      (member (codes "histograms") (object histograms) (member (codes "info") (object info) end))

-- A parser that reads every text as the same payload.
abbrev payload_json : Rapidjson
payload_json = record sample_json { parse = λ s. document (object payload) }

abbrev pub write_json : Value ℤ → Bytes
write_json v = codes "{}"

abbrev entry : Entry ℤ
entry = record {
  garbage = noise;
  path = path;
  content = content;
  timestamp = 1;
  doc = object payload;
}

entry-IsEntry : IsEntry payload_json entry
entry-IsEntry = record { clean = clean; fits = fits; plain = refl; parsed = refl }

abbrev start : Run ℤ Unit (List (List Bytes × Bytes))
start = record { reader = fresh; cache = tt; schema = schema; writer = []; metrics = new_metrics }

abbrev handled : Outcome (Handled payload_json parts_boost knows write_json)
handled = handle_all payload_json parts_boost knows write_json tt schema (entry ∷ [])

program : Unit {0}
unfolding convert_histogram_data rewrite_histogram rewrite_entry rewrite_object resolve
    rewrite_value get_bucket_index get_bucket_count get_definition strtol c_str get_dimension_path
    set_contains safe_path read_chars take_uuid new_schema
program = tt

abbrev pub given : List Bytes × Bytes
given = (codes "idle_daily" ∷ [], path ++ (9 ∷ (codes "{}" ++ (10 ∷ []))))

handles : handled ≡ ok (tt, schema, given ∷ [])
unfolding program
handles = refl

pub small_memory : memory + 1 < 2 ^ 32
small_memory = omega arith

process_file_log_example :
    (r' : Run ℤ Unit (List (List Bytes × Bytes))) × (process_file payload_json stored_zlib memory 0
        parts_boost knows write_json
        (collector (List Bytes))
        (record {
          content = some (log_of payload_json (entry ∷ []) noise);
          size = ok 40;
          elapsed = pos 3;
        })
        start
      ≡ (ok true, r'))
    × (r'.writer ≡ given ∷ [])
    × (r'.cache ≡ tt)
    × (r'.schema ≡ schema)
    × (r'.metrics.records_processed.value ≡ 1)
    × (r'.reader.metrics.corrupt_data.value ≡ 7)
unfolding fresh new_record
process_file_log_example =
    process_file_log payload_json stored_zlib memory 0 parts_boost knows write_json small_memory
      (omega arith) (entry ∷ []) noise 40 (pos 3) start (tt, schema, given ∷ []) (entry-IsEntry, tt)
      clean fresh-IsSound handles

-- A file that cannot be opened.
abbrev no_file : File
no_file = record { content = none; size = throw (codes "No such file"); elapsed = pos 0 }

process_file-Balances_example :
    Balances payload_json stored_zlib memory 0 parts_boost knows write_json start
      (process_file payload_json stored_zlib memory 0 parts_boost knows write_json
        (collector (List Bytes))
        no_file
        start).1
process_file-Balances_example =
    process_file-Balances payload_json stored_zlib memory 0 parts_boost knows write_json no_file
      start

process_file-Ends_example :
    Ends
      (process_file payload_json stored_zlib memory 0 parts_boost knows write_json
        (collector (List Bytes))
        no_file
        start).0
    × ((what : Bytes)
        → (process_file payload_json stored_zlib memory 0 parts_boost knows write_json
            (collector (List Bytes))
            no_file
            start).0
          ≢ throw what)
    × IsSound memory
        (process_file payload_json stored_zlib memory 0 parts_boost knows write_json
          (collector (List Bytes))
          no_file
          start).1.reader
process_file-Ends_example =
    process_file-Ends payload_json stored_zlib memory 0 parts_boost knows write_json
      (collector (List Bytes)) small_memory (λ cache key. ok-Ends) no_file start throw-Ends
      fresh-IsSound
