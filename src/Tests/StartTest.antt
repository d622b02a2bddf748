-- ===== src/Tests/StartTest.antt =====
-- A run of `main` of convert.cpp in its batch mode.
use mozilla_telemetry.Prelude.{
  ◌≡◌, ◌≢◌, refl, true, some, List, [], ◌∷◌, arith, Bytes, codes, bytes_eq, c_str, if◌then◌else◌,
}
use mozilla_telemetry.Prelude.Int.{ℤ, pos}
use mozilla_telemetry.Outcome.{ok, out_of_fuel}
use mozilla_telemetry.Json.{
  int, array, object, item, nil, Members, end, member, Parsed, document, Rapidjson,
}
use mozilla_telemetry.Specification.{
  new_specification, load_buckets, insert_bucket, find_bucket, insert_definition, find_definition,
  get_definition, get_bucket_index, get_bucket_count,
}
use mozilla_telemetry.Converter.{
  strtol, resolve, rewrite_value, rewrite_entry, rewrite_object, rewrite_histogram,
}
use mozilla_telemetry.Converter.Document.{FindHistogram, convert_histogram_data}
use mozilla_telemetry.Outcome.Rounds.{Ends}
use mozilla_telemetry.Schema.{
  TelemetrySchema, new_metrics, set_contains, set_insert, load_set, new_dimension, safe_path,
  read_chars, parse_schema, new_schema,
}
use mozilla_telemetry.Schema.DimensionPath.{get_dimension_path}
use mozilla_telemetry.Specification
use mozilla_telemetry.Cache.{HistogramCache, new_cache, find_entry, insert_entry}
use mozilla_telemetry.Cache.Response.{read_status, read_token, read_unsigned}
use mozilla_telemetry.Cache.Load.{find_histogram, count_hit, tmp_name}
use mozilla_telemetry.Cache.Client.{cached}
use mozilla_telemetry.Cache.Faults.{cached-Any}
use mozilla_telemetry.Outcome.Ensures.{Ensures-Ends}
use mozilla_telemetry.Tests.CacheTest.{server, fine}
use mozilla_telemetry.Tests.ConverterTest.{revision}
use mozilla_telemetry.Writer.{collector}
use mozilla_telemetry.Convert.{Directories, read_config}
use mozilla_telemetry.Convert.Process.{Run, take_uuid}
use mozilla_telemetry.Convert.Process.Log.{Entry, handle_all}
use mozilla_telemetry.Convert.Main.Start.{System, success, main}
use mozilla_telemetry.Convert.Main.Logs.{Log, IsLog, file_of}
use mozilla_telemetry.Convert.Main.Start.Batch.{main-batch}
use mozilla_telemetry.Tests.Instances.{sample_json, stored_zlib}
use mozilla_telemetry.Tests.SpecificationTest.{cast_digit, specification_document}
use mozilla_telemetry.Tests.RecordTest.{memory, path, content, fits, noise, clean}
use mozilla_telemetry.Tests.SchemaTest.{parts_boost, reason, reason_dimension}
use mozilla_telemetry.Tests.ConvertTest.{disk, texts, numbers, blank, filled, after}
use mozilla_telemetry.Tests.WireTest.{small, messages_of}
use mozilla_telemetry.Tests.ProcessTest.{payload, write_json, given, small_memory}
use mozilla_telemetry.Tests.MainTest.{files}

abbrev schema_document : Members ℤ
schema_document =
    member (codes "version") (int (pos 1))
      (member (codes "dimensions") (array (item (object reason) nil)) end)

-- A parser that knows two texts, and reads every other one as a payload.
abbrev parse_text : Bytes → Parsed ℤ
parse_text s =
    if bytes_eq s (codes "config")
    then document (object (texts numbers))
    else if bytes_eq s (codes "schema")
    then document (object schema_document)
    else if bytes_eq s (codes "{}")
    then document specification_document
    else document (object payload)

abbrev three_json : Rapidjson
three_json = record sample_json { parse = parse_text }

abbrev three_files : Directories (List Bytes)
three_files = record disk {
  open_file = λ w name.
      if bytes_eq name (codes "schema.json") then some (codes "schema") else some (codes "config");
}

abbrev entry : Entry ℤ
entry = record {
  garbage = noise;
  path = path;
  content = content;
  timestamp = 1;
  doc = object payload;
}

abbrev log : Log ℤ
log = record { entries = entry ∷ []; tail = noise; size = 40; elapsed = pos 3 }

abbrev pub one_log : System (List Bytes)
one_log = record {
  host = record files { open_file = λ w p. file_of three_json log };
  disk = three_files;
  host_name = some (codes "host");
  process = pos 4711;
  inotify_init = λ w. (true, w);
  join = λ p q. p;
}

-- The cache, with a server that has the specification of every revision
abbrev finds : FindHistogram (HistogramCache × Unit {0})
finds = cached three_json cast_digit (server fine)

finds-Ends : (hw : HistogramCache × Unit {0}) (key : Bytes) → Ends (finds hw key)
finds-Ends hw key = Ensures-Ends (finds hw key) (
    cached-Any (λ kind. kind ≢ out_of_fuel) three_json cast_digit (server fine) hw key
      (λ json doc given parsed bad e. cc e) (λ w host port request. tt))

-- The new cache, after the two records
abbrev opened_cache : HistogramCache
opened_cache = new_cache filled.histogram_server

abbrev asked : HistogramCache
asked =
    count_hit (find_histogram three_json cast_digit (server fine) revision (opened_cache, tt)).1.0

abbrev schema : TelemetrySchema ℤ
schema = record { version = pos 1; dimensions = reason_dimension ∷ []; metrics = new_metrics }

program : Unit {0}
unfolding find_histogram read_status read_token read_unsigned new_specification
    Specification.new_definition load_buckets insert_bucket find_bucket insert_definition
    find_definition find_entry insert_entry tmp_name new_cache read_config new_schema parse_schema
    new_dimension load_set set_insert read_chars c_str convert_histogram_data rewrite_histogram
    rewrite_entry rewrite_object resolve rewrite_value get_bucket_index get_bucket_count
    get_definition strtol get_dimension_path set_contains safe_path take_uuid
program = tt

configured :
    read_config three_json three_files (codes "convert.json") blank (codes "/in" ∷ [])
    ≡ (ok filled, after)
unfolding program
configured = refl

loaded : new_schema three_json (codes "schema.json") (some (codes "schema")) ≡ ok schema
unfolding program
loaded = refl

handled :
    handle_all three_json parts_boost finds write_json
      (new_cache filled.histogram_server, tt)
      schema
      (entry ∷ entry ∷ [])
    ≡ ok ((asked, tt), schema, given ∷ given ∷ [])
unfolding program
handled = refl

log-IsLog : IsLog three_json log
unfolding c_str
log-IsLog = record {
  entries = (record { clean = clean; fits = fits; plain = refl; parsed = refl }, tt);
  tail = clean;
}

main-batch_example :
    (r : Run ℤ (HistogramCache × Unit {0}) (List (List Bytes × Bytes))) × (main three_json
        stored_zlib memory 0 parts_boost finds write_json
        (collector (List Bytes))
        (λ c. [])
        small
        messages_of
        one_log
        0
        tt
        blank
        (codes "convert.json" ∷ codes "a" ∷ codes "b" ∷ [])
        (codes "/in" ∷ [])
      ≡ (ok success, (some r, after)))
    × (r.writer ≡ given ∷ given ∷ [])
    × (r.metrics.records_processed.value ≡ 2)
main-batch_example =
    main-batch three_json stored_zlib memory 0 parts_boost finds write_json small_memory
      (omega arith) (omega arith) finds-Ends small messages_of one_log 0 tt blank filled
      (codes "convert.json") (codes "a") (codes "host") (codes "b" ∷ []) (log ∷ log ∷ [])
      (codes "/in" ∷ []) after schema ((asked, tt), schema, given ∷ given ∷ []) refl configured
      loaded refl (log-IsLog, (log-IsLog, tt)) handled
