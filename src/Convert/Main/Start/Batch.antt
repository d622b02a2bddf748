-- ===== src/Convert/Main/Start/Batch.antt =====
-- convert.cpp: the batch mode of `main`, against the records that its logs stand for.
use mozilla_telemetry.Prelude.{
  ℕ, ◌+◌, ◌^◌, ◌<◌, ◌≤◌, ◌≡◌, ◌≢◌, refl, ap, ◌∙◌, Option, some, List, [], ◌∷◌, map, arith, length,
  All, Bytes,
}
use mozilla_telemetry.Constants.{record_separator, max_telemetry_data}
use mozilla_telemetry.Outcome.{Outcome, ok}
use mozilla_telemetry.Json.{Rapidjson, Value}
use mozilla_telemetry.Record.Bounds.{new_record-IsSound}
use mozilla_telemetry.Record.Inflate.{Zlib}
use mozilla_telemetry.Converter.Document.{FindHistogram}
use mozilla_telemetry.Outcome.Rounds.{Ends}
use mozilla_telemetry.Schema.{Boost, TelemetrySchema, new_schema}
use mozilla_telemetry.Cache.{HistogramCache, new_cache}
use mozilla_telemetry.Writer.{collector}
use mozilla_telemetry.Convert.{ConvertConfig, read_config}
use mozilla_telemetry.Convert.Main.Start.{
  System, Exit, success, set_up, new_objects, run_modes, main_named, main,
}
use mozilla_telemetry.Record.{new_record}
use mozilla_telemetry.Wire.{WireFormat}
use mozilla_telemetry.Wire.Framing.{Encoder}
use mozilla_telemetry.Convert.Main.{run_batch}
use mozilla_telemetry.Convert.Process.{File, Run, new_metrics}
use mozilla_telemetry.Convert.Process.Log.{Handled, handle_all}
use mozilla_telemetry.Convert.Main.Logs.{Log, all_entries, file_of, IsLog, run_batch-IsDone}

module _ (J : Rapidjson) (Z : Zlib) (memory junk : ℕ) (B : Boost J.Double) {N : Type 0}
    (find_histogram : FindHistogram (HistogramCache × N)) (write_json : Value J.Double → Bytes)
    (small : memory + 1 < 2 ^ 32) (roomy : max_telemetry_data ≤ memory)
    (junk_other : junk ≢ record_separator)
    (finds : (cache : HistogramCache × N) (key : Bytes) → Ends (find_histogram cache key))
    (F : WireFormat) (E : Encoder) {W : Type 0} (system : System W) where
  open J use {Double}
  open B use {FsPath}
  open system use {host, disk}

  abbrev Collected : Type 0
  Collected = Run Double (HistogramCache × N) (List (FsPath × Bytes))

  abbrev The : Type 0
  The = Outcome Exit × (Option Collected × W)

  -- The objects that `main` starts with
  abbrev pub fresh_objects : N → ConvertConfig → TelemetrySchema Double → Collected
  fresh_objects net c schema = record {
    reader = new_record junk;
    cache = (new_cache c.histogram_server, net);
    schema = schema;
    writer = [];
    metrics = new_metrics;
  }

  abbrev whole : ℕ → N → ConvertConfig → List Bytes → W → The
  whole = main J Z memory junk B find_histogram write_json (collector FsPath) (λ c. []) F E system

  abbrev modes : ℕ → Bytes → List Bytes → ConvertConfig → Collected → W → The
  modes =
      run_modes J Z memory junk B find_histogram write_json (collector FsPath) (λ c. []) F E system

  objects_made :
      (net : N) (c : ConvertConfig) (schema : TelemetrySchema Double) (w : W)
      → new_schema J c.telemetry_schema (disk.open_file w c.telemetry_schema) ≡ ok schema
      → new_objects J Z memory junk B find_histogram write_json
          (collector FsPath)
          (λ c. [])
          F
          E
          system
          net
          c
          w
        ≡ ok (fresh_objects net c schema)
  unfolding new_objects
  objects_made net c schema w loaded = rw (loaded, new_objects) refl

  set_up_made :
      (net : N) (blank c : ConvertConfig) (file : Bytes) (w w' : W)
      (schema : TelemetrySchema Double)
      → read_config J disk file blank w ≡ (ok c, w')
      → new_schema J c.telemetry_schema (disk.open_file w' c.telemetry_schema) ≡ ok schema
      → set_up J Z memory junk B find_histogram write_json
          (collector FsPath)
          (λ c. [])
          F
          E
          system
          net
          file
          blank
          w
        ≡ (ok (c, fresh_objects net c schema), w')
  unfolding set_up
  set_up_made net blank c file w w' schema configured loaded =
      rw (configured, objects_made net c schema w' loaded, set_up) refl

  modes_batch :
      (rounds : ℕ) (hostname name : Bytes) (names : List Bytes) (c : ConvertConfig)
      (r r' : Collected) (w : W)
      → run_batch J Z memory junk B find_histogram write_json
          (collector FsPath)
          F
          E
          host
          (map (host.open_file w) (name ∷ names))
          r
        ≡ (ok tt, r')
      → modes rounds hostname (name ∷ names) c r w ≡ (ok success, (some r', w))
  unfolding run_modes
  modes_batch rounds hostname name names c r r' w ran =
      rw (ap (λ (b : Outcome (Unit {0}) × Collected). b.0) ran, run_modes)
        (ap (λ (b : Outcome (Unit {0}) × Collected). (ok success, (some b.1, w))) ran)

  main_started :
      (rounds : ℕ) (net : N) (blank c : ConvertConfig) (file hostname : Bytes) (names : List Bytes)
      (w w' : W) (r : Collected)
      → system.host_name ≡ some hostname
      → set_up J Z memory junk B find_histogram write_json
          (collector FsPath)
          (λ c. [])
          F
          E
          system
          net
          file
          blank
          w
        ≡ (ok (c, r), w')
      → whole rounds net blank (file ∷ names) w ≡ modes rounds hostname names c r w'
  unfolding main main_named
  main_started rounds net blank c file hostname names w w' r named e =
      ap
        (λ (n : Option Bytes).
          main_named J Z memory junk B find_histogram write_json (collector FsPath) (λ c. []) F E
            system n rounds net blank file names w)
        named
      ∙ rw (ap (λ (s : Outcome (ConvertConfig × Collected) × W). s.0) e, main_named)
          (ap (λ (s : Outcome (ConvertConfig × Collected) × W). modes rounds hostname names c r s.1)
            e)

  -- `main` with the name of a configuration that can be read, of a schema that can be loaded, and the
  -- names of one log or more, of whole records that are not compressed and hold documents, exits with
  -- success, where the reference succeeds on all the records of the logs in order, from the new cache
  -- and the schema: the writer was given what the reference gives, and every record is counted as
  -- processed. `FindHistogram` ends, the host has a name, the largest array holds a longest record and is
  -- within 32 bits, and the unwritten `ch` is no separator.
  pub main-batch :
      (rounds : ℕ) (net : N) (blank c : ConvertConfig) (file name hostname : Bytes)
      (names : List Bytes) (ls : List (Log Double)) (w w' : W) (schema : TelemetrySchema Double)
      (h : Handled J B find_histogram write_json)
      → system.host_name ≡ some hostname
      → read_config J disk file blank w ≡ (ok c, w')
      → new_schema J c.telemetry_schema (disk.open_file w' c.telemetry_schema) ≡ ok schema
      → map (host.open_file w') (name ∷ names) ≡ map (file_of J) ls
      → All (IsLog J) ls
      → handle_all J B find_histogram write_json
          (new_cache c.histogram_server, net)
          schema
          (all_entries ls)
        ≡ ok h
      → (r : Collected) × (whole rounds net blank (file ∷ name ∷ names) w
          ≡ (ok success, (some r, w')))
        × (r.writer ≡ h.2)
        × (r.metrics.records_processed.value ≡ length (all_entries ls))
  main-batch rounds net blank c file name hostname names ls w w' schema h named configured loaded
        opened fine handled =
      let start = fresh_objects net c schema in
      let done =
        run_batch-IsDone J Z memory junk B find_histogram write_json small junk_other finds F E host
          ls start h fine (new_record-IsSound memory junk roomy) handled in
      let ran =
        ap
          (λ (files : List File).
            run_batch J Z memory junk B find_histogram write_json (collector FsPath) F E host files
              start)
          opened
        ∙ done.run in
      (
        done.after,
        main_started rounds net blank c file hostname (name ∷ names) w w' start named
              (set_up_made net blank c file w w' schema configured loaded)
            ∙ modes_batch rounds hostname name names c start done.after w' ran,
        done.writer,
        omega (arith, done.processed),
      )
