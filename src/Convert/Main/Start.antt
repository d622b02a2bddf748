-- ===== src/Convert/Main/Start.antt =====
-- convert.cpp: `main` from its arguments to its exit code. The files and directories, the host's name,
-- the process and inotify are the parameter `System`.
pub mod Batch
pub mod SetUp
pub mod Blame
use mozilla_telemetry.Prelude.{
  ℕ, Bool, true, false, Option, none, some, List, [], ◌∷◌, map, Bytes, codes, if◌then◌else◌,
}
use mozilla_telemetry.Prelude.Int.{ℤ}
use mozilla_telemetry.Outcome.{Outcome, ok, throw, fault}
use mozilla_telemetry.Exec.{Exec, pure, ◌>>=◌}
use mozilla_telemetry.Metric.{new_message}
use mozilla_telemetry.Json.{Rapidjson, Value}
use mozilla_telemetry.Record.{new_record}
use mozilla_telemetry.Record.Inflate.{Zlib}
use mozilla_telemetry.Converter.Document.{FindHistogram}
use mozilla_telemetry.Schema.{Boost, new_schema}
use mozilla_telemetry.Cache.{HistogramCache, new_cache}
use mozilla_telemetry.Writer.{Sink, RecordWriter, new_writer}
use mozilla_telemetry.Wire.{WireFormat}
use mozilla_telemetry.Wire.Framing.{Encoder}
use mozilla_telemetry.Convert.{ConvertConfig, Directories, read_config}
use mozilla_telemetry.Convert.Process.{File, Run, new_metrics}
use mozilla_telemetry.Convert.Main.{Host, Running, Main, main_loop, run_batch}

-- The system that `main` starts in; `host_name` is none where `gethostname` fails, `inotify_init`
-- says whether it worked, and `join` is `operator/` of two paths.
pub record System (W : Type 0) : Type 0 where
  pub host : Host W
  pub disk : Directories W
  pub host_name : Option Bytes
  pub process : ℤ
  pub inotify_init : W → Bool × W
  pub join : Bytes → Bytes → Bytes

-- `EXIT_SUCCESS`, `EXIT_FAILURE`, or neither after the rounds of the loop that were asked for
pub data Exit : Type 0 where
  success failure running : Exit

-- The writer that `main` makes, over the path of a text
abbrev pub writer_of : {P : Type 0} → (Bytes → P) → ConvertConfig → RecordWriter P
writer_of path c =
    new_writer (path c.storage_path) (path c.upload_path) c.max_uncompressed c.memory_constraint
      c.compression_preset

module _ (J : Rapidjson) (Z : Zlib) (memory junk : ℕ) (B : Boost J.Double) {N : Type 0}
    (find_histogram : FindHistogram (HistogramCache × N)) (write_json : Value J.Double → Bytes)
    (K : Sink B.FsPath) (new_sink : ConvertConfig → K.State) (F : WireFormat) (E : Encoder)
    {W : Type 0} (system : System W) where
  open J use {Double}
  open system use {host, disk}

  abbrev pub Objects : Type 0
  Objects = Run Double (HistogramCache × N) K.State

  -- The objects of `main`, with the network
  unfoldable pub new_objects : N → ConvertConfig → W → Outcome Objects
  unfolding new_schema
  new_objects net c w =
      elim (new_schema J c.telemetry_schema (disk.open_file w c.telemetry_schema)) [
        | throw what ↦ throw what
        | fault kind ↦ fault kind
        | ok schema ↦ ok (record {
          reader = new_record junk;
          cache = (new_cache c.histogram_server, net);
          schema = schema;
          writer = new_sink c;
          metrics = new_metrics;
        })
      ]

  -- The configuration, and the objects that it describes
  unfoldable pub set_up : N → Bytes → ConvertConfig → Exec W (ConvertConfig × Objects)
  unfolding new_objects
  set_up net file blank = do
    c ← read_config J disk file blank
    r ← λ w. (new_objects net c w, w)
    pure (c, r)

  -- The state before the loop
  abbrev pub new_daemon :
      Bytes → Objects → W → Main J Z memory junk B find_histogram write_json K F E host
  new_daemon hostname r w = record {
    run = r;
    message = record new_message {
      type = some (codes "telemetry");
      pid = some system.process;
      hostname = some hostname;
    };
    log = record { is_open = false; is_good = true; written = [] };
    world = w;
  }

  -- How `main` ends, and what is left
  abbrev pub Ending : Type 0
  Ending = Outcome Exit × (Option Objects × W)

  -- The mode without files: inotify and the loop
  unfoldable pub serve : ℕ → Bytes → ConvertConfig → Objects → W → Ending
  serve rounds hostname c r w =
      let init = system.inotify_init w in
      if init.0
      then (let o =
            main_loop J Z memory junk B find_histogram write_json K F E host c.input_directory
              (system.join c.log_path (codes "convert.log")) rounds
              (new_daemon hostname r init.1) in
          (
            elim o.0 [
              | ok true ↦ ok running
              | ok false ↦ ok success
              | throw what ↦ ok failure
              | fault kind ↦ fault kind
            ],
            (some o.1.run, o.1.world),
          ))
      else (ok failure, (some r, init.1))

  -- The files of the command line, and the other mode where there are none
  unfoldable pub run_modes : ℕ → Bytes → List Bytes → ConvertConfig → Objects → W → Ending
  unfolding serve
  run_modes rounds hostname names c r w =
      let batch =
        run_batch J Z memory junk B find_histogram write_json K F E host
          (map (host.open_file w) names) r in
      elim batch.0 [
        | throw what ↦ (ok failure, (some batch.1, w))
        | fault kind ↦ (fault kind, (some batch.1, w))
        | ok _ ↦ elim names [
          | [] ↦ serve rounds hostname c batch.1 w
          | name ∷ more ↦ (ok success, (some batch.1, w))
        ]
      ]

  -- What follows `gethostname`
  unfoldable pub main_named : Option Bytes → ℕ → N → ConvertConfig → Bytes → List Bytes → W → Ending
  unfolding set_up run_modes
  main_named none rounds net blank file names w = (ok failure, (none, w))
  main_named (some hostname) rounds net blank file names w =
      let started = set_up net file blank w in
      elim started.0 [
        | throw what ↦ (ok failure, (none, started.1))
        | fault kind ↦ (fault kind, (none, started.1))
        | ok cr ↦ run_modes rounds hostname names cr.0 cr.1 started.1
      ]

  -- `main`, of its arguments behind the program's name
  unfoldable pub main : ℕ → N → ConvertConfig → List Bytes → W → Ending
  unfolding main_named
  main rounds net blank [] w = (ok failure, (none, w))
  main rounds net blank (file ∷ names) w = main_named system.host_name rounds net blank file names w
