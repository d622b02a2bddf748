-- ===== src/Convert/Main/Faults.antt =====
-- convert.cpp: who is to blame for a fault of the loop of `main` and of its batch mode.
use mozilla_telemetry.Prelude.{ℕ, ◌+◌, ◌^◌, ◌<◌, Option, some, List, [], ◌∷◌, Bytes, All, arith}
use mozilla_telemetry.Prelude.Int.{ℤ}
use mozilla_telemetry.Outcome.{Outcome, Fault}
use mozilla_telemetry.Outcome.Ensures.{Ensures, Any, Never, Ensures-weaken}
use mozilla_telemetry.Exec.{Exec}
use mozilla_telemetry.Exec.Keeping.{Keeping, bind-Keeping}
use mozilla_telemetry.Json.{Rapidjson, Value}
use mozilla_telemetry.Record.Inflate.{Zlib}
use mozilla_telemetry.Record.Report
use mozilla_telemetry.Schema.{Boost}
use mozilla_telemetry.Cache.{HistogramCache, Network}
use mozilla_telemetry.Cache
use mozilla_telemetry.Cache.Client.{cached}
use mozilla_telemetry.Writer.{Sink}
use mozilla_telemetry.Wire.{WireFormat}
use mozilla_telemetry.Wire.Framing.{Encoder}
use mozilla_telemetry.Convert.Process.{File, Run, process_file}
use mozilla_telemetry.Convert.Process.Keeping.{IsRunning}
use mozilla_telemetry.Convert.Process.Blame.{IsBlamed, IsQuiet, SoundCache, process_file-Blame}
use mozilla_telemetry.Convert.Main.{
  Host, Main, on_world, on_run, report_all, announce, main_loop, run_batch,
}
use mozilla_telemetry.Convert.Main.Keeping.{FileParts, RoundParts, main_loop-Keeping}

-- The system does its work or throws.
pub record IsQuietHost {W : Type 0} (host : Host W) : Type 0 where
  pub lists : (w : W) (p : Bytes) → Ensures Never Any (host.list_directory w p)
  pub places : (p : Bytes) (w : W) → Ensures Never Any (host.temp_path p w).0
  pub renames : (p q : Bytes) (w : W) → Ensures Never Any (host.rename p q w).0
  pub removes : (p : Bytes) (w : W) → Ensures Never Any (host.remove p w).0
  pub draws : (w : W) → Ensures Never Any (host.random_uuid w).0
  pub sizes : (w : W) (p : Bytes) → Ensures Never Any (host.open_file w p).size

module _ (J : Rapidjson) (Z : Zlib) (memory junk : ℕ) (B : Boost J.Double)
    (lexical_cast : Bytes → Option ℤ) {N : Type 0} (network : Network N)
    (write_json : Value J.Double → Bytes) (K : Sink B.FsPath) (small : memory + 1 < 2 ^ 32)
    (quiet : IsQuiet network) (F : WireFormat) (E : Encoder) {W : Type 0} (host : Host W) where
  open J use {Double}

  abbrev Objects : Type 0
  Objects = Run Double (HistogramCache × N) K.State

  abbrev The : Type 0
  The = Main J Z memory junk B (cached J lexical_cast network) write_json K F E host

  abbrev RunBlame : Objects → Fault → Type 0
  RunBlame r kind = IsBlamed J network r.cache r.reader.document

  abbrev Blame : The → Fault → Type 0
  Blame d = RunBlame d.run

  abbrev Sound : The → Type 0
  Sound d = IsRunning memory SoundCache d.run

  -- A step that has no fault but one to blame on a document, and keeps the objects sound
  abbrev Fair : {A : Type 0} → Exec The A → Type 0
  Fair m = Keeping Blame Sound m

  blamed :
      {A : Type 0} (r : Objects) (m : Outcome A) → Ensures Never Any m → Ensures (RunBlame r) Any m
  blamed r m h =
      Ensures-weaken Never (RunBlame r) Any Any m (λ kind never. absurd never) (λ a u. tt) h

  on_world-Fair :
      {A : Type 0} (f : Exec W A)
      → ((w : W) → Ensures Never Any (f w).0)
      → Fair (on_world J Z memory junk B (cached J lexical_cast network) write_json K F E host f)
  on_world-Fair f h d sound = (blamed d.run (f d.world).0 (h d.world), sound)

  process-Fair :
      (file : W → File)
      → ((w : W) → Ensures Never Any (file w).size)
      → Fair (
          on_run J Z memory junk B (cached J lexical_cast network) write_json K F E host (λ w.
            process_file J Z memory junk B (cached J lexical_cast network) write_json K (file w)))
  process-Fair file sized d sound =
      let done =
        process_file-Blame J Z memory junk B lexical_cast network write_json K small quiet
          (file d.world) d.run (sized d.world) sound in
      (done.ensures, done.kept)

  report_all-Fair :
      Fair (report_all J Z memory junk B (cached J lexical_cast network) write_json K F E host)
  unfolding report_all Cache.get_metrics Report.get_metrics
  report_all-Fair d sound = (
    tt,
    record {
      reader = ground (arith, sound.reader);
      cache = record { cache = sound.cache.cache; revisions = sound.cache.revisions };
    },
  )

  module _ (calm : IsQuietHost host) (input log_file : Bytes) where
    announce-Fair :
        (tfn uuid : Bytes)
        → Fair (
            announce J Z memory junk B
              (cached J lexical_cast network)
              write_json
              K
              F
              E
              host
              tfn
              uuid)
    unfolding announce
    announce-Fair tfn uuid d sound =
        report_all-Fair
          (record d {
            message = record d.message {
              uuid = some uuid;
              timestamp = some (host.now d.world);
              payload = some (host.filename tfn);
            };
          })
          sound

    fair_file :
        FileParts J Z memory junk B
          (cached J lexical_cast network)
          write_json
          K
          F
          E
          host
          Blame
          Sound
          log_file
    fair_file = record {
      processes = λ tfn. process-Fair (λ w. host.open_file w tfn) (λ w. calm.sizes w tfn);
      removes = λ tfn. on_world-Fair (host.remove tfn) (calm.removes tfn);
      rolls = λ d sound. (tt, sound);
      draws = on_world-Fair host.random_uuid calm.draws;
      announces = announce-Fair;
    }

    fair_round :
        RoundParts J Z memory junk B
          (cached J lexical_cast network)
          write_json
          K
          F
          E
          host
          Blame
          Sound
          log_file
          input
    fair_round = record {
      file = fair_file;
      places = λ name. on_world-Fair (host.temp_path name) (calm.places name);
      renames = λ fn tfn. on_world-Fair (host.rename fn tfn) (calm.renames fn tfn);
      lists =
          λ d sound. blamed d.run (host.list_directory d.world input) (calm.lists d.world input);
      waits = λ d sound. sound;
    }

    -- Every number of rounds of the loop of `main` from sound objects has no fault but one to blame on a
    -- document, and keeps the objects sound.
    pub main_loop-Fair :
        (n : ℕ)
        → Fair (
            main_loop J Z memory junk B
              (cached J lexical_cast network)
              write_json
              K
              F
              E
              host
              input
              log_file
              n)
    main_loop-Fair =
        main_loop-Keeping J Z memory junk B (cached J lexical_cast network) write_json K F E host
          Blame Sound log_file input fair_round

  -- The batch mode, on files whose size can be told or that throw
  pub run_batch-Fair :
      (fs : List File)
      → All (λ f. Ensures Never Any f.size) fs
      → Keeping RunBlame
          (IsRunning memory SoundCache)
          (run_batch J Z memory junk B (cached J lexical_cast network) write_json K F E host fs)
  unfolding run_batch
  run_batch-Fair [] sized r sound = (tt, sound)
  run_batch-Fair (f ∷ fs) sized r sound =
      bind-Keeping RunBlame (IsRunning memory SoundCache)
        (process_file J Z memory junk B (cached J lexical_cast network) write_json K f)
        (λ done.
          run_batch J Z memory junk B (cached J lexical_cast network) write_json K F E host fs)
        (λ r' s.
          let done =
            process_file-Blame J Z memory junk B lexical_cast network write_json K small quiet f r'
              sized.0 s in
          (done.ensures, done.kept))
        (λ done. run_batch-Fair fs sized.1) r sound
