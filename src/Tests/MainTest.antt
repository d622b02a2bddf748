-- ===== src/Tests/MainTest.antt =====
-- Runs of the loop of `main` of convert.cpp over directories.
use mozilla_telemetry.Prelude.{
  suc, ◌⊎◌, ◌≡◌, refl, Bool, arith, true, false, some, List, [], ◌∷◌, ◌++◌, drop, Bytes, codes,
  none,
}
use mozilla_telemetry.Prelude.Int.{ℤ, pos}
use mozilla_telemetry.Outcome.{Outcome, ok, throw}
use mozilla_telemetry.Json.{Value}
use mozilla_telemetry.Metric.{new_message}
use mozilla_telemetry.Cache.{HistogramCache}
use mozilla_telemetry.Cache.Client.{cached}
use mozilla_telemetry.Converter.Document.{FindHistogram}
use mozilla_telemetry.Writer.{collector}
use mozilla_telemetry.Wire.Framing.{frames_of}
use mozilla_telemetry.Convert.Process.{Run, new_metrics}
use mozilla_telemetry.Convert.Main.{Host, first_regular, Daemon, report_all, main_loop}
use mozilla_telemetry.Convert.Main.Stuck.{IsStuck, main_loop_stuck}
use mozilla_telemetry.Convert.Main.Reports.{IsCleared, messages, report_all-messages}
use mozilla_telemetry.Convert.Main.Drains.{count_regular, IsOrderly, pending}
use mozilla_telemetry.Convert.Main.Drained.{main_loop-drains_or}
use mozilla_telemetry.Convert.Main.Faults.{IsQuietHost}
use mozilla_telemetry.Convert.Process.Blame.{IsBlamed, SoundCache}
use mozilla_telemetry.Convert.Process.Keeping.{IsRunning}
use mozilla_telemetry.Tests.Instances.{sample_json, stored_zlib}
use mozilla_telemetry.Tests.SpecificationTest.{cast_digit}
use mozilla_telemetry.Tests.RecordTest.{memory, fresh, fresh-IsSound}
use mozilla_telemetry.Tests.SchemaTest.{parts_boost, schema}
use mozilla_telemetry.Tests.CacheTest.{server, missing, empty}
use mozilla_telemetry.Tests.WireTest.{small, messages_of}

-- A system that is no more than the files of the input directory
abbrev pub files : Host (List Bytes)
files = record {
  list_directory = λ w input. ok w;
  is_regular_file = λ w p. true;
  temp_path = λ name w. (ok (codes "/tmp/" ++ name), w);
  filename = λ p. p;
  rename = λ fn tfn w. (ok tt, drop 1 w);
  remove = λ p w. (ok tt, w);
  open_file =
      λ w p. record { content = none; size = throw (codes "No such file"); elapsed = pos 0 };
  open_log = λ p w. (true, w);
  random_uuid = λ w. (ok (codes "1234"), w);
  now = λ w. pos 1;
  is_stopped = λ w. false;
  wait = λ w. (true, w);
}

-- The temporary directory is on another file system.
abbrev other_device : Host (List Bytes)
other_device = record files { rename = λ fn tfn w. (throw (codes "Invalid cross-device link"), w) }

abbrev write_json : Value ℤ → Bytes
write_json v = codes "{}"

abbrev finds : FindHistogram (HistogramCache × Unit {0})
finds = cached sample_json cast_digit (server missing)

abbrev start :
    List Bytes → Daemon (Run ℤ (HistogramCache × Unit {0}) (List (List Bytes × Bytes))) (List Bytes)
start names = record {
  run = record {
    reader = fresh;
    cache = (empty, tt);
    schema = schema;
    writer = [];
    metrics = new_metrics;
  };
  message = new_message;
  log = record { is_open = true; is_good = true; written = [] };
  world = names;
}

abbrev two_files : List Bytes
two_files = codes "a" ∷ codes "b" ∷ []

stuck :
    IsStuck sample_json stored_zlib memory 0 parts_boost finds write_json
      (collector (List Bytes))
      small
      messages_of
      other_device
      (codes "in")
      two_files
unfolding first_regular
stuck = record {
  entries = two_files;
  fn = codes "a";
  tfn = codes "/tmp/a";
  what = codes "Invalid cross-device link";
  going = refl;
  listed = refl;
  first = refl;
  target = refl;
  refused = refl;
}

main_loop_stuck_example :
    main_loop sample_json stored_zlib memory 0 parts_boost finds write_json
      (collector (List Bytes))
      small
      messages_of
      other_device
      (codes "in")
      (codes "log")
      1000
      (start two_files)
    ≡ (ok true, start two_files)
main_loop_stuck_example =
    main_loop_stuck sample_json stored_zlib memory 0 parts_boost finds write_json
      (collector (List Bytes)) small messages_of other_device (codes "in") (codes "log")
      (start two_files) 1000 stuck

moved :
    (fn tfn : Bytes) (w : List Bytes)
    → first_regular (files.is_regular_file w) w ≡ some fn
    → (w' : List Bytes) × (files.rename fn tfn w ≡ (ok tt, w'))
      × (suc (count_regular (files.is_regular_file w') w')
          ≡ count_regular (files.is_regular_file w) w)
unfolding first_regular
moved fn tfn [] h = absurd (cc h)
moved fn tfn (p ∷ ps) h = (ps, refl, refl)

files_IsOrderly : IsOrderly files (codes "in")
files_IsOrderly = record {
  entries = λ w. w;
  listed = λ w. refl;
  target = λ name w. (codes "/tmp/" ++ name, refl);
  moved = moved;
  removed = λ p w. refl;
  logged = λ p w. refl;
  drawn = λ w. refl;
}

files-IsQuietHost : IsQuietHost files
files-IsQuietHost = record {
  lists = λ w p. tt;
  places = λ p w. tt;
  renames = λ p q w. tt;
  removes = λ p w. tt;
  draws = λ w. tt;
  sizes = λ w p. tt;
}

start-IsRunning : IsRunning memory SoundCache (start two_files).run
start-IsRunning = record { reader = fresh-IsSound; cache = record { cache = tt; revisions = tt } }

abbrev looped :
    Outcome Bool
    × Daemon (Run ℤ (HistogramCache × Unit {0}) (List (List Bytes × Bytes))) (List Bytes)
looped =
    main_loop sample_json stored_zlib memory 0 parts_boost finds write_json (collector (List Bytes))
      small messages_of files (codes "in") (codes "log") 2 (start two_files)

main_loop-drains_or_example :
    ((looped.0 ≡ ok true)
      × (pending sample_json stored_zlib memory 0 parts_boost finds write_json
            (collector (List Bytes))
            small
            messages_of
            files
            (codes "in")
            (codes "log")
            files_IsOrderly
            looped.1.world
          ≡ 0))
    ⊎ IsBlamed sample_json (server missing) looped.1.run.cache looped.1.run.reader.document
unfolding files_IsOrderly
main_loop-drains_or_example =
    main_loop-drains_or sample_json stored_zlib memory 0 parts_boost cast_digit (server missing)
      write_json (collector (List Bytes)) (omega arith) (λ w host port request. tt) small
      messages_of files (codes "in") (codes "log") files-IsQuietHost files_IsOrderly 2
      (start two_files) (λ w. refl) refl start-IsRunning

abbrev RunOf : Type 0
RunOf = Run ℤ (HistogramCache × Unit {0}) (List (List Bytes × Bytes))

report_all-messages_example :
    (d' : Daemon RunOf (List Bytes)) × (report_all sample_json stored_zlib memory 0 parts_boost
        finds write_json
        (collector (List Bytes))
        small
        messages_of
        files
        (start two_files)
      ≡ (ok tt, d'))
    × (d'.log ≡ record (start two_files).log {
      written = frames_of small messages_of (
          messages sample_json stored_zlib memory 0 parts_boost finds write_json
            (collector (List Bytes))
            small
            messages_of
            files
            (start two_files));
    })
    × IsCleared sample_json stored_zlib memory 0 parts_boost finds write_json
        (collector (List Bytes))
        small
        messages_of
        files
        (start two_files).run
        d'.run
    × (d'.world ≡ two_files)
report_all-messages_example =
    report_all-messages sample_json stored_zlib memory 0 parts_boost finds write_json
      (collector (List Bytes)) small messages_of files (start two_files) refl
